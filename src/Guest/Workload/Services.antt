-- ===== src/Guest/Workload/Services.antt =====
-- Stop and StopAll of internal/guestagent/process_linux.go.
pub mod Names
pub mod Reaped
pub mod Kept
pub mod Refines
use epoch.Base.{
  ℕ, String, Bool, true, false, ◌||◌, Option, none, some, List, [], ◌∷◌, ◌++◌, lookup, str_eq,
  if◌then◌else◌, Result, ok, err,
}
use epoch.Guest.{ClockObservation, ServiceRequest, ServiceResult}
use epoch.Guest.Clock.{no_observation}
use epoch.Guest.Workload.{
  Look, Machine, Owned, Manager, WorkloadError, not_running, exited_before_stop, service_quota,
  clock_failed, terminate,
}
use epoch.Guest.Workload.Actions.{Answer}

unfoldable pub blank_service : String → ServiceResult
blank_service name = record {
  service = name;
  running = false;
  before = no_observation;
  after = no_observation;
  stdout = "";
  stderr = "";
}

-- The map without a name.
unfoldable pub without : String → List (String × Owned) → List (String × Owned)
without k [] = []
without k ((j, p) ∷ m) = let rest = without k m in if str_eq j k then rest else (j, p) ∷ rest

-- p.expected = true for the process of a name
unfoldable pub expecting : String → List (String × Owned) → List (String × Owned)
expecting k [] = []
expecting k ((j, p) ∷ m) =
    (j, (if str_eq j k then record p { expected = true } else p)) ∷ expecting k m

module _ {W : Type 0} (machine : Machine W) where
  -- The deferred look at the clock of a start or a stop.
  unfoldable pub service_seen :
      Answer ServiceResult
      → List (String × Owned)
      → Result String ClockObservation × W
      → Answer ServiceResult × Manager W
  service_seen (r, es) services (ok v, w) =
      ((record r { after = v }, es), record { services = services; world = w })
  service_seen (r, es) services (err e, w) = (
    (record r { after = no_observation }, es ++ clock_failed e ∷ []),
    record { services = services; world = w },
  )

  unfoldable pub returned :
      ServiceResult → List WorkloadError → Manager W → Answer ServiceResult × Manager W
  unfolding service_seen
  returned r es m = service_seen (r, es) m.services (machine.read_clock m.world)

  -- The body of Stop, once the process of the service is terminated.
  stopped :
      String
      → ℕ
      → ServiceResult
      → List (String × Owned)
      → Option WorkloadError × W
      → Answer ServiceResult × Manager W
  unfolding returned without
  stopped name p r services (some e, w) =
      returned r (e ∷ []) (record { services = services; world = w })
  stopped name p r services (none, w) =
      let m : Manager W = record { services = without name services; world = w } in
      let l = machine.look p w in
      if l.stdout_quota || l.stderr_quota
      then returned r (service_quota ∷ []) m
      else returned (record r { stdout = l.stdout; stderr = l.stderr }) [] m

  stop_found :
      String
      → ServiceResult
      → Option Owned
      → List (String × Owned)
      → W
      → Answer ServiceResult × Manager W
  unfolding stopped returned expecting
  stop_found name r none services w =
      returned r (not_running ∷ []) (record { services = services; world = w })
  stop_found name r (some p) services w =
      if (machine.look p.process w).done
      then returned r (exited_before_stop ∷ []) (record { services = services; world = w })
      else stopped name p.process r (expecting name services) (terminate machine p.process w)

  stop_begun :
      ServiceRequest
      → List (String × Owned)
      → Result String ClockObservation × W
      → Answer ServiceResult × Manager W
  unfolding stop_found blank_service
  stop_begun req services (err e, w) =
      ((blank_service req.service, clock_failed e ∷ []), record { services = services; world = w })
  stop_begun req services (ok v, w) =
      stop_found req.service (record (blank_service req.service) { before = v })
        (lookup req.service services) services w

  -- Stop
  unfoldable pub stop : ServiceRequest → Manager W → Answer ServiceResult × Manager W
  unfolding stop_begun
  stop req m = stop_begun req m.services (machine.read_clock m.world)

  -- The round of StopAll's loop on a service that was terminated or not.
  one_stopped :
      String → ℕ → List (String × Owned) → Option WorkloadError × W → List WorkloadError × Manager W
  unfolding without
  one_stopped name p services (some e, w) = (e ∷ [], record { services = services; world = w })
  one_stopped name p services (none, w) =
      let l = machine.look p w in
      (
        (if l.stdout_quota || l.stderr_quota then service_quota ∷ [] else []),
        record { services = without name services; world = w },
      )

  -- The loop of StopAll, over the services in some order.
  stop_each : List (String × Owned) → Manager W → List WorkloadError × Manager W
  unfolding one_stopped
  stop_each [] m = ([], m)
  stop_each ((name, p) ∷ rest) m =
      let (es, m') = one_stopped name p.process m.services (terminate machine p.process m.world) in
      let (more, last) = stop_each rest m' in (es ++ more, last)

  expected_all : List (String × Owned) → List (String × Owned)
  expected_all [] = []
  expected_all ((name, p) ∷ rest) = (name, record p { expected = true }) ∷ expected_all rest

  -- StopAll, without the lines that it logs
  unfoldable pub stop_all : Manager W → List WorkloadError × Manager W
  unfolding stop_each expected_all
  stop_all m =
      let marked = record m { services = expected_all m.services } in
      stop_each marked.services marked
