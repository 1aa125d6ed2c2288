-- ===== src/Guest/Workload/Services/Kept.antt =====
-- What Stop and StopAll of internal/guestagent/process_linux.go keep of the system under the manager.
use epoch.Base.{
  ℕ, String, ◌||◌, Option, none, some, List, [], ◌∷◌, lookup, Result, ok, err, ◌≡◌, subst, arith,
  if-elim,
}
use epoch.Guest.{ClockObservation, ServiceRequest, ServiceResult}
use epoch.Guest.Workload.{
  Machine, Owned, Manager, WorkloadError, not_running, exited_before_stop, service_quota, terminate,
}
use epoch.Guest.Workload.Frame.{IsKept, terminate-kept}
use epoch.Guest.Workload.Actions.{Answer}
use epoch.Guest.Workload.Services.{
  blank_service, without, expecting, service_seen, returned, stopped, stop_found, stop_begun, stop,
  one_stopped, stop_each, expected_all, stop_all,
}

module _ {W : Type 0} (machine : Machine W) (Q : W → Type 0) (kept : IsKept machine Q) where
  returned-kept :
      (r : ServiceResult) (es : List WorkloadError) (m : Manager W)
      → Q m.world
      → Q (returned machine r es m).1.world
  unfolding returned service_seen
  returned-kept r es m q =
      let same : (machine.read_clock m.world).1 ≡ (returned machine r es m).1.world =
        ground arith in
      subst Q same (kept.by_clock m.world q)

  stopped-kept :
      (name : String) (p : ℕ) (r : ServiceResult) (services : List (String × Owned))
      (out : Option WorkloadError × W)
      → Q out.1
      → Q (stopped machine name p r services out).1.world
  unfolding stopped
  stopped-kept name p r services (some e, w) q =
      returned-kept r (e ∷ []) (record { services = services; world = w }) q
  stopped-kept name p r services (none, w) q =
      let m : Manager W = record { services = without name services; world = w } in
      let l = machine.look p w in
      if-elim (λ (o : Answer ServiceResult × Manager W). Q o.1.world)
        (l.stdout_quota || l.stderr_quota) _ _ (λ _. returned-kept r (service_quota ∷ []) m q)
        (λ _. returned-kept (record r { stdout = l.stdout; stderr = l.stderr }) [] m q)

  stop_found-kept :
      (name : String) (r : ServiceResult) (o : Option Owned) (services : List (String × Owned))
      (w : W)
      → Q w
      → Q (stop_found machine name r o services w).1.world
  unfolding stop_found
  stop_found-kept name r none services w q =
      returned-kept r (not_running ∷ []) (record { services = services; world = w }) q
  stop_found-kept name r (some p) services w q =
      if-elim (λ (o : Answer ServiceResult × Manager W). Q o.1.world)
        (machine.look p.process w).done _ _
        (λ _.
          returned-kept r (exited_before_stop ∷ []) (record { services = services; world = w }) q)
        (λ _.
          stopped-kept name p.process r (expecting name services) (terminate machine p.process w)
            (terminate-kept machine Q kept p.process w q))

  stop_begun-kept :
      (req : ServiceRequest) (services : List (String × Owned))
      (out : Result String ClockObservation × W)
      → Q out.1
      → Q (stop_begun machine req services out).1.world
  unfolding stop_begun
  stop_begun-kept req services (err e, w) q = q
  stop_begun-kept req services (ok v, w) q =
      stop_found-kept req.service (record (blank_service req.service) { before = v })
        (lookup req.service services) services w q

  pub stop-kept :
      (req : ServiceRequest) (m : Manager W) → Q m.world → Q (stop machine req m).1.world
  unfolding stop
  stop-kept req m q =
      stop_begun-kept req m.services (machine.read_clock m.world) (kept.by_clock m.world q)

  one_stopped-kept :
      (name : String) (p : ℕ) (services : List (String × Owned)) (out : Option WorkloadError × W)
      → Q out.1
      → Q (one_stopped machine name p services out).1.world
  unfolding one_stopped
  one_stopped-kept name p services (some e, w) q = q
  one_stopped-kept name p services (none, w) q = q

  stop_each-kept :
      (rest : List (String × Owned)) (m : Manager W)
      → Q m.world
      → Q (stop_each machine rest m).1.world
  unfolding stop_each
  stop_each-kept [] m q = q
  stop_each-kept ((name, p) ∷ rest) m q = stop_each-kept rest _ (
      one_stopped-kept name p.process m.services (terminate machine p.process m.world)
        (terminate-kept machine Q kept p.process m.world q))

  pub stop_all-kept : (m : Manager W) → Q m.world → Q (stop_all machine m).1.world
  unfolding stop_all
  stop_all-kept m q = stop_each-kept (expected_all machine m.services) _ q
