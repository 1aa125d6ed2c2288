-- ===== src/Guest/Workload/Starts.antt =====
-- Start of internal/guestagent/process_linux.go: a service is launched, and its readiness action is run until
-- it succeeds.
pub mod Ends
pub mod Services
pub mod Refines
use epoch.Base.{
  ℕ, zero, suc, String, true, false, ◌||◌, Option, none, some, List, [], ◌∷◌, length, leb, eqb_ℤ,
  pos, lookup, has_key, if◌then◌else◌, Result, ok, err,
}
use epoch.Guest.{ClockObservation, ActionRequest, ActionResult, ServiceRequest, ServiceResult}
use epoch.Guest.Manifest.{Manifest, Service}
use epoch.Guest.Workload.{
  Machine, Owned, Manager, WorkloadError, undeclared_service, start_refused, readiness_failed,
  clock_failed, launch_failed, context_ended, health,
}
use epoch.Guest.Workload.Actions.{Answer, action}
use epoch.Guest.Workload.Services.{blank_service, returned}

-- How the loop ends.
pub data Readiness : Type 0 where
  ready : Readiness
  unready : WorkloadError → Readiness

module _ {W : Type 0} (machine : Machine W) (manifest : Manifest) where
  -- The wait between two rounds; `again` is the next one.
  after_pause :
      List (String × Owned)
      → Option String × W
      → (Manager W → Option (Readiness × Manager W))
      → Option (Readiness × Manager W)
  after_pause services (some e, w) again =
      some (unready (context_ended e), record { services = services; world = w })
  after_pause services (none, w) again = again (record { services = services; world = w })

  checked_ready : Manager W → Option WorkloadError → Readiness × Manager W
  checked_ready m none = (ready, m)
  checked_ready m (some e) = (unready e, m)

  -- A round behind its readiness action.
  after_action :
      Answer ActionResult × Manager W
      → (Manager W → Option (Readiness × Manager W))
      → Option (Readiness × Manager W)
  unfolding after_pause checked_ready
  after_action ((r, e ∷ es), m) again = some (unready readiness_failed, m)
  after_action ((r, []), m) again =
      if eqb_ℤ r.exit_code (pos 0)
      then some (checked_ready m (health machine m))
      else after_pause m.services (machine.pause m.world) again

  readiness_request : Service → ActionRequest
  readiness_request spec = record {
    action = spec.readiness_action;
    input = none;
    timeout_ms = pos 0;
  }

  -- The loop of Start; `none` where the rounds ran out.
  unfoldable pub ready_loop : ℕ → Service → Manager W → Option (Readiness × Manager W)
  unfolding after_action readiness_request action health
  ready_loop zero spec m = none
  ready_loop (suc fuel) spec m = elim (health machine m) [
    | some e ↦ some (unready e, m)
    | none ↦
        after_action (action machine manifest (readiness_request spec) m)
          (λ m'. ready_loop fuel spec m')
  ]

  concluded :
      ServiceResult → Option (Readiness × Manager W) → Option (Answer ServiceResult × Manager W)
  unfolding returned
  concluded r none = none
  concluded r (some (unready e, m)) = some (returned machine r (e ∷ []) m)
  concluded r (some (ready, m)) = some (returned machine (record r { running = true }) [] m)

  start_launched :
      ℕ
      → String
      → Service
      → ServiceResult
      → List (String × Owned)
      → Result String ℕ × W
      → Option (Answer ServiceResult × Manager W)
  unfolding concluded ready_loop returned
  start_launched fuel name spec r services (err e, w) =
      some (returned machine r (launch_failed e ∷ []) (record { services = services; world = w }))
  start_launched fuel name spec r services (ok p, w) = concluded r (
      ready_loop fuel spec (record {
        services = (name, record { process = p; expected = false }) ∷ services;
        world = w;
      }))

  start_declared :
      ℕ
      → ServiceRequest
      → Option Service
      → ServiceResult
      → Manager W
      → Option (Answer ServiceResult × Manager W)
  unfolding start_launched returned
  start_declared fuel req none r m = some (returned machine r (undeclared_service ∷ []) m)
  start_declared fuel req (some spec) r m =
      if has_key req.service m.services || leb 4 (length m.services)
      then some (returned machine r (start_refused ∷ []) m)
      else start_launched fuel req.service spec r m.services
          (machine.launch "service" req.service req.input m.world)

  start_begun :
      ℕ
      → ServiceRequest
      → List (String × Owned)
      → Result String ClockObservation × W
      → Option (Answer ServiceResult × Manager W)
  unfolding start_declared blank_service
  start_begun fuel req services (err e, w) =
      some (
        (blank_service req.service, clock_failed e ∷ []),
        record { services = services; world = w },
      )
  start_begun fuel req services (ok v, w) =
      start_declared fuel req (lookup req.service manifest.services)
        (record (blank_service req.service) { before = v })
        (record { services = services; world = w })

  -- Start, with at most `fuel` rounds of its loop
  unfoldable pub start : ℕ → ServiceRequest → Manager W → Option (Answer ServiceResult × Manager W)
  unfolding start_begun
  start fuel req m = start_begun fuel req m.services (machine.read_clock m.world)
