-- ===== src/Guest/Workload/Starts/Ends.antt =====
-- The loop of Start in internal/guestagent/process_linux.go ends by the deadline of its context.
use epoch.Base.{
  ℕ, zero, suc, ◌≤◌, ◌<◌, String, Option, none, some, List, [], ◌∷◌, lookup, has_key, leb, length,
  ◌||◌, eqb_ℤ, pos, Result, ok, err, ◌≢◌, ◌⊎◌, refl, arith, if-elim, Option-cases, inl, inr,
}
use epoch.Guest.{ClockObservation, ActionResult, ServiceRequest, ServiceResult}
use epoch.Guest.Manifest.{Manifest, Service}
use epoch.Guest.Workload.{Machine, Owned, Manager, health}
use epoch.Guest.Workload.Frame.{IsKeptByRuns}
use epoch.Guest.Workload.Actions.{Answer, action}
use epoch.Guest.Workload.Actions.Kept.{action-kept}
use epoch.Guest.Workload.Starts.{
  Readiness, ready, unready, after_pause, checked_ready, after_action, readiness_request,
  ready_loop, concluded, start_launched, start_declared, start_begun, start,
}

-- The pauses that are left before the context of the call ends: a pause that is waited out uses one up, and
-- nothing else brings any back.
pub record IsTimed {W : Type 0} (machine : Machine W) (left : W → ℕ) : Type 0 where
  pub by_pause : (w : W) → ((machine.pause w).0 ≢ none) ⊎ (left (machine.pause w).1 < left w)
  pub by_runs : (n : ℕ) → IsKeptByRuns machine (λ w. left w ≤ n)

module _ {W : Type 0} (machine : Machine W) (manifest : Manifest) (left : W → ℕ)
    (timed : IsTimed machine left) where
  after_pause_ends :
      (services : List (String × Owned)) (out : Option String × W)
      (again : Manager W → Option (Readiness × Manager W))
      → (out.0 ≢ none) ⊎ (again (record { services = services; world = out.1 }) ≢ none)
      → after_pause machine manifest services out again ≢ none
  unfolding after_pause
  after_pause_ends services (some e, w) again h = λ p. ground (arith, p)
  after_pause_ends services (none, w) again (inl h) = absurd (h refl)
  after_pause_ends services (none, w) again (inr h) = h

  paused :
      (services : List (String × Owned)) (w : W)
      (again : Manager W → Option (Readiness × Manager W))
      → ((m : Manager W) → left m.world < left w → again m ≢ none)
      → after_pause machine manifest services (machine.pause w) again ≢ none
  paused services w again h =
      after_pause_ends services (machine.pause w) again (elim (timed.by_pause w) [
        | inl over ↦ inl over
        | inr less ↦ inr (h (record { services = services; world = (machine.pause w).1 }) less)
      ])

  after_action_ends :
      (out : Answer ActionResult × Manager W) (again : Manager W → Option (Readiness × Manager W))
      → ((m : Manager W) → left m.world < left out.1.world → again m ≢ none)
      → after_action machine manifest out again ≢ none
  unfolding after_action checked_ready
  after_action_ends ((r, e ∷ es), m) again h = λ p. ground (arith, p)
  after_action_ends ((r, []), m) again h =
      if-elim (λ (o : Option (Readiness × Manager W)). o ≢ none) (eqb_ℤ r.exit_code (pos 0)) _ _
        (λ _ p. ground (arith, p)) (λ _. paused m.services m.world again h)

  ready_loop_ends :
      (fuel : ℕ) (spec : Service) (m : Manager W)
      → left m.world < fuel
      → ready_loop machine manifest fuel spec m ≢ none
  unfolding ready_loop
  ready_loop_ends zero spec m h = absurd (omega arith)
  ready_loop_ends (suc fuel) spec m h = elim (Option-cases (health machine m)) [
    | inr (e, bad) ↦ λ p. ground (arith, p, bad)
    | inl fine ↦
        rw (fine, ready_loop)
          (after_action_ends (action machine manifest (readiness_request machine manifest spec) m)
            (λ m'. ready_loop machine manifest fuel spec m')
            (λ m' less. ready_loop_ends fuel spec m' (
              omega (
                arith,
                action-kept machine manifest (λ w. left w ≤ left m.world)
                    (timed.by_runs (left m.world)) (readiness_request machine manifest spec) m
                    (omega arith),
              ))))
  ]

  concluded_ends :
      (r : ServiceResult) (o : Option (Readiness × Manager W))
      → o ≢ none
      → concluded machine manifest r o ≢ none
  unfolding concluded
  concluded_ends r none h = absurd (h refl)
  concluded_ends r (some (unready e, m)) h = λ p. ground (arith, p)
  concluded_ends r (some (ready, m)) h = λ p. ground (arith, p)

  start_launched_ends :
      (fuel : ℕ) (name : String) (spec : Service) (r : ServiceResult)
      (services : List (String × Owned)) (out : Result String ℕ × W)
      → left out.1 < fuel
      → start_launched machine manifest fuel name spec r services out ≢ none
  unfolding start_launched
  start_launched_ends fuel name spec r services (err e, w) h = λ p. ground (arith, p)
  start_launched_ends fuel name spec r services (ok p, w) h =
      concluded_ends r _ (ready_loop_ends fuel spec _ h)

  start_declared_ends :
      (fuel : ℕ) (req : ServiceRequest) (spec : Option Service) (r : ServiceResult) (m : Manager W)
      → left m.world < fuel
      → start_declared machine manifest fuel req spec r m ≢ none
  unfolding start_declared
  start_declared_ends fuel req none r m h = λ p. ground (arith, p)
  start_declared_ends fuel req (some spec) r m h =
      if-elim (λ (o : Option (Answer ServiceResult × Manager W)). o ≢ none)
        (has_key req.service m.services || leb 4 (length m.services)) _ _ (λ _ p. ground (arith, p))
        (λ _. start_launched_ends fuel req.service spec r m.services _ (
          omega (
            arith,
            (timed.by_runs (left m.world)).by_launch "service" req.service req.input m.world
                (omega arith),
          )))

  start_begun_ends :
      (fuel : ℕ) (req : ServiceRequest) (services : List (String × Owned))
      (out : Result String ClockObservation × W)
      → left out.1 < fuel
      → start_begun machine manifest fuel req services out ≢ none
  unfolding start_begun
  start_begun_ends fuel req services (err e, w) h = λ p. ground (arith, p)
  start_begun_ends fuel req services (ok v, w) h =
      start_declared_ends fuel req (lookup req.service manifest.services) _ _ h

  -- Start ends, whatever the machine does otherwise, where each pause between two rounds of its loop uses
  -- up one of finitely many before the deadline: it makes at most one round more than there are pauses
  -- left.
  pub start_ends :
      (fuel : ℕ) (req : ServiceRequest) (m : Manager W)
      → left m.world < fuel
      → start machine manifest fuel req m ≢ none
  unfolding start
  start_ends fuel req m h =
      start_begun_ends fuel req m.services (machine.read_clock m.world)
        (omega (arith, (timed.by_runs (left m.world)).kept.by_clock m.world (omega arith)))
