-- ===== src/Guest/Workload/Starts/Services.antt =====
-- The services after Start of internal/guestagent/process_linux.go.
use epoch.Base.{
  ℕ, zero, suc, ◌<◌, String, true, false, ◌||◌, Option, none, some, List, [], ◌∷◌, length, leb,
  has_key, lookup, eqb_ℤ, pos, Result, ok, err, ◌≡◌, ◌≢◌, inl, inr, sym, subst, arith, if-elim,
  Option-cases,
}
use epoch.Guest.{ClockObservation, ActionResult, ServiceRequest, ServiceResult}
use epoch.Guest.Manifest.{Manifest, Service}
use epoch.Guest.Workload.{
  Machine, Owned, Manager, WorkloadError, launch_failed, undeclared_service, start_refused, health,
}
use epoch.Guest.Workload.Actions.{Answer, action}
use epoch.Guest.Workload.Actions.Kept.{services-action}
use epoch.Guest.Workload.Services.{blank_service}
use epoch.Guest.Workload.Services.Names.{services-returned}
use epoch.Guest.Workload.Starts.{
  Readiness, ready, unready, after_pause, checked_ready, after_action, readiness_request,
  ready_loop, concluded, start_launched, start_declared, start_begun, start,
}

module _ {W : Type 0} (machine : Machine W) (manifest : Manifest) where
  -- What ends with a manager ends with these services.
  abbrev pub EndsWith :
      {A : Type 0} → (List (String × Owned) → Type 0) → Option (A × Manager W) → Type 0
  EndsWith P none = Unit
  EndsWith P (some (a, m)) = P m.services

  module _ (P : List (String × Owned) → Type 0) where
    checked_ready-P :
        (m : Manager W) (o : Option WorkloadError)
        → P m.services
        → P (checked_ready machine manifest m o).1.services
    unfolding checked_ready
    checked_ready-P m none h = h
    checked_ready-P m (some e) h = h

    after_pause-EndsWith :
        (services : List (String × Owned)) (out : Option String × W)
        (again : Manager W → Option (Readiness × Manager W))
        → P services
        → ((m : Manager W) → P m.services → EndsWith P (again m))
        → EndsWith P (after_pause machine manifest services out again)
    unfolding after_pause
    after_pause-EndsWith services (some e, w) again h k = h
    after_pause-EndsWith services (none, w) again h k = k _ h

    after_action-EndsWith :
        (out : Answer ActionResult × Manager W) (again : Manager W → Option (Readiness × Manager W))
        → P out.1.services
        → ((m : Manager W) → P m.services → EndsWith P (again m))
        → EndsWith P (after_action machine manifest out again)
    unfolding after_action checked_ready
    after_action-EndsWith ((r, e ∷ es), m) again h k = h
    after_action-EndsWith ((r, []), m) again h k =
        if-elim (λ (o : Option (Readiness × Manager W)). EndsWith P o) (eqb_ℤ r.exit_code (pos 0)) _
          _ (λ _. checked_ready-P m (health machine m) h)
          (λ _. after_pause-EndsWith m.services (machine.pause m.world) again h k)

    pub ready_loop-EndsWith :
        (fuel : ℕ) (spec : Service) (m : Manager W)
        → P m.services
        → EndsWith P (ready_loop machine manifest fuel spec m)
    unfolding ready_loop
    ready_loop-EndsWith zero spec m h = tt
    ready_loop-EndsWith (suc fuel) spec m h = elim (Option-cases (health machine m)) [
      | inr (e, bad) ↦ rw (bad, ready_loop) h
      | inl fine ↦
          rw (fine, ready_loop)
            (after_action-EndsWith
              (action machine manifest (readiness_request machine manifest spec) m)
              (λ m'. ready_loop machine manifest fuel spec m')
              (subst P
                (sym (services-action machine manifest (readiness_request machine manifest spec) m))
                h)
              (λ m' k. ready_loop-EndsWith fuel spec m' k))
    ]

    concluded-EndsWith :
        (r : ServiceResult) (o : Option (Readiness × Manager W))
        → EndsWith P o
        → EndsWith P (concluded machine manifest r o)
    unfolding concluded
    concluded-EndsWith r none h = tt
    concluded-EndsWith r (some (unready e, m)) h =
        subst P (sym (services-returned machine r (e ∷ []) m)) h
    concluded-EndsWith r (some (ready, m)) h =
        subst P (sym (services-returned machine (record r { running = true }) [] m)) h

    start_launched-EndsWith :
        (fuel : ℕ) (name : String) (spec : Service) (r : ServiceResult)
        (services : List (String × Owned)) (out : Result String ℕ × W)
        → P services
        → ((p : ℕ) → P ((name, record { process = p; expected = false }) ∷ services))
        → EndsWith P (start_launched machine manifest fuel name spec r services out)
    unfolding start_launched
    start_launched-EndsWith fuel name spec r services (err e, w) h more =
        subst P
          (sym (
            services-returned machine r (launch_failed e ∷ [])
              (record { services = services; world = w })))
          h
    start_launched-EndsWith fuel name spec r services (ok p, w) h more =
        concluded-EndsWith r _ (ready_loop-EndsWith fuel spec _ (more p))

    start_declared-EndsWith :
        (fuel : ℕ) (req : ServiceRequest) (spec : Option Service) (r : ServiceResult)
        (m : Manager W)
        → P m.services
        → (has_key req.service m.services ≡ false
            → length m.services < 4
            → spec ≢ none
            → (p : ℕ) → P ((req.service, record { process = p; expected = false }) ∷ m.services))
        → EndsWith P (start_declared machine manifest fuel req spec r m)
    unfolding start_declared
    start_declared-EndsWith fuel req none r m h more =
        subst P (sym (services-returned machine r (undeclared_service ∷ []) m)) h
    start_declared-EndsWith fuel req (some spec) r m h more =
        if-elim (λ (o : Option (Answer ServiceResult × Manager W)). EndsWith P o)
          (has_key req.service m.services || leb 4 (length m.services)) _ _
          (λ _. subst P (sym (services-returned machine r (start_refused ∷ []) m)) h)
          (λ room.
            start_launched-EndsWith fuel req.service spec r m.services _ h
              (more (ground (arith, room)) (ground (arith, room)) (λ n. ground (arith, n))))

    start_begun-EndsWith :
        (fuel : ℕ) (req : ServiceRequest) (services : List (String × Owned))
        (out : Result String ClockObservation × W)
        → P services
        → (has_key req.service services ≡ false
            → length services < 4
            → lookup req.service manifest.services ≢ none
            → (p : ℕ) → P ((req.service, record { process = p; expected = false }) ∷ services))
        → EndsWith P (start_begun machine manifest fuel req services out)
    unfolding start_begun
    start_begun-EndsWith fuel req services (err e, w) h more = h
    start_begun-EndsWith fuel req services (ok v, w) h more =
        start_declared-EndsWith fuel req (lookup req.service manifest.services)
          (record (blank_service req.service) { before = v })
          (record { services = services; world = w }) h more

    pub start-EndsWith :
        (fuel : ℕ) (req : ServiceRequest) (m : Manager W)
        → P m.services
        → (has_key req.service m.services ≡ false
            → length m.services < 4
            → lookup req.service manifest.services ≢ none
            → (p : ℕ) → P ((req.service, record { process = p; expected = false }) ∷ m.services))
        → EndsWith P (start machine manifest fuel req m)
    unfolding start
    start-EndsWith fuel req m h more =
        start_begun-EndsWith fuel req m.services (machine.read_clock m.world) h more
