-- ===== src/Guest/Workload/Actions/Kept.antt =====
-- What Action of internal/guestagent/process_linux.go keeps: the services, and of the system what the calls
-- of the machine keep.
use epoch.Base.{
  ℕ, String, not, Option, none, some, List, [], ◌∷◌, has_key, Result, ok, err, ◌≡◌, subst, arith,
  if-elim, Option-cases, inl, inr,
}
use epoch.Guest.{ClockObservation, ActionRequest, ActionResult}
use epoch.Guest.Manifest.{Manifest}
use epoch.Guest.Workload.{
  Watch, wakes, tick, process_done, wake_stdout_quota, wake_stderr_quota, context_done, Machine,
  Owned, Manager, WorkloadError, health_of, terminate,
}
use epoch.Guest.Workload.Frame.{IsKeptByRuns, Watched, terminate-kept}
use epoch.Guest.Workload.Actions.{
  Answer, judged, awaited, action_seen, action_ended, action_watched, action_launched, action_begun,
  action,
}

module _ {W : Type 0} (machine : Machine W) (manifest : Manifest) where
  pub services-action :
      (req : ActionRequest) (m : Manager W)
      → (action machine manifest req m).1.services ≡ m.services
  unfolding action
  services-action req m = ground arith

  module _ (Q : W → Type 0) (kept : IsKeptByRuns machine Q) where
    awaited-kept :
        (services : List (String × Owned)) (watch : Watch W)
        → Watched machine Q watch
        → Q (awaited machine manifest services watch).1
    unfolding awaited
    awaited-kept services (wakes process_done w) q = q
    awaited-kept services (wakes wake_stdout_quota w) q = q
    awaited-kept services (wakes wake_stderr_quota w) q = q
    awaited-kept services (wakes (context_done e) w) q = q
    awaited-kept services (tick w later) q = elim (Option-cases (health_of machine services w)) [
      | inr (e, bad) ↦ ground (arith, bad)
      | inl fine ↦ ground (arith, fine, awaited-kept services later q.1)
    ]

    action_ended-kept :
        (p : ℕ) (r : ActionResult) (es : List WorkloadError) (out : Option WorkloadError × W)
        → Q out.1
        → Q (action_ended machine manifest p (r, es) out).1
    unfolding action_ended action_seen
    action_ended-kept p r es (e, w) q =
        let same : (machine.read_clock w).1 ≡ (action_ended machine manifest p (r, es) (e, w)).1 =
          ground arith in
        subst Q same (kept.kept.by_clock w q)

    action_watched-kept :
        (p : ℕ) (r : ActionResult) (out : Option WorkloadError × W)
        → Q out.1
        → Q (action_watched machine manifest p r out).1
    unfolding action_watched
    action_watched-kept p r (some e, w) q =
        action_ended-kept p r (e ∷ []) (terminate machine p w)
          (terminate-kept machine Q kept.kept p w q)
    action_watched-kept p r (none, w) q =
        let (out, es) = judged (machine.look p w) r in
        action_ended-kept p out es (terminate machine p w)
          (terminate-kept machine Q kept.kept p w q)

    action_launched-kept :
        (services : List (String × Owned)) (r : ActionResult) (out : Result String ℕ × W)
        → Q out.1
        → Q (action_launched machine manifest services r out).1
    unfolding action_launched action_seen
    action_launched-kept services r (err e, w) q =
        let same : (machine.read_clock w).1
            ≡ (action_launched machine manifest services r (err e, w)).1 =
          ground arith in
        subst Q same (kept.kept.by_clock w q)
    action_launched-kept services r (ok p, w) q =
        action_watched-kept p r _ (awaited-kept services (machine.watch p w) (kept.by_watch p w q))

    action_begun-kept :
        (req : ActionRequest) (services : List (String × Owned))
        (out : Result String ClockObservation × W)
        → Q out.1
        → Q (action_begun machine manifest req services out).1
    unfolding action_begun
    action_begun-kept req services (err e, w) q = q
    action_begun-kept req services (ok v, w) q =
        action_launched-kept services _ (machine.launch "action" req.action req.input w)
          (kept.by_launch "action" req.action req.input w q)

    pub action-kept :
        (req : ActionRequest) (m : Manager W)
        → Q m.world
        → Q (action machine manifest req m).1.world
    unfolding action
    action-kept req m q =
        if-elim (λ (out : Answer ActionResult × Manager W). Q out.1.world)
          (not (has_key req.action manifest.actions)) _ _ (λ _. q)
          (λ _.
            action_begun-kept req m.services (machine.read_clock m.world)
              (kept.kept.by_clock m.world q))
