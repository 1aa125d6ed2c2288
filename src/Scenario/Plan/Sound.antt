-- ===== src/Scenario/Plan/Sound.antt =====
-- What Scenario.Validate of internal/scenario/scenario.go promises of an accepted plan.
use epoch.Base.{
  not, ◌&&◌, none, List, [], ◌∷◌, ◌++◌, map, ◌≡◌, refl, sym, ◌∙◌, ap, subst, ℤ, ltb_ℤ, All, ok,
  ◌>>=◌, guard, >>=-eq-ok, >>-eq-ok, guard-eq-ok, ok-injective, All-map, member-map_fresh, has_key,
  has_key-lookup, lookup, IsDistinct, str_eq, arith,
}
use epoch.Scenario.{
  Step, Scenario, waits_exceed_budget, unsupported_api_version, unsafe_identifier,
  dotted_identifier, bad_step_id, duplicate_step_id, max_timeout_ms,
}
use epoch.Scenario.Names.{is_identifier, is_workload_identifier}
use epoch.Scenario.StepRules.{TimeText, validate_step}
use epoch.Scenario.StepRules.Laws.{IsSound, IsLimit, validate_step-IsSound, validate_step-id}
use epoch.Scenario.Plan.{
  valid_interval, api_version_text, validate, validate_steps, validate_in_order,
  validate_assertions, head_rules,
}
use epoch.Scenario.Plan.Walk.{Progress, start, advance}
use epoch.Scenario.Plan.Walk.Order.{advance_all, advance-new, walk-IsInOrder, IsInOrder}

-- What the loop over the steps leaves, from a progress on.
abbrev IsWalked : TimeText → ℤ → Progress → List Step → Progress → Type 0
IsWalked time run_timeout p ts q =
    (advance_all ts p ≡ ok q)
    × All (λ t. IsSound time run_timeout t.op t) ts
    × All (λ t. lookup t.id p.steps ≡ none) ts
    × IsDistinct (map (λ t. t.id) ts)

in_order-parts :
    (time : TimeText) (run_timeout : ℤ) (p : Progress) (s t : Step) (q : Progress)
    → validate_in_order time run_timeout p s ≡ ok (t, q)
    → (lookup t.id p.steps ≡ none)
      × (validate_step time run_timeout s ≡ ok t)
      × (advance t p ≡ ok q)
unfolding validate_in_order
in_order-parts time run_timeout p s t q h =
    let (_, h1) = >>-eq-ok (guard (is_identifier s.id) bad_step_id) _ h in
    let (new, h2) = >>-eq-ok (guard (not (has_key s.id p.steps)) duplicate_step_id) _ h1 in
    let (u, valid, h3) = >>=-eq-ok (validate_step time run_timeout s) _ h2 in
    let (r, step, h4) = >>=-eq-ok (advance u p) _ h3 in
    let e = ok-injective h4 in
    let new = has_key-lookup s.id p.steps (ground (arith, guard-eq-ok _ _ new)) in
    subst
      (λ x.
        (lookup x.0.id p.steps ≡ none)
        × (validate_step time run_timeout s ≡ ok x.0)
        × (advance x.0 p ≡ ok x.1))
      e
      (ap (λ k. lookup k p.steps) (validate_step-id time run_timeout s u valid) ∙ new, valid, step)

IsWalked-cons :
    (time : TimeText) (run_timeout : ℤ) (p : Progress) (t : Step) (q : Progress) (ts : List Step)
    (r : Progress)
    → lookup t.id p.steps ≡ none
    → IsSound time run_timeout t.op t
    → advance t p ≡ ok q
    → IsWalked time run_timeout q ts r
    → IsWalked time run_timeout p (t ∷ ts) r
IsWalked-cons time run_timeout p t q ts r new sound step (walk, sounds, news, distinct) =
    let split = λ (u : Step). advance-new t p q u.id step in
    (
      subst (λ x. (x >>= advance_all ts) ≡ ok r) (sym step) walk,
      (sound, sounds),
      (new, All-map (λ u h. (split u h).1) ts news),
      (member-map_fresh t.id (λ u. u.id) ts (All-map (λ u h. (split u h).0) ts news), distinct),
    )

validate_steps-IsWalked :
    (time : TimeText) (run_timeout : ℤ) (p : Progress) (ss ts : List Step) (q : Progress)
    → validate_steps time run_timeout p ss ≡ ok (ts, q)
    → IsWalked time run_timeout p ts q
unfolding validate_steps
validate_steps-IsWalked time run_timeout p [] ts q h =
    let e = ok-injective h in subst (λ x. IsWalked time run_timeout p x.0 x.1) e (refl, tt, tt, tt)
validate_steps-IsWalked time run_timeout p (s ∷ ss) ts q h =
    let ((t, m), here, h1) = >>=-eq-ok (validate_in_order time run_timeout p s) _ h in
    let ((us, r), later, h2) = >>=-eq-ok (validate_steps time run_timeout m ss) _ h1 in
    let (new, valid, step) = in_order-parts time run_timeout p s t m here in
    let e = ok-injective h2 in
    subst (λ x. IsWalked time run_timeout p x.0 x.1) e
      (IsWalked-cons time run_timeout p t m us r new
        (validate_step-IsSound time run_timeout s t valid) step
        (validate_steps-IsWalked time run_timeout m ss us r later))

head-IsLimit : (s h : Scenario) → head_rules s ≡ ok h → IsLimit max_timeout_ms h.timeout_ms
unfolding head_rules valid_interval
head-IsLimit s h e =
    let (_, e1) =
      >>-eq-ok (guard (str_eq s.api_version api_version_text) unsupported_api_version) _ e in
    let (_, e2) =
      >>-eq-ok
        (guard (is_identifier s.name && (is_identifier s.image && is_identifier s.workload))
          unsafe_identifier)
        _ e1 in
    let (_, e3) =
      >>-eq-ok
        (guard (is_workload_identifier s.image && is_workload_identifier s.workload)
          dotted_identifier)
        _ e2 in
    ground arith

-- The loops of an accepted plan.
abbrev IsPlanned : TimeText → Scenario → Progress → Type 0
IsPlanned time t q =
    IsWalked time t.timeout_ms start t.steps q × IsLimit max_timeout_ms t.timeout_ms

validate-IsPlanned :
    (time : TimeText) (s t : Scenario)
    → validate time s ≡ ok t
    → (q : Progress) × IsPlanned time t q
unfolding validate
validate-IsPlanned time s t e =
    let (h, head, e1) = >>=-eq-ok (head_rules s) _ e in
    let ((steps, p), loop, e2) = >>=-eq-ok (validate_steps time h.timeout_ms start h.steps) _ e1 in
    let (_, e3) = >>-eq-ok (guard (ltb_ℤ p.waits h.timeout_ms) waits_exceed_budget) _ e2 in
    let (_, e4) = >>-eq-ok (validate_assertions p.steps [] h.assertions) _ e3 in
    subst (λ x. (q : Progress) × IsPlanned time x q) (ok-injective e4)
      (
        p,
        (
          validate_steps-IsWalked time h.timeout_ms start h.steps steps p loop,
          head-IsLimit s h head,
        ),
      )

-- In an accepted plan, an action and the start of a service have a clock.set before them; a service is
-- started only while it does not run and fewer than four do, and stopped only while it runs; and the
-- clock is set while services run only where the step allows it.
pub validate-IsInOrder :
    (time : TimeText) (s t : Scenario) (before : List Step) (step : Step) (after : List Step)
    → validate time s ≡ ok t
    → t.steps ≡ before ++ step ∷ after
    → IsInOrder before step.op step
validate-IsInOrder time s t before step after h split =
    let (q, (walked, _)) = validate-IsPlanned time s t h in
    walk-IsInOrder before step after q (subst (λ ss. advance_all ss start ≡ ok q) split walked.0)

-- Every step of an accepted plan has what its operation needs, within the time limit of the plan; that
-- limit is 1 ms to 600 s; and no two steps have one ID.
pub validate-IsSound :
    (time : TimeText) (s t : Scenario)
    → validate time s ≡ ok t
    → All (λ step. IsSound time t.timeout_ms step.op step) t.steps
      × IsLimit max_timeout_ms t.timeout_ms
      × IsDistinct (map (λ step. step.id) t.steps)
validate-IsSound time s t h =
    let (q, ((_, sound, _, distinct), limit)) = validate-IsPlanned time s t h in
    (sound, limit, distinct)
