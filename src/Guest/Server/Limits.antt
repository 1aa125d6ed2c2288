-- ===== src/Guest/Server/Limits.antt =====
-- The time limits that a plan sends (internal/scenario/scenario.go) and those that the guest accepts
-- (requestTimeout of internal/guestagent/server.go).
use epoch.Base.{List, ◌∷◌, ◌++◌, ◌≡◌, ◌⊎◌, inl, inr, subst, ℤ, ok, arith, All, []}
use epoch.Scenario.{Op, action_exec, service_start, service_stop, Step, Scenario, max_timeout_ms}
use epoch.Scenario.StepRules.{TimeText}
use epoch.Scenario.StepRules.Laws.{IsLimit, IsSound}
use epoch.Scenario.Plan.{validate}
use epoch.Scenario.Plan.Sound.{validate-IsSound}
use epoch.Guest.Server.{request_timeout}

limit-accepted :
    (whole t : ℤ) → IsLimit max_timeout_ms whole → IsLimit whole t → request_timeout t ≡ ok t
unfolding request_timeout
limit-accepted whole t w h = ground (arith, w.0, w.1, h.0, h.1)

All-middle :
    {A : Type 0} (P : A → Type 0) (xs : List A) (x : A) (ys : List A) → All P (xs ++ x ∷ ys) → P x
All-middle P [] x ys h = h.0
All-middle P (y ∷ xs) x ys h = All-middle P xs x ys h.1

step-IsLimit :
    (time : TimeText) (whole : ℤ) (o : Op) (s : Step)
    → (o ≡ action_exec) ⊎ ((o ≡ service_start) ⊎ (o ≡ service_stop))
    → IsSound time whole o s
    → IsLimit whole s.timeout_ms
step-IsLimit time whole o s (inl e) h = let (_, _, l) = subst (λ x. IsSound time whole x s) e h in l
step-IsLimit time whole o s (inr (inl e)) h = (subst (λ x. IsSound time whole x s) e h).1
step-IsLimit time whole o s (inr (inr e)) h = (subst (λ x. IsSound time whole x s) e h).1

-- The guest takes the time limit of every action, start and stop of an accepted plan as it is sent.
pub request_timeout-validate :
    (time : TimeText) (s t : Scenario) (before : List Step) (step : Step) (after : List Step)
    → validate time s ≡ ok t
    → t.steps ≡ before ++ step ∷ after
    → (step.op ≡ action_exec) ⊎ ((step.op ≡ service_start) ⊎ (step.op ≡ service_stop))
    → request_timeout step.timeout_ms ≡ ok step.timeout_ms
request_timeout-validate time s t before step after h split which =
    let (sound, limit, _) = validate-IsSound time s t h in
    let here =
      All-middle (λ x. IsSound time t.timeout_ms x.op x) before step after
        (subst (All (λ x. IsSound time t.timeout_ms x.op x)) split sound) in
    limit-accepted t.timeout_ms step.timeout_ms limit
      (step-IsLimit time t.timeout_ms step.op step which here)
