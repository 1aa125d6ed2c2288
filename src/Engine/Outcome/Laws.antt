-- ===== src/Engine/Outcome/Laws.antt =====
-- The exit code of a report (internal/engine/types.go).
use epoch.Base.{◌≡◌, ◌≢◌, ◌↔◌, arith}
use epoch.Engine.Outcome.{
  completed, cancelled, passed, failed, complete, incomplete, Report, exit_code,
}

-- The exit code is 0 exactly for a report whose cleanup is complete, whose execution completed and
-- whose assertions passed.
pub exit_code-eq-zero :
    (r : Report)
    → (exit_code r ≡ 0)
      ↔ ((r.cleanup ≡ complete) × (r.execution ≡ completed) × (r.assertion ≡ passed))
unfolding exit_code
exit_code-eq-zero r = ground arith

-- No other outcome hides an incomplete cleanup: the exit code is 4 exactly where the cleanup is not
-- complete, 130 exactly for a cancelled run that was cleaned up, and 1 exactly for a run that was
-- cleaned up and completed with a failed assertion.
pub exit_code_priority :
    (r : Report)
    → ((exit_code r ≡ 4) ↔ (r.cleanup ≢ complete))
      × ((exit_code r ≡ 130) ↔ ((r.cleanup ≡ complete) × (r.execution ≡ cancelled)))
      × ((exit_code r ≡ 1)
          ↔ ((r.cleanup ≡ complete) × (r.execution ≡ completed) × (r.assertion ≡ failed)))
unfolding exit_code
exit_code_priority r = ground arith

-- A cleanup that is left incomplete is what the exit code tells.
pub exit_code-incomplete : (r : Report) → r.cleanup ≡ incomplete → exit_code r ≡ 4
unfolding exit_code
exit_code-incomplete r dirty = ground arith
