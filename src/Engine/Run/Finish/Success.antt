-- ===== src/Engine/Run/Finish/Success.antt =====
-- What a run that reports success has done: outcomes of `run` in internal/engine/run.go.
use epoch.Base.{String, Bool, true, List, [], all, ◌≡◌, Result, arith}
use epoch.Scenario.{Scenario}
use epoch.Scenario.Assertions.{AssertionResult}
use epoch.Engine.Outcome.{
  AssertionStatus, completed, error, passed, complete, incomplete, cleaning, finished, is_pass,
  add_cause, add_failure, exit_code,
}
use epoch.Engine.Outcome.Laws.{exit_code-eq-zero}
use epoch.Engine.Runtime.{Operator}
use epoch.Engine.Run.{close_recorder, World, State, Run}
use epoch.Engine.Run.Frame.{Keeps, IsCalm, IsFramed}
use epoch.Engine.Run.Boot.{enter}
use epoch.Engine.Run.Boot.Keeps.{enter-Keeps, observe-Keeps}
use epoch.Engine.Run.Finish.{
  assertion_outcome, execute, settle, or_failure, stop_process, remove_files, closing, removal,
  copy_cleanup, recorder_verdict, note_cancelled, clean_up, save_final, run, call,
}
use epoch.Engine.Run.Finish.Keeps.{
  execute-Keeps, call-Keeps, recorder_verdict-Keeps, or_failure-keeps, shut_guest-keeps,
}

-- The report as `run` makes it, before anything has happened.
abbrev pub IsFresh : {W : Type 0} → State W → Type 0
IsFresh s = (s.report.execution ≡ error) × (s.report.cleanup ≡ incomplete) × (s.report.causes ≡ [])

abbrev HasOutcome : {W : Type 0} → State W → Type 0
HasOutcome s =
    s.report.execution ≡ completed → s.report.assertion ≡ assertion_outcome s.report.assertions

-- Up to the removal of the files: a completed report has no cause, unless a VMM is still there.
abbrev IsOpen : {W : Type 0} → Bool → State W → Type 0
IsOpen dead s =
    (s.report.cleanup ≡ incomplete)
    × HasOutcome s
    × (dead ≡ true → s.report.execution ≡ completed → s.report.causes ≡ [])

abbrev IsHonest : {W : Type 0} → State W → Type 0
IsHonest s =
    HasOutcome s
    × (s.report.cleanup ≡ complete → s.report.execution ≡ completed → s.report.causes ≡ [])

passed-all :
    (a : AssertionStatus) (rs : List AssertionResult)
    → a ≡ assertion_outcome rs
    → a ≡ passed
    → all is_pass rs ≡ true
unfolding assertion_outcome
passed-all a rs e p = ground arith

module _ {W : Type 0} (world : World W) (op : Operator) where
  IsFresh-framed : IsFramed world (IsFresh {W = W})
  IsFresh-framed = record {
    calm = record {
      by_call = λ c s h. h;
      by_sample = λ s h. h;
      by_stage = λ g s h. h;
      by_host = λ o s h. h;
    };
    by_step = λ x s h. h;
    by_vmm = λ s h. h;
    by_guest = λ s h. h;
    by_result = λ r s h. h;
    by_verdict = λ r s h. h;
    by_bytes = λ n s h. h;
  }

  IsOpen-calm : (dead : Bool) → IsCalm world (IsOpen dead)
  IsOpen-calm dead = record {
    by_call = λ c s h. h;
    by_sample = λ s h. h;
    by_stage = λ g s h. h;
    by_host = λ o s h. h;
  }

  IsHonest-calm : IsCalm world (IsHonest {W = W})
  IsHonest-calm = record {
    by_call = λ c s h. h;
    by_sample = λ s h. h;
    by_stage = λ g s h. h;
    by_host = λ o s h. h;
  }

  IsOpen-closed :
      (dead : Bool) (e : String) (t : State W)
      → IsOpen dead t
      → IsOpen dead (record t { report = add_failure e t.report })
  unfolding add_failure
  IsOpen-closed dead e t h = ground arith

  IsHonest-closed :
      (e : String) (t : State W)
      → IsHonest t
      → IsHonest (record t { report = add_failure e t.report })
  unfolding add_failure
  IsHonest-closed e t h = ground arith

  settle-IsOpen :
      (r : Result String (Unit {0})) (s : State W)
      → IsFresh s
      → IsOpen true (settle world op (r, s))
  unfolding settle add_cause
  settle-IsOpen r s h = ground arith

  stop-IsOpen :
      (s : State W) → IsOpen true s → IsOpen (stop_process world op s).1 (stop_process world op s).0
  unfolding stop_process call add_cause
  stop-IsOpen s h = ground arith

  remove-IsHonest :
      (dead : Bool) (s : State W) → IsOpen dead s → IsHonest (remove_files world op dead s)
  unfolding remove_files add_cause
  remove-IsHonest dead s h = ground arith

  note-IsHonest : (s : State W) → IsHonest s → IsHonest (note_cancelled world op s)
  unfolding note_cancelled add_cause
  note-IsHonest s h = ground arith

  closing-IsOpen :
      (s : State W) → IsOpen true s → IsOpen (closing world op s).1 (closing world op s).0
  unfolding closing
  closing-IsOpen s h = stop-IsOpen _ (
      shut_guest-keeps world op (IsOpen true) (IsOpen-calm true) (IsOpen-closed true) _ (
        or_failure-keeps world op (IsOpen true) (IsOpen-closed true) _ s
          (enter-Keeps world op (IsOpen true) (IsOpen-calm true) cleaning) h))

  removal-IsHonest : (s : State W) → IsOpen true s → IsHonest (removal world op s)
  unfolding removal
  removal-IsHonest s h =
      let (c, dead) = closing world op s in
      remove-IsHonest dead _ (
        or_failure-keeps world op (IsOpen dead) (IsOpen-closed dead) _ c
          (observe-Keeps world op (IsOpen dead) (IsOpen-calm dead) "cleanup.end")
          (closing-IsOpen s h))

  failing :
      (m : Run W (Unit {0})) (s : State W)
      → Keeps IsHonest m
      → IsHonest s
      → IsHonest (or_failure world op m s)
  failing m s k h = or_failure-keeps world op IsHonest IsHonest-closed m s k h

  clean_up-IsHonest : (s : State W) → IsOpen true s → IsHonest (clean_up world op s)
  unfolding clean_up
  clean_up-IsHonest s h = note-IsHonest _ (
      failing (recorder_verdict world op) _ (recorder_verdict-Keeps world op IsHonest) (
        failing (call world op close_recorder) _
          (call-Keeps world op IsHonest IsHonest-calm close_recorder)
          (failing (enter world op finished) (copy_cleanup world op (removal world op s))
            (enter-Keeps world op IsHonest IsHonest-calm finished) (removal-IsHonest s h))))

  save-IsHonest :
      (s : State W)
      → IsHonest s
      → IsHonest (save_final world op s)
        × ((save_final world op s).report.execution ≡ completed
            → (save_final world op s).report.report_saved ≡ true)
  unfolding save_final add_failure
  save-IsHonest s h = ground arith

  -- A run whose exit code is 0, in whatever world, recorded no cause of failure, saved its report, and
  -- every assertion result in the report passed.
  pub run_success :
      (plan : Scenario) (s : State W)
      → IsFresh s
      → exit_code (run world op plan s).report ≡ 0
      → ((run world op plan s).report.causes ≡ [])
        × ((run world op plan s).report.report_saved ≡ true)
        × (all is_pass (run world op plan s).report.assertions ≡ true)
  unfolding run
  run_success plan s fresh zero_code =
      let t = execute world op plan s in
      let settled =
        settle-IsOpen t.0 t.1 ((execute-Keeps world op IsFresh IsFresh-framed plan).at s fresh) in
      let u = settle world op t in
      let (honest, saved) = save-IsHonest (clean_up world op u) (clean_up-IsHonest u settled) in
      let won = (exit_code-eq-zero (run world op plan s).report).0 zero_code in
      (honest.1 won.0 won.1, saved won.1, passed-all _ _ (honest.0 won.1) won.2)
