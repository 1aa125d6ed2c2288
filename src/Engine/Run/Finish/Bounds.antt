-- ===== src/Engine/Run/Finish/Bounds.antt =====
-- What the final report of `run` in internal/engine/run.go holds, whatever happened.
use epoch.Base.{
  not, ◌&&◌, if-elim, Bool-cases, inl, inr, ltb→lt, ◌≤◌, String, Bool, Result, ok, err, length,
  length-snoc, ltb, arith, Option, none, some,
}
use epoch.Scenario.{Scenario}
use epoch.Engine.Outcome.{cleaning, finished, Report, add_cause, add_failure}
use epoch.Engine.Runtime.{Operator}
use epoch.Engine.Run.{stop_vmm, close_recorder, World, State, Run}
use epoch.Engine.Run.Frame.{Keeps, IsCalm, IsFramed}
use epoch.Engine.Run.Boot.{enter, observe}
use epoch.Engine.Run.Boot.Keeps.{enter-Keeps, observe-Keeps}
use epoch.Engine.Run.Finish.{
  is_cancelled, decided, stopped, removed, saved, or_failure, execute, settle, stop_process,
  remove_files, closing, removal, copy_cleanup, recorder_verdict, note_cancelled, clean_up,
  save_final, run, call,
}
use epoch.Engine.Run.Finish.Keeps.{
  execute-Keeps, call-Keeps, recorder_verdict-Keeps, or_failure-keeps, shut_guest-keeps,
}

-- A cause is added at the end, or left out.
add_cause-length :
    (text : String) (r : Report) → length r.causes ≤ 64 → length (add_cause text r).causes ≤ 64
unfolding add_cause
add_cause-length text r h = elim (Bool-cases (ltb (length r.causes) 64)) [
  | inl t ↦ rw t (omega (arith, length-snoc r.causes _, ltb→lt _ _ t))
  | inr f ↦ rw f h
]

add_failure-length :
    (text : String) (r : Report) → length r.causes ≤ 64 → length (add_failure text r).causes ≤ 64
unfolding add_failure
add_failure-length text r h = add_cause-length text r h

module _ {W : Type 0} (world : World W) (op : Operator) where
  abbrev IsBounded : State W → Type 0
  IsBounded s = length s.report.causes ≤ 64

  IsBounded-calm : IsCalm world IsBounded
  IsBounded-calm = record {
    by_call = λ c s h. h;
    by_sample = λ s h. h;
    by_stage = λ g s h. h;
    by_host = λ o s h. h;
  }

  IsBounded-framed : IsFramed world IsBounded
  IsBounded-framed = record {
    calm = IsBounded-calm;
    by_step = λ x s h. h;
    by_vmm = λ s h. h;
    by_guest = λ s h. h;
    by_result = λ r s h. h;
    by_verdict = λ r s h. h;
    by_bytes = λ n s h. h;
  }

  failing :
      (m : Run W (Unit {0})) (s : State W)
      → Keeps IsBounded m
      → IsBounded s
      → IsBounded (or_failure world op m s)
  failing m s k h =
      or_failure-keeps world op IsBounded (λ e t. add_failure-length e t.report) m s k h

  decided-IsBounded :
      (e : Option String) (s : State W) → IsBounded s → IsBounded (decided world op e s)
  unfolding decided
  decided-IsBounded none s h = h
  decided-IsBounded (some e) s h =
      if-elim IsBounded (world.parent_cancelled s.world) _ _ (λ _. add_cause-length e s.report h)
        (λ _. add_cause-length e s.report h)

  settle-IsBounded :
      (r : Result String (Unit {0}) × State W) → IsBounded r.1 → IsBounded (settle world op r)
  unfolding settle
  settle-IsBounded (r, s) h = decided-IsBounded _ s h

  stopped-IsBounded :
      (r : Result String (Unit {0}) × State W) → IsBounded r.1 → IsBounded (stopped world op r).0
  unfolding stopped
  stopped-IsBounded (ok u, s) h = h
  stopped-IsBounded (err e, s) h = add_cause-length e s.report h

  stop-IsBounded : (s : State W) → IsBounded s → IsBounded (stop_process world op s).0
  unfolding stop_process
  stop-IsBounded s h =
      if-elim (λ (x : State W × Bool). IsBounded x.0) s.has_vmm _ _
        (λ _. stopped-IsBounded _ ((call-Keeps world op IsBounded IsBounded-calm stop_vmm).at s h))
        (λ _. h)

  removed-IsBounded :
      (r : Option String × W) (s : State W) → IsBounded s → IsBounded (removed world op r s)
  unfolding removed
  removed-IsBounded (none, w) s h = h
  removed-IsBounded (some e, w) s h = add_cause-length e s.report h

  remove-IsBounded :
      (dead : Bool) (s : State W) → IsBounded s → IsBounded (remove_files world op dead s)
  unfolding remove_files
  remove-IsBounded dead s h = if-elim IsBounded dead _ _ (λ _. removed-IsBounded _ s h) (λ _. h)

  note-IsBounded : (s : State W) → IsBounded s → IsBounded (note_cancelled world op s)
  unfolding note_cancelled
  note-IsBounded s h =
      elim (Bool-cases (world.parent_cancelled s.world && not (is_cancelled s.report.execution))) [
        | inl late ↦
            rw (note_cancelled, late) (add_cause-length "run cancelled during cleanup" s.report h)
        | inr same ↦ rw (note_cancelled, same) h
      ]

  saved-IsBounded :
      (r : Option String × W) (s : State W) → IsBounded s → IsBounded (saved world op r s)
  unfolding saved
  saved-IsBounded (none, w) s h = h
  saved-IsBounded (some e, w) s h = add_failure-length e s.report h

  removal-IsBounded : (s : State W) → IsBounded s → IsBounded (removal world op s)
  unfolding removal closing
  removal-IsBounded s h =
      let first =
        failing (enter world op cleaning) s (enter-Keeps world op IsBounded IsBounded-calm cleaning)
          h in
      let shut =
        shut_guest-keeps world op IsBounded IsBounded-calm (λ e t. add_failure-length e t.report) _
          first in
      remove-IsBounded _ _ (
        failing (observe world op "cleanup.end") _
          (observe-Keeps world op IsBounded IsBounded-calm "cleanup.end") (stop-IsBounded _ shut))

  clean_up-IsBounded : (s : State W) → IsBounded s → IsBounded (clean_up world op s)
  unfolding clean_up
  clean_up-IsBounded s h = note-IsBounded _ (
      failing (recorder_verdict world op) _ (recorder_verdict-Keeps world op IsBounded) (
        failing (call world op close_recorder) _
          (call-Keeps world op IsBounded IsBounded-calm close_recorder)
          (failing (enter world op finished) (copy_cleanup world op (removal world op s))
            (enter-Keeps world op IsBounded IsBounded-calm finished) (removal-IsBounded s h))))

  -- The report of a run has at most 64 causes, whatever fails and however often, where it starts with
  -- at most 64.
  pub run_bounded :
      (plan : Scenario) (s : State W)
      → length s.report.causes ≤ 64
      → length (run world op plan s).report.causes ≤ 64
  unfolding run save_final
  run_bounded plan s h =
      let t = execute world op plan s in
      saved-IsBounded _ (clean_up world op (settle world op t)) (
        clean_up-IsBounded _
          (settle-IsBounded t ((execute-Keeps world op IsBounded IsBounded-framed plan).at s h)))
