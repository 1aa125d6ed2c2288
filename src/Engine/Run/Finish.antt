-- ===== src/Engine/Run/Finish.antt =====
-- The part of `run` in internal/engine/run.go behind `execute`: the outcome, the cleanup and the
-- final report.
pub mod Keeps
pub mod Success
pub mod Containment
pub mod Bounds
use epoch.Base.{
  String, Bool, true, false, not, ◌&&◌, Option, none, some, List, all, Result, ok, err,
  if◌then◌else◌,
}
use epoch.Base.Exec.{◌>>◌}
use epoch.Scenario.{Scenario}
use epoch.Scenario.Assertions.{AssertionResult}
use epoch.Engine.Outcome.{
  ExecutionStatus, completed, cancelled, AssertionStatus, passed, failed, complete, cleaning,
  finished, is_pass, Report, add_cause, add_failure,
}
use epoch.Engine.Runtime.{Operator, remove_owned_runtime}
use epoch.Engine.Run.{
  Call, shutdown_guest, close_guest, stop_vmm, close_recorder, save_report, World, State, Run,
}
use epoch.Engine.Run.Boot.{boot, enter, observe}
use epoch.Engine.Run.Steps.{run_steps, conclude, joined}

assertion_outcome : List AssertionResult → AssertionStatus
assertion_outcome rs = if all is_pass rs then passed else failed

error_of : Result String (Unit {0}) → Option String
error_of (ok _) = none
error_of (err e) = some e

is_cancelled : ExecutionStatus → Bool
is_cancelled cancelled = true
is_cancelled _ = false

module _ {W : Type 0} (world : World W) (op : Operator) where
  on_report : (Report → Report) → State W → State W
  on_report f s = record s { report = f s.report }

  -- The closure `execute`
  unfoldable pub execute : Scenario → Run W (Unit {0})
  execute plan = do boot world op; run_steps world op plan.assertions plan.steps; conclude world op

  exit_error : State W → Option String
  exit_error s = if s.has_vmm then world.vmm_exited s.world else none

  -- `runErr == nil` and its else: the execution and assertion outcomes.
  decided : Option String → State W → State W
  unfolding on_report assertion_outcome
  decided none s =
      on_report
        (λ r. record r { execution = completed; assertion = assertion_outcome r.assertions }) s
  decided (some e) s =
      let t = on_report (add_cause e) s in
      if world.parent_cancelled s.world
      then on_report (λ r. record r { execution = cancelled }) t
      else t

  -- The result of `execute`, joined with the exit of the VMM.
  unfoldable pub settle : Result String (Unit {0}) × State W → State W
  unfolding decided exit_error error_of
  settle (r, s) = decided (joined (error_of r) (exit_error s)) s

  -- A cleanup action whose failure becomes a cause and demotes COMPLETED.
  unfoldable pub or_failure : Run W (Unit {0}) → State W → State W
  unfolding on_report error_of
  or_failure m s =
      let (r, t) = m s in elim (error_of r) [ none ↦ t | some e ↦ on_report (add_failure e) t ]

  unfoldable pub call : Call → Run W (Unit {0})
  call c s =
      let (e, w) = world.perform c s.world in
      (elim e [ none ↦ ok tt | some text ↦ err text ], record s { world = w })

  forget : Run W (Unit {0}) → State W → State W
  forget m s = (m s).1

  unfoldable pub shut_guest : State W → State W
  unfolding or_failure call forget
  shut_guest s =
      if s.has_guest then forget (call close_guest) (or_failure (call shutdown_guest) s) else s

  stopped : Result String (Unit {0}) × State W → State W × Bool
  unfolding on_report
  stopped (ok _, t) = (t, true)
  stopped (err e, t) = (on_report (add_cause e) t, false)

  -- proc.Stop: `true` where no VMM is left.
  unfoldable pub stop_process : State W → State W × Bool
  unfolding call stopped
  stop_process s = if s.has_vmm then stopped (call stop_vmm s) else (s, true)

  removed : Option String × W → State W → State W
  unfolding on_report
  removed (none, w) s = on_report (λ r. record r { cleanup = complete }) (record s { world = w })
  removed (some e, w) s = on_report (add_cause e) (record s { world = w })

  -- Owned files are removed only where the VMM is known to be dead.
  unfoldable pub remove_files : Bool → State W → State W
  unfolding removed
  remove_files dead s =
      if dead then removed (remove_owned_runtime world.files op s.manifest s.world) s else s

  unfoldable pub copy_cleanup : State W → State W
  copy_cleanup s = record s { manifest = record s.manifest { cleanup = s.report.cleanup } }

  unfoldable pub recorder_verdict : Run W (Unit {0})
  recorder_verdict s = (elim (world.recorder_error s.world) [ none ↦ ok tt | some e ↦ err e ], s)

  -- A cancellation that came during the cleanup.
  unfoldable pub note_cancelled : State W → State W
  unfolding on_report is_cancelled
  note_cancelled s =
      if world.parent_cancelled s.world && not (is_cancelled s.report.execution)
      then on_report
          (λ r.
            let t = add_cause "run cancelled during cleanup" r in
            record t { execution = cancelled })
          s
      else s

  -- Stage CLEANING, up to the question whether a VMM is left.
  unfoldable pub closing : State W → State W × Bool
  closing s = stop_process (shut_guest (or_failure (enter world op cleaning) s))

  unfoldable pub removal : State W → State W
  removal s =
      let (t, dead) = closing s in remove_files dead (or_failure (observe world op "cleanup.end") t)

  -- From stage CLEANING to the report as it is saved.
  unfoldable pub clean_up : State W → State W
  unfolding copy_cleanup note_cancelled
  clean_up s =
      let f = or_failure (enter world op finished) (copy_cleanup (removal s)) in
      note_cancelled (or_failure recorder_verdict (or_failure (call close_recorder) f))

  saved : Option String × W → State W → State W
  unfolding on_report
  saved (none, w) s = on_report (λ r. record r { report_saved = true }) (record s { world = w })
  saved (some e, w) s = on_report (add_failure e) (record s { world = w })

  unfoldable pub save_final : State W → State W
  unfolding saved
  save_final s = saved (world.perform (save_report s.report) s.world) s

  -- `run` from the first stage on.
  unfoldable pub run : Scenario → State W → State W
  unfolding save_final clean_up settle execute
  run plan s = save_final (clean_up (settle (execute plan s)))
