-- ===== src/Engine/Run/Finish/Containment.antt =====
-- The cleanup of `run` in internal/engine/run.go while a VMM may still be alive.
use epoch.Base.{String, Bool, true, false, none, ◌≡◌, ◌≢◌, subst, sym, ◌∙◌, Result, arith}
use epoch.Scenario.{Scenario, Step}
use epoch.Engine.Outcome.{incomplete, cleaning, finished, add_cause, add_failure, exit_code}
use epoch.Engine.Outcome.Laws.{exit_code-incomplete}
use epoch.Engine.StepCall.{execute_step}
use epoch.Engine.Runtime.{Operator}
use epoch.Engine.Run.{Call, save_report, stop_vmm, close_recorder, World, State, Run}
use epoch.Engine.Run.Frame.{Keeps, IsCalm, IsFramed}
use epoch.Engine.Run.Boot.{enter, observe}
use epoch.Engine.Run.Boot.Keeps.{enter-Keeps, observe-Keeps}
use epoch.Engine.Run.Finish.{
  execute, settle, or_failure, stop_process, remove_files, closing, removal, copy_cleanup,
  recorder_verdict, note_cancelled, clean_up, save_final, run, call,
}
use epoch.Engine.Run.Finish.Keeps.{
  execute-Keeps, call-Keeps, recorder_verdict-Keeps, or_failure-keeps, shut_guest-keeps,
}

-- A property of the world that every call of a run keeps, but for the removal of files.
pub record IsKept {W : Type 0} (world : World W) (P : W → Type 0) : Type 0 where
  pub by_perform : (c : Call) (w : W) → P w → P (world.perform c w).1
  pub by_observe : (w : W) → P w → P (world.observe w).1
  pub by_step : (x : Step) (w : W) → P w → P (execute_step world.time world.guest x w).1

module _ {W : Type 0} (world : World W) (op : Operator) (P : W → Type 0)
    (kept : IsKept world P) where
  abbrev IsOpening : State W → Type 0
  IsOpening s = P s.world × (s.report.cleanup ≡ incomplete)

  IsOpening-framed : IsFramed world IsOpening
  IsOpening-framed = record {
    calm = record {
      by_call = λ c s h. (kept.by_perform c s.world h.0, h.1);
      by_sample = λ s h. (kept.by_observe s.world h.0, h.1);
      by_stage = λ g s h. h;
      by_host = λ o s h. h;
    };
    by_step = λ x s h. (kept.by_step x s.world h.0, h.1);
    by_vmm = λ s h. h;
    by_guest = λ s h. h;
    by_result = λ r s h. h;
    by_verdict = λ r s h. h;
    by_bytes = λ n s h. h;
  }

  -- With a VMM that does not stop, the cleanup stays incomplete.
  abbrev IsStuck : State W → Type 0
  IsStuck s = P s.world × (s.report.cleanup ≡ incomplete) × (s.has_vmm ≡ true)

  IsStuck-calm : IsCalm world IsStuck
  IsStuck-calm = record {
    by_call = λ c s h. (kept.by_perform c s.world h.0, h.1, h.2);
    by_sample = λ s h. (kept.by_observe s.world h.0, h.1, h.2);
    by_stage = λ g s h. h;
    by_host = λ o s h. h;
  }

  IsStuck-closed :
      (e : String) (t : State W)
      → IsStuck t
      → IsStuck (record t { report = add_failure e t.report })
  unfolding add_failure add_cause
  IsStuck-closed e t h = (h.0, ground arith, h.2)

  settle_frame :
      (r : Result String (Unit {0})) (s : State W)
      → ((settle world op (r, s)).world ≡ s.world)
        × ((settle world op (r, s)).report.cleanup ≡ s.report.cleanup)
        × ((settle world op (r, s)).has_vmm ≡ s.has_vmm)
  unfolding settle add_cause
  settle_frame r s = ground arith

  settle-IsStuck :
      (r : Result String (Unit {0})) (s : State W) → IsStuck s → IsStuck (settle world op (r, s))
  settle-IsStuck r s h = let (w, c, v) = settle_frame r s in (subst P (sym w) h.0, c ∙ h.1, v ∙ h.2)

  stop_frame :
      ((w : W) → (world.perform stop_vmm w).0 ≢ none)
      → (s : State W) → s.has_vmm ≡ true
      → ((stop_process world op s).1 ≡ false)
        × ((stop_process world op s).0.world ≡ (world.perform stop_vmm s.world).1)
        × ((stop_process world op s).0.report.cleanup ≡ s.report.cleanup)
        × ((stop_process world op s).0.has_vmm ≡ true)
  unfolding stop_process call add_cause
  stop_frame stubborn s h = ground (arith, stubborn s.world)

  stop-IsStuck :
      ((w : W) → (world.perform stop_vmm w).0 ≢ none)
      → (s : State W) → IsStuck s
      → ((stop_process world op s).1 ≡ false) × IsStuck (stop_process world op s).0
  stop-IsStuck stubborn s h =
      let (d, w, c, v) = stop_frame stubborn s h.2 in
      (d, (subst P (sym w) (kept.by_perform stop_vmm s.world h.0), c ∙ h.1, v))

  note_frame :
      (s : State W)
      → ((note_cancelled world op s).world ≡ s.world)
        × ((note_cancelled world op s).report.cleanup ≡ s.report.cleanup)
        × ((note_cancelled world op s).has_vmm ≡ s.has_vmm)
  unfolding note_cancelled add_cause
  note_frame s = ground arith

  note-IsStuck : (s : State W) → IsStuck s → IsStuck (note_cancelled world op s)
  note-IsStuck s h = let (w, c, v) = note_frame s in (subst P (sym w) h.0, c ∙ h.1, v ∙ h.2)

  save_frame :
      (s : State W)
      → ((save_final world op s).world ≡ (world.perform (save_report s.report) s.world).1)
        × ((save_final world op s).report.cleanup ≡ s.report.cleanup)
        × ((save_final world op s).has_vmm ≡ s.has_vmm)
  unfolding save_final add_failure add_cause
  save_frame s = ground arith

  save-IsStuck : (s : State W) → IsStuck s → IsStuck (save_final world op s)
  save-IsStuck s h =
      let (w, c, v) = save_frame s in
      (subst P (sym w) (kept.by_perform (save_report s.report) s.world h.0), c ∙ h.1, v ∙ h.2)

  kept_alive :
      (dead : Bool) (s : State W)
      → dead ≡ false
      → IsStuck s
      → IsStuck (remove_files world op dead s)
  unfolding remove_files
  kept_alive true s e h = cc
  kept_alive false s e h = h

  failing :
      (m : Run W (Unit {0})) (s : State W)
      → Keeps IsStuck m
      → IsStuck s
      → IsStuck (or_failure world op m s)
  failing m s k h = or_failure-keeps world op IsStuck IsStuck-closed m s k h

  removal-IsStuck :
      ((w : W) → (world.perform stop_vmm w).0 ≢ none)
      → (s : State W) → IsStuck s
      → IsStuck (removal world op s)
  unfolding removal closing
  removal-IsStuck stubborn s h =
      let a =
        failing (enter world op cleaning) s (enter-Keeps world op IsStuck IsStuck-calm cleaning)
          h in
      let b = shut_guest-keeps world op IsStuck IsStuck-calm IsStuck-closed _ a in
      let (dead, c) = stop-IsStuck stubborn _ b in
      kept_alive _ _ dead (
        failing (observe world op "cleanup.end") _
          (observe-Keeps world op IsStuck IsStuck-calm "cleanup.end") c)

  clean_up-IsStuck :
      ((w : W) → (world.perform stop_vmm w).0 ≢ none)
      → (s : State W) → IsStuck s
      → IsStuck (clean_up world op s)
  unfolding clean_up
  clean_up-IsStuck stubborn s h = note-IsStuck _ (
      failing (recorder_verdict world op) _ (recorder_verdict-Keeps world op IsStuck) (
        failing (call world op close_recorder) _
          (call-Keeps world op IsStuck IsStuck-calm close_recorder)
          (failing (enter world op finished) (copy_cleanup world op (removal world op s))
            (enter-Keeps world op IsStuck IsStuck-calm finished) (removal-IsStuck stubborn s h))))

  -- While every attempt to stop the VMM fails, a run that started one removes no file: what all other
  -- calls keep of the world is kept, the cleanup stays incomplete, and the exit code is 4.
  pub run_contained :
      ((w : W) → (world.perform stop_vmm w).0 ≢ none)
      → (plan : Scenario) (s : State W) → s.report.cleanup ≡ incomplete
      → P s.world
      → (execute world op plan s).1.has_vmm ≡ true
      → P (run world op plan s).world
        × ((run world op plan s).report.cleanup ≡ incomplete)
        × (exit_code (run world op plan s).report ≡ 4)
  unfolding run
  run_contained stubborn plan s c h started =
      let t = execute world op plan s in
      let held = (execute-Keeps world op IsOpening IsOpening-framed plan).at s (h, c) in
      let u = settle-IsStuck t.0 t.1 (held.0, held.1, started) in
      let final =
        save-IsStuck (clean_up world op (settle world op t))
          (clean_up-IsStuck stubborn (settle world op t) u) in
      (final.0, final.1, exit_code-incomplete (run world op plan s).report final.1)
