-- ===== src/Engine/Run/Boot/Keeps.antt =====
-- Lemmas on framed invariants: the closures of `run` down to the booted guest (internal/engine/run.go).
use epoch.Base.{String}
use epoch.Engine.HostClock.{HostObservation}
use epoch.Engine.Outcome.{Stage}
use epoch.Engine.Runtime.{Operator}
use epoch.Engine.Run.{Call, write_event, World, State}
use epoch.Engine.Run.Frame.{Keeps, IsCalm, IsFramed, Keeps-then, keeps_rules}
use epoch.Engine.Run.Boot.{
  attempt, ignore, note, enter, sample, compare_with_last, observe, note_vmm, note_guest, persist,
  boot,
}

module _ {W : Type 0} (world : World W) (op : Operator) (I : State W → Type 0)
    (calm : IsCalm world I) where
  pub attempt-Keeps : (c : Call) → Keeps I (attempt world op c)
  unfolding attempt
  attempt-Keeps c = record { at = λ s h. calm.by_call c s h }

  pub ignore-Keeps : (c : Call) → Keeps I (ignore world op c)
  unfolding ignore
  ignore-Keeps c = record { at = λ s h. calm.by_call c s h }

  pub note-Keeps : (kind : String) → Keeps I (note world op kind)
  unfolding note
  note-Keeps kind = record { at = λ s h. (attempt-Keeps (write_event s.report.stage kind)).at s h }

  pub enter-Keeps : (g : Stage) → Keeps I (enter world op g)
  unfolding enter
  enter-Keeps g = record {
    at = λ s h. (Keeps-then I _ _ (attempt-Keeps _) (attempt-Keeps _)).at _ (calm.by_stage g s h);
  }

  sample-Keeps : Keeps I (sample world op)
  unfolding sample
  sample-Keeps = record { at = λ s h. calm.by_sample s h }

  compare-Keeps : (v : HostObservation) → Keeps I (compare_with_last world op v)
  unfolding compare_with_last
  compare-Keeps v = record { at = λ s h. calm.by_host _ s h }

  pub observe-Keeps : (label : String) → Keeps I (observe world op label)
  unfolding observe
  observe-Keeps label = search (keeps_rules, sample-Keeps, attempt-Keeps, compare-Keeps)

module _ {W : Type 0} (world : World W) (op : Operator) (I : State W → Type 0)
    (framed : IsFramed world I) where
  note_vmm-Keeps : Keeps I (note_vmm world op)
  unfolding note_vmm
  note_vmm-Keeps = record { at = λ s h. framed.by_vmm s h }

  note_guest-Keeps : Keeps I (note_guest world op)
  unfolding note_guest
  note_guest-Keeps = record { at = λ s h. framed.by_guest s h }

  persist-Keeps : Keeps I (persist world op)
  unfolding persist
  persist-Keeps = record { at = λ s h. (attempt-Keeps world op I framed.calm _).at s h }

  pub boot-Keeps : Keeps I (boot world op)
  unfolding boot
  boot-Keeps =
      search
        (
          keeps_rules,
          enter-Keeps world op I framed.calm,
          attempt-Keeps world op I framed.calm,
          observe-Keeps world op I framed.calm,
          note_vmm-Keeps,
          note_guest-Keeps,
          persist-Keeps,
        )
        depth 40
