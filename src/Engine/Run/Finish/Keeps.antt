-- ===== src/Engine/Run/Finish/Keeps.antt =====
-- Lemmas on framed invariants: `execute` and the cleanup actions of `run` (internal/engine/run.go).
use epoch.Base.{Bool, true, false, if◌then◌else◌, String, none, some, Result, ok, err}
use epoch.Scenario.{Scenario}
use epoch.Engine.Outcome.{add_failure}
use epoch.Engine.Runtime.{Operator}
use epoch.Engine.Run.{Call, close_guest, shutdown_guest, World, State, Run}
use epoch.Engine.Run.Frame.{Keeps, IsCalm, IsFramed, keeps_rules}
use epoch.Engine.Run.Boot.Keeps.{boot-Keeps}
use epoch.Engine.Run.Steps.Keeps.{run_steps-Keeps, conclude-Keeps}
use epoch.Engine.Run.Finish.{
  execute, or_failure, error_of, on_report, call, recorder_verdict, shut_guest,
}

module _ {W : Type 0} (world : World W) (op : Operator) (I : State W → Type 0) where
  pub execute-Keeps : IsFramed world I → (plan : Scenario) → Keeps I (execute world op plan)
  unfolding execute
  execute-Keeps framed plan = search (
    keeps_rules,
    boot-Keeps world op I framed,
    run_steps-Keeps world op I framed plan.assertions plan.steps,
    conclude-Keeps world op I framed,
  )

  pub call-Keeps : IsCalm world I → (c : Call) → Keeps I (call world op c)
  unfolding call
  call-Keeps calm c = record { at = λ s h. calm.by_call c s h }

  pub recorder_verdict-Keeps : Keeps I (recorder_verdict world op)
  unfolding recorder_verdict
  recorder_verdict-Keeps = record { at = λ s h. h }

  pub or_failure-keeps :
      ((e : String) (t : State W) → I t → I (record t { report = add_failure e t.report }))
      → (m : Run W (Unit {0})) (s : State W) → Keeps I m
      → I s
      → I (or_failure world op m s)
  unfolding or_failure
  or_failure-keeps closed m s k h = let (r, t) = m s in go r t (k.at s h)
    where
      go :
          (r : Result String (Unit {0})) (t : State W)
          → I t
          → I (elim (error_of r) [ none ↦ t | some e ↦ on_report world op (add_failure e) t ])
      go (ok _) t h = h
      go (err e) t h = closed e t h

  pub if-keeps : (b : Bool) (s t : State W) → I s → I t → I (if b then s else t)
  if-keeps true s t hs ht = hs
  if-keeps false s t hs ht = ht

  pub shut_guest-keeps :
      IsCalm world I
      → ((e : String) (t : State W) → I t → I (record t { report = add_failure e t.report }))
      → (s : State W) → I s
      → I (shut_guest world op s)
  unfolding shut_guest
  shut_guest-keeps calm closed s h =
      if-keeps s.has_guest _ s
        ((call-Keeps calm close_guest).at _ (
          or_failure-keeps closed (call world op shutdown_guest) s (call-Keeps calm shutdown_guest)
            h))
        h
