-- ===== src/Engine/Run/Steps/Keeps.antt =====
-- Lemmas on framed invariants: the loop over the steps of `execute` (internal/engine/run.go).
use epoch.Base.{ℕ, String, Option, none, some, List, [], ◌∷◌, Result, ok, err}
use epoch.Scenario.{Step, Assertion}
use epoch.Scenario.Assertions.{AssertionResult}
use epoch.Engine.Outcome.{StepResult}
use epoch.Engine.StepCall.{StepError, Observation}
use epoch.Engine.Runtime.{Operator}
use epoch.Engine.Run.{World, State, Run}
use epoch.Engine.Run.Frame.{Keeps, IsFramed, Keeps-then, keeps_rules}
use epoch.Engine.Run.Boot.Keeps.{
  attempt-Keeps, ignore-Keeps, note-Keeps, enter-Keeps, observe-Keeps,
}
use epoch.Engine.Run.Steps.{
  fail_if, check_context, append_step, append_assertions, charge, collect, failed_step,
  completed_step, call_step, catch, concluded, run_step, run_steps, check_recorder, conclude,
}

module _ {W : Type 0} (world : World W) (op : Operator) (I : State W → Type 0)
    (framed : IsFramed world I) where
  fail_if-Keeps : (e : Option String) → Keeps I (fail_if world op e)
  unfolding fail_if
  fail_if-Keeps none = record { at = λ s h. h }
  fail_if-Keeps (some e) = record { at = λ s h. h }

  check_context-Keeps : Keeps I (check_context world op)
  unfolding check_context
  check_context-Keeps = record { at = λ s h. (fail_if-Keeps _).at s h }

  check_recorder-Keeps : Keeps I (check_recorder world op)
  unfolding check_recorder
  check_recorder-Keeps = record { at = λ s h. (fail_if-Keeps _).at s h }

  append_step-Keeps : (r : StepResult) → Keeps I (append_step world op r)
  unfolding append_step
  append_step-Keeps r = record { at = λ s h. framed.by_result _ s h }

  append_assertions-Keeps : (rs : List AssertionResult) → Keeps I (append_assertions world op rs)
  unfolding append_assertions
  append_assertions-Keeps rs = record { at = λ s h. framed.by_verdict _ s h }

  charge-Keeps : (n : ℕ) → Keeps I (charge world op n)
  unfolding charge
  charge-Keeps n = record { at = λ s h. framed.by_bytes _ s h }

  collect-Keeps : (rs : List AssertionResult) → Keeps I (collect world op rs)
  unfolding collect
  collect-Keeps [] = record { at = λ s h. h }
  collect-Keeps (r ∷ rest) =
      let later = collect-Keeps rest in
      record {
        at = λ s h.
            (Keeps-then I _ _ (charge-Keeps _)
                (Keeps-then I _ _ (append_assertions-Keeps _) later)).at
              s h;
      }

  call_step-Keeps : (x : Step) → Keeps I (call_step world op x)
  unfolding call_step
  call_step-Keeps x = record { at = λ s h. framed.by_step x s h }

  catch-Keeps : (m : Run W (Unit {0})) → Keeps I m → Keeps I (catch world op m)
  unfolding catch
  catch-Keeps m k = record { at = λ s h. k.at s h }

  failed_step-Keeps : (x : Step) (n : ℕ) (e : String) → Keeps I (failed_step world op x n e)
  unfolding failed_step
  failed_step-Keeps x n e =
      search (keeps_rules, append_step-Keeps, ignore-Keeps world op I framed.calm) depth 20

  completed_step-Keeps :
      (l : List Assertion) (x : Step) (v : Observation) → Keeps I (completed_step world op l x v)
  unfolding completed_step
  completed_step-Keeps l x v =
      search
        (
          keeps_rules,
          append_step-Keeps,
          charge-Keeps,
          attempt-Keeps world op I framed.calm,
          note-Keeps world op I framed.calm,
          collect-Keeps,
          append_assertions-Keeps,
          fail_if-Keeps,
        )
        depth 20

  concluded-Keeps :
      (l : List Assertion) (x : Step) (e : Option String) (r : Result StepError Observation)
      → Keeps I (concluded world op l x e r)
  unfolding concluded
  concluded-Keeps l x (some e) r = failed_step-Keeps x _ e
  concluded-Keeps l x none (ok v) = completed_step-Keeps l x v
  concluded-Keeps l x none (err e) = failed_step-Keeps x 0 "execution"

  run_step-Keeps : (l : List Assertion) (x : Step) → Keeps I (run_step world op l x)
  unfolding run_step
  run_step-Keeps l x =
      search
        (
          keeps_rules,
          check_context-Keeps,
          observe-Keeps world op I framed.calm,
          note-Keeps world op I framed.calm,
          call_step-Keeps,
          catch-Keeps,
          concluded-Keeps,
        )
        depth 20

  pub run_steps-Keeps : (l : List Assertion) (xs : List Step) → Keeps I (run_steps world op l xs)
  unfolding run_steps
  run_steps-Keeps l [] = record { at = λ s h. h }
  run_steps-Keeps l (x ∷ rest) =
      let later = run_steps-Keeps l rest in
      record { at = λ s h. (Keeps-then I _ _ (run_step-Keeps l x) later).at s h }

  pub conclude-Keeps : Keeps I (conclude world op)
  unfolding conclude
  conclude-Keeps =
      search
        (
          keeps_rules,
          observe-Keeps world op I framed.calm,
          check_context-Keeps,
          enter-Keeps world op I framed.calm,
          check_recorder-Keeps,
        )
        depth 20
