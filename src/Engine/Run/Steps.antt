-- ===== src/Engine/Run/Steps.antt =====
-- The loop over the steps in the closure `execute` of internal/engine/run.go.
pub mod Keeps
use Prim.Native.String.{◌++◌ as join_text}
use epoch.Base.{
  ℕ, ◌+◌, ◌^◌, String, Bool, true, false, Option, none, some, List, [], ◌∷◌, ◌++◌, ltb, ℤ, pos,
  eqb_ℤ, Result, ok, err, str_eq, if◌then◌else◌,
}
use epoch.Base.Exec.{raise, ◌>>=◌, ◌>>◌}
use epoch.Json.{Json, num}
use epoch.Scenario.{Step, Assertion, Refusal}
use epoch.Scenario.Assertions.{Status, pass, fail, AssertionResult, evaluate}
use epoch.Engine.Outcome.{collecting, StepResult}
use epoch.Engine.StepCall.{StepError, call_failed, Observation, action_run, execute_step}
use epoch.Engine.Runtime.{Operator}
use epoch.Engine.Run.{write_clocks, write_action, World, Run}
use epoch.Engine.Run.Boot.{attempt, ignore, note, enter, observe}

abbrev pub report_budget : ℕ
report_budget = 2 ^ 20

error_text : StepError → String
error_text (call_failed text) = text
error_text _ = "execution"

-- errors.Join of what the step and the observation after it returned
unfoldable pub joined : Option String → Option String → Option String
joined none e = e
joined (some d) none = some d
joined (some d) (some e) = some (join_text d (join_text "\n" e))

-- The assertions on one step, in their order.
unfoldable pub selected : String → List Assertion → List Assertion
selected id [] = []
selected id (a ∷ rest) =
    let later = selected id rest in if str_eq a.step id then a ∷ later else later

exit_code_of : Observation → Option ℤ
exit_code_of (action_run v) = some v.exit_code
exit_code_of _ = none

wanted : Option ℤ → ℤ
wanted none = pos 0
wanted (some n) = n

status_of : Bool → Status
status_of true = pass
status_of false = fail

-- The assertion that every action has: its exit code is the expected one, or 0.
unfoldable pub exit_assertion : (ℤ → String) → Step → Observation → List AssertionResult
unfolding exit_code_of wanted status_of
exit_assertion format_int s v = elim (exit_code_of v) [
  | none ↦ []
  | some code ↦
      record {
        id = join_text "auto:" (join_text s.id ":exit_code");
        step = s.id;
        status = status_of (eqb_ℤ code (wanted s.expected_exit_code));
        actual = some (num (format_int code));
        failed = none;
      }
      ∷ []
]

refusal_text : Option Refusal → Option String
refusal_text none = none
refusal_text (some e) = some "assertion error"

text_of {ℓ} : {A : Type ℓ} → Result String A → Option String
text_of (ok a) = none
text_of (err e) = some e

module _ {W : Type 0} (world : World W) (op : Operator) where
  fail_if : Option String → Run W (Unit {0})
  fail_if none s = (ok tt, s)
  fail_if (some e) s = (err e, s)

  check_context : Run W (Unit {0})
  unfolding fail_if
  check_context s = fail_if (world.context_error s.world) s

  append_step : StepResult → Run W (Unit {0})
  append_step r s =
      (ok tt, record s { report = record s.report { steps = s.report.steps ++ r ∷ [] } })

  append_assertions : List AssertionResult → Run W (Unit {0})
  append_assertions rs s =
      (ok tt, record s { report = record s.report { assertions = s.report.assertions ++ rs } })

  -- The bytes of observations grow, and stay within 1 MiB or stop the run.
  charge : ℕ → Run W (Unit {0})
  charge n s =
      let total = s.bytes + n in
      (
        if ltb report_budget total then err "combined step result quota exceeded" else ok tt,
        record s { bytes = total },
      )

  actual_size : Option Json → ℕ
  actual_size none = 0
  actual_size (some v) = world.json_size v

  -- The loop over the results of Evaluate.
  unfoldable pub collect : List AssertionResult → Run W (Unit {0})
  unfolding charge actual_size append_assertions
  collect [] s = (ok tt, s)
  collect (r ∷ rest) s =
      (do charge (actual_size r.actual); append_assertions (r ∷ []); collect rest) s

  -- A step that failed, or whose observation of the host behind it failed: the result that it has is
  -- kept in the evidence, and the loop stops.
  failed_step : Step → ℕ → String → Run W (Unit {0})
  unfolding append_step ignore
  failed_step step bytes e =
      let result : StepResult = record {
        id = step.id;
        op = step.op;
        bytes = bytes;
        error = some e;
      } in
      do
        append_step result
        ignore world op (write_action result)
        ignore world op (write_clocks step.id)
        raise e

  -- What comes behind a step that succeeded.
  completed_step : List Assertion → Step → Observation → Run W (Unit {0})
  unfolding append_step charge attempt note collect append_assertions fail_if exit_assertion
      refusal_text
  completed_step assertions step v =
      let raw = world.marshal v in
      let result : StepResult = record {
        id = step.id;
        op = step.op;
        bytes = raw.size;
        error = none;
      } in
      let verdicts = evaluate ((step.id, raw) ∷ []) (selected step.id assertions) in
      do
        charge raw.size
        append_step result
        attempt world op (write_action result)
        attempt world op (write_clocks step.id)
        collect verdicts.0
        fail_if (refusal_text verdicts.1)
        append_assertions (exit_assertion world.format_int step v)
        note world op "step.complete"

  -- The end of executeStep: json.Marshal of the result.
  marshalled : Result StepError Observation → Result StepError Observation
  marshalled (err e) = err e
  marshalled (ok v) = elim (world.marshal_error v) [ none ↦ ok v | some e ↦ err (call_failed e) ]

  call_step : Step → Run W (Result StepError Observation)
  unfolding execute_step marshalled
  call_step step s =
      let (r, w) = execute_step world.time world.guest step s.world in
      (ok (marshalled r), record s { world = w })

  catch : Run W (Unit {0}) → Run W (Option String)
  unfolding text_of
  catch m s = let (r, s') = m s in (ok (text_of r), s')

  step_text : Result StepError Observation → Option String
  unfolding error_text
  step_text (ok v) = none
  step_text (err e) = some (error_text e)

  result_size : Result StepError Observation → ℕ
  result_size (ok v) = (world.marshal v).size
  result_size (err e) = 0

  concluded :
      List Assertion → Step → Option String → Result StepError Observation → Run W (Unit {0})
  unfolding failed_step completed_step result_size
  concluded assertions step (some e) r = failed_step step (result_size r) e
  concluded assertions step none (ok v) = completed_step assertions step v
  concluded assertions step none (err e) = failed_step step 0 "execution"

  -- One round of the loop.
  unfoldable pub run_step : List Assertion → Step → Run W (Unit {0})
  unfolding check_context observe note call_step catch step_text joined concluded
  run_step assertions step = do
    check_context
    observe world op (join_text step.id ".before")
    note world op "step.begin"
    r ← call_step step
    after ← catch (observe world op (join_text step.id ".after"))
    concluded assertions step (joined (step_text r) after) r

  unfoldable pub run_steps : List Assertion → List Step → Run W (Unit {0})
  run_steps assertions [] s = (ok tt, s)
  run_steps assertions (step ∷ rest) s = (do run_step assertions step; run_steps assertions rest) s

  -- rec.Err()
  check_recorder : Run W (Unit {0})
  unfolding fail_if
  check_recorder s = fail_if (world.recorder_error s.world) s

  -- The end of `execute`, behind the loop.
  unfoldable pub conclude : Run W (Unit {0})
  unfolding observe check_context enter check_recorder
  conclude = do observe world op "run.end"; check_context; enter world op collecting; check_recorder
