-- ===== src/Engine/Outcome.antt =====
-- internal/engine/types.go, addCause of run.go and validOutcomes of recover.go: the report of a run
-- and its three independent outcomes.
pub mod Laws
use Prim.Native.String.{slice, ◌++◌ as join_text}
use epoch.Base.{
  ℕ, String, len, Bool, true, false, not, ◌&&◌, ◌||◌, Option, none, some, List, [], ◌∷◌, ◌++◌, ltb,
  length, all, ℤ, if◌then◌else◌,
}
use epoch.Scenario.{Op}
use epoch.Scenario.Assertions.{Status, pass, fail, AssertionResult}

-- The statuses are strings of the source; `other_` is any other text, which a file may hold.
pub data ExecutionStatus : Type 0 where
  completed error cancelled interrupted : ExecutionStatus
  other_execution : String → ExecutionStatus

pub data AssertionStatus : Type 0 where
  passed failed not_evaluated : AssertionStatus
  other_assertion : String → AssertionStatus

pub data CleanupStatus : Type 0 where
  complete incomplete : CleanupStatus
  other_cleanup : String → CleanupStatus

pub data Stage : Type 0 where
  validating preparing booting ready running collecting cleaning finished : Stage
  other_stage : String → Stage

-- `bytes` is the length of the raw result; an error is the text of its failure.
pub record StepResult : Type 0 where
  pub id : String
  pub op : Op
  pub bytes : ℕ
  pub error : Option String

-- ReportVersion
abbrev pub report_version : String
report_version = "epoch-result/v1"

pub record Report : Type 0 where
  pub api_version : String
  pub run_id : String
  pub scenario_name : String
  pub execution : ExecutionStatus
  pub assertion : AssertionStatus
  pub cleanup : CleanupStatus
  pub stage : Stage
  pub steps : List StepResult
  pub assertions : List AssertionResult
  pub causes : List String
  pub report_saved : Bool

is_complete : CleanupStatus → Bool
is_complete complete = true
is_complete _ = false

executed_code : ExecutionStatus → AssertionStatus → ℕ
executed_code cancelled a = 130
executed_code completed failed = 1
executed_code completed passed = 0
executed_code _ _ = 3

-- Report.ExitCode
unfoldable pub exit_code : Report → ℕ
unfolding is_complete executed_code
exit_code r = if is_complete r.cleanup then executed_code r.execution r.assertion else 4

unfoldable pub is_pass : AssertionResult → Bool
is_pass a = elim a.status [ pass ↦ true | _ ↦ false ]

non_empty {ℓ} : {A : Type ℓ} → List A → Bool
non_empty [] = false
non_empty (x ∷ xs) = true

consistent : ExecutionStatus → AssertionStatus → List AssertionResult → Bool
unfolding is_pass non_empty
consistent completed passed results = non_empty results && all is_pass results
consistent e a results = true

known_execution : ExecutionStatus → Bool
known_execution (other_execution text) = false
known_execution _ = true

known_assertion : AssertionStatus → Bool
known_assertion (other_assertion text) = false
known_assertion _ = true

known_cleanup : CleanupStatus → Bool
known_cleanup (other_cleanup text) = false
known_cleanup _ = true

-- validOutcomes
unfoldable pub valid_outcomes : Report → Bool
unfolding consistent known_execution known_assertion known_cleanup
valid_outcomes r =
    consistent r.execution r.assertion r.assertions
    && (known_execution r.execution && (known_assertion r.assertion && known_cleanup r.cleanup))

-- The length and the cut count bytes; a character that the cut would split is left out whole.
truncated : String → String
truncated s = if ltb 4096 (len s) then join_text (slice s 0 4096) " [cause truncated]" else s

-- addCause on an error that is not nil
unfoldable pub add_cause : String → Report → Report
unfolding truncated
add_cause text r =
    if ltb (length r.causes) 64 then record r { causes = r.causes ++ truncated text ∷ [] } else r

demoted : ExecutionStatus → ExecutionStatus
demoted completed = error
demoted e = e

-- `addCause(r, e)` and `if r.ExecutionStatus == "COMPLETED" { r.ExecutionStatus = "ERROR" }`
unfoldable pub add_failure : String → Report → Report
unfolding add_cause demoted
add_failure text r = let s = add_cause text r in record s { execution = demoted s.execution }
