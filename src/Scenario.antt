-- ===== src/Scenario.antt =====
-- internal/scenario/scenario.go: the declarations of a temporal experiment.
pub mod Names
pub mod StepRules
pub mod Pointer
pub mod Assertions
pub mod Plan
use epoch.Base.{ℕ, ◌*◌, ◌+◌, String, Bool, Option, List, ℤ, pos}
use epoch.Json.{Raw}

abbrev pub max_input_size : ℕ
max_input_size = 64 * 1024

abbrev pub max_steps : ℕ
max_steps = 128

abbrev pub max_assertions : ℕ
max_assertions = 128

abbrev pub max_timeout_ms : ℤ
max_timeout_ms = pos 600000

-- Step.Op; every text that the switches do not name is `other_op`.
pub data Op : Type 0 where
  clock_read clock_set action_exec service_start service_stop wait : Op
  other_op : String → Op

-- Assertion.Op
pub data Comparison : Type 0 where
  exists absent eq ne gt gte lt lte : Comparison
  other_comparison : String → Comparison

pub record Resources : Type 0 where
  pub vcpu_count : ℤ
  pub memory_mib : ℤ

-- `present` is the decoded object of the step, by field name; an empty `input` is `none`.
pub record Step : Type 0 where
  pub id : String
  pub op : Op
  pub at : String
  pub action : String
  pub service : String
  pub input : Option Raw
  pub timeout_ms : ℤ
  pub duration_ms : ℤ
  pub allow_live : Bool
  pub tolerance_ms : ℤ
  pub expected_exit_code : Option ℤ
  pub present : List (String × Raw)

pub record Assertion : Type 0 where
  pub id : String
  pub step : String
  pub pointer : String
  pub op : Comparison
  pub value : Option Raw

pub record Scenario : Type 0 where
  pub api_version : String
  pub name : String
  pub image : String
  pub workload : String
  pub resources : Resources
  pub timeout_ms : ℤ
  pub boot_timeout_ms : ℤ
  pub steps : List Step
  pub assertions : List Assertion

-- The refusals, one for each error text of the file.
pub data Refusal : Type 0 where
  unsupported_api_version unsafe_identifier dotted_identifier bad_resources : Refusal
  bad_timeout_interval bad_step_count bad_assertion_count : Refusal
  bad_step_id duplicate_step_id live_clock_not_allowed no_clock_barrier : Refusal
  service_already_running too_many_services service_not_started waits_exceed_budget : Refusal
  unsupported_operation field_not_allowed not_positive input_too_large bad_input : Refusal
  bad_timestamp time_out_of_range tolerance_too_large bad_action bad_exit_code : Refusal
  bad_service bad_duration timeout_does_not_fit : Refusal
  bad_assertion_id unknown_step wait_has_no_observation unavailable_pointer : Refusal
  value_not_accepted value_required bad_value number_required unsupported_comparison : Refusal
  bad_pointer bad_array_index observation_unavailable malformed_observation : Refusal
  pointer_unavailable bad_number : Refusal

-- The texts of the operations, as the wire and the assertions name them.
unfoldable pub op_name : Op → String
op_name clock_read = "clock.read"
op_name clock_set = "clock.set"
op_name action_exec = "action.exec"
op_name service_start = "service.start"
op_name service_stop = "service.stop"
op_name wait = "wait"
op_name (other_op text) = text
