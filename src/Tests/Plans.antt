-- ===== src/Tests/Plans.antt =====
-- A plan with a clock.set, a service and an action, and the theorems on scenarios for it.
use epoch.Base.{
  byte_length, ◌*◌, ◌^◌, String, true, false, Option, none, some, List, [], ◌∷◌, ◌++◌, ◌≡◌, inl,
  refl, ℤ, pos, str_eq, if◌then◌else◌, ok, All, map, IsDistinct, arith, has_key, member, insert,
  delete, lookup,
}
use epoch.Json.{num}
use epoch.Scenario.{
  clock_set, action_exec, service_start, service_stop, eq, Step, Assertion, Scenario,
  max_timeout_ms,
}
use epoch.Scenario.StepRules.{TimeText, marshal_keys, in_interval, validate_step}
use epoch.Scenario.StepRules.Laws.{IsSound, IsLimit}
use epoch.Scenario.Names.{is_timestamp, is_identifier, is_workload_identifier}
use epoch.Scenario.Pointer.{available_pointer, pointer_tokens, split_slash}
use epoch.Scenario.Plan.{validate}
use epoch.Scenario.Plan.Walk.{advance}
use epoch.Scenario.Plan.Walk.Order.{IsInOrder}
use epoch.Scenario.Plan.Sound.{validate-IsInOrder, validate-IsSound}
use epoch.Guest.Server.{request_timeout}
use epoch.Guest.Server.Limits.{request_timeout-validate}

abbrev pub stamp : String
stamp = "2026-01-01T00:00:00Z"

abbrev pub noon : ℤ
noon = pos (1767225600 * 10 ^ 9)

abbrev read_stamp : String → Option ℤ
read_stamp s = if str_eq s stamp then some noon else none

pub read_stamp-lem : (t : ℤ) (s : String) → read_stamp s ≡ some t → some noon ≡ some t
read_stamp-lem t s h = ground arith

pub stamp-is_timestamp : is_timestamp stamp ≡ true
unfolding is_timestamp
stamp-is_timestamp = refl

-- A clock that knows one timestamp.
abbrev pub one_time : TimeText
one_time = record {
  parse = read_stamp;
  format = λ t. stamp;
  parse-format = λ t inside s h. read_stamp-lem t s h;
  format-is_timestamp = λ t inside s h. stamp-is_timestamp;
}

abbrev pub blank : Step
blank = record {
  id = "a";
  op = clock_set;
  at = "";
  action = "";
  service = "";
  input = none;
  timeout_ms = pos 0;
  duration_ms = pos 0;
  allow_live = false;
  tolerance_ms = pos 0;
  expected_exit_code = none;
  present = [];
}

abbrev pub set_step : Step
set_step = record blank { id = "set"; at = stamp }

abbrev pub start_step : Step
start_step = record blank { id = "start"; op = service_start; service = "web" }

abbrev pub act_step : Step
act_step = record blank {
  id = "act";
  op = action_exec;
  action = "probe";
  timeout_ms = pos 700;
  expected_exit_code = some (pos 0);
}

abbrev pub stop_step : Step
stop_step = record blank { id = "stop"; op = service_stop; service = "web" }

abbrev pub exit_is_zero : Assertion
exit_is_zero = record {
  id = "zero";
  step = "act";
  pointer = "/exit_code";
  op = eq;
  value = some (record { size = 1; decoded = some (num "0") });
}

abbrev pub plan : Scenario
plan = record {
  api_version = "epoch/v1alpha1";
  name = "demo";
  image = "base";
  workload = "clock";
  resources = record { vcpu_count = pos 0; memory_mib = pos 0 };
  timeout_ms = pos 0;
  boot_timeout_ms = pos 0;
  steps = set_step ∷ start_step ∷ act_step ∷ stop_step ∷ [];
  assertions = exit_is_zero ∷ [];
}

abbrev pub accepted : Scenario
accepted = record plan {
  resources = record { vcpu_count = pos 1; memory_mib = pos 512 };
  timeout_ms = pos 120000;
  boot_timeout_ms = pos 30000;
  steps =
      record set_step { tolerance_ms = pos 1000 }
      ∷ record start_step { timeout_ms = pos 5000 }
      ∷ act_step
      ∷ record stop_step { timeout_ms = pos 5000 }
      ∷ [];
}

pub plan-accepted : validate one_time plan ≡ ok accepted
unfolding validate has_key is_identifier is_workload_identifier marshal_keys member insert delete
    lookup pointer_tokens byte_length split_slash validate_step is_timestamp in_interval advance
    available_pointer
plan-accepted = refl

abbrev before_act : List Step
before_act =
    record set_step { tolerance_ms = pos 1000 } ∷ record start_step { timeout_ms = pos 5000 } ∷ []

abbrev before_stop : List Step
before_stop = before_act ++ act_step ∷ []

validate-IsInOrder_example :
    IsInOrder before_stop service_stop (record stop_step { timeout_ms = pos 5000 })
validate-IsInOrder_example =
    validate-IsInOrder one_time plan accepted before_stop
      (record stop_step { timeout_ms = pos 5000 }) [] plan-accepted refl

validate-IsSound_example :
    All (λ step. IsSound one_time (pos 120000) step.op step) accepted.steps
    × IsLimit max_timeout_ms (pos 120000)
    × IsDistinct (map (λ step. step.id) accepted.steps)
validate-IsSound_example = validate-IsSound one_time plan accepted plan-accepted

request_timeout-validate_example : request_timeout (pos 700) ≡ ok (pos 700)
request_timeout-validate_example =
    request_timeout-validate one_time plan accepted before_act act_step
      (record stop_step { timeout_ms = pos 5000 } ∷ []) plan-accepted refl (inl refl)
