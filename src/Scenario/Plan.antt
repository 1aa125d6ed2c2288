-- ===== src/Scenario/Plan.antt =====
-- Scenario.Validate of internal/scenario/scenario.go: the checks over the whole plan.
pub mod Walk
pub mod Sound
use epoch.Base.{
  ℕ, String, Bool, true, false, not, ◌&&◌, ◌||◌, Option, none, some, List, [], ◌∷◌, ltb, leb, ℤ,
  pos, ltb_ℤ, leb_ℤ, eqb_ℤ, ◌+ℤ◌, wrap64, Result, ok, err, ◌>>=◌, ◌>>◌, guard, lookup, has_key,
  member, insert, delete, length, str_eq, if◌then◌else◌,
}
use epoch.Json.{Json, num, Raw}
use epoch.Scenario.{
  Op, clock_read, clock_set, action_exec, service_start, service_stop, wait, other_op, Comparison,
  exists, absent, eq, ne, gt, gte, lt, lte, other_comparison, Resources, Step, Assertion, Scenario,
  Refusal, max_steps, max_assertions, max_timeout_ms, unsupported_api_version, unsafe_identifier,
  dotted_identifier, bad_resources, bad_timeout_interval, bad_step_count, bad_assertion_count,
  bad_step_id, duplicate_step_id, waits_exceed_budget, bad_assertion_id, unknown_step,
  wait_has_no_observation, value_not_accepted, value_required, bad_value, number_required,
  unsupported_comparison,
}
use epoch.Scenario.Names.{is_identifier, is_workload_identifier}
use epoch.Scenario.StepRules.{TimeText, validate_step}
use epoch.Scenario.Pointer.{available_pointer}
use Walk.{Progress, start, advance}

abbrev pub api_version_text : String
api_version_text = "epoch/v1alpha1"

same_resources : Resources → Resources → Bool
same_resources a b = eqb_ℤ a.vcpu_count b.vcpu_count && eqb_ℤ a.memory_mib b.memory_mib

default_resources : Resources → Resources
unfolding same_resources
default_resources r =
    if same_resources r (record { vcpu_count = pos 0; memory_mib = pos 0 })
    then record { vcpu_count = pos 1; memory_mib = pos 512 }
    else r

valid_resources : Resources → Bool
valid_resources r =
    leb_ℤ (pos 1) r.vcpu_count
    && (leb_ℤ r.vcpu_count (pos 2)
        && (leb_ℤ (pos 128) r.memory_mib && leb_ℤ r.memory_mib (pos 2048)))

default_ms : ℤ → ℤ → ℤ
default_ms d v = if eqb_ℤ v (pos 0) then d else v

valid_interval : ℤ → ℤ → Bool
valid_interval timeout boot =
    leb_ℤ (pos 1) timeout
    && (leb_ℤ timeout max_timeout_ms && (leb_ℤ (pos 1) boot && leb_ℤ boot timeout))

between_one_and : ℕ → ℕ → Bool
between_one_and n k = leb 1 k && leb k n

-- The checks and defaults above the loops.
head_rules : Scenario → Result Refusal Scenario
unfolding default_resources valid_resources default_ms valid_interval between_one_and
head_rules s = do
  guard (str_eq s.api_version api_version_text) unsupported_api_version
  guard (is_identifier s.name && (is_identifier s.image && is_identifier s.workload))
      unsafe_identifier
  guard (is_workload_identifier s.image && is_workload_identifier s.workload) dotted_identifier
  let resources = default_resources s.resources
  guard (valid_resources resources) bad_resources
  let timeout = default_ms (pos 120000) s.timeout_ms
  let boot = default_ms (pos 30000) s.boot_timeout_ms
  guard (valid_interval timeout boot) bad_timeout_interval
  guard (between_one_and max_steps (length s.steps)) bad_step_count
  guard (between_one_and max_assertions (length s.assertions)) bad_assertion_count
  ok (record s { resources = resources; timeout_ms = timeout; boot_timeout_ms = boot })

-- One round of the loop over the steps: the step with its defaults, and the progress behind it.
validate_in_order : TimeText → ℤ → Progress → Step → Result Refusal (Step × Progress)
validate_in_order time timeout p s = do
  guard (is_identifier s.id) bad_step_id
  guard (not (has_key s.id p.steps)) duplicate_step_id
  t ← validate_step time timeout s
  q ← advance t p
  ok (t, q)

unfoldable pub validate_steps :
    TimeText → ℤ → Progress → List Step → Result Refusal (List Step × Progress)
unfolding validate_in_order
validate_steps time timeout p [] = ok ([], p)
validate_steps time timeout p (s ∷ rest) = do
  (t, q) ← validate_in_order time timeout p s
  (ts, r) ← validate_steps time timeout q rest
  ok (t ∷ ts, r)

is_number : Json → Bool
is_number (num literal) = true
is_number _ = false

needs_number : Comparison → Bool
needs_number eq = false
needs_number ne = false
needs_number _ = true

operand_rules : Comparison → Raw → Result Refusal (Unit {0})
unfolding needs_number is_number
operand_rules op raw = elim raw.decoded [
  | none ↦ err bad_value
  | some v ↦ guard (not (needs_number op) || is_number v) number_required
]

with_value : Comparison → Option Raw → Result Refusal (Unit {0})
unfolding operand_rules
with_value op none = err value_required
with_value op (some raw) = operand_rules op raw

without_value : Option Raw → Result Refusal (Unit {0})
without_value none = ok tt
without_value (some raw) = err value_not_accepted

-- The last switch of the loop over the assertions.
value_rules : Comparison → Option Raw → Result Refusal (Unit {0})
unfolding with_value without_value
value_rules exists v = without_value v
value_rules absent v = without_value v
value_rules (other_comparison text) v = err unsupported_comparison
value_rules op v = with_value op v

is_wait : Op → Bool
is_wait wait = true
is_wait _ = false

about_step : Assertion → Option Step → Result Refusal (Unit {0})
unfolding is_wait
about_step a none = err unknown_step
about_step a (some s) = do
  guard (not (is_wait s.op)) wait_has_no_observation
  available_pointer s.op a.pointer

validate_assertion : List (String × Step) → List String → Assertion → Result Refusal (Unit {0})
unfolding about_step value_rules
validate_assertion steps seen a = do
  guard (is_identifier a.id && not (member a.id seen)) bad_assertion_id
  about_step a (lookup a.step steps)
  value_rules a.op a.value

unfoldable pub validate_assertions :
    List (String × Step) → List String → List Assertion → Result Refusal (Unit {0})
unfolding validate_assertion
validate_assertions steps seen [] = ok tt
validate_assertions steps seen (a ∷ rest) = do
  validate_assertion steps seen a
  validate_assertions steps (a.id ∷ seen) rest

unfoldable pub validate : TimeText → Scenario → Result Refusal Scenario
unfolding head_rules validate_steps validate_assertions start
validate time s = do
  t ← head_rules s
  (steps, p) ← validate_steps time t.timeout_ms start t.steps
  guard (ltb_ℤ p.waits t.timeout_ms) waits_exceed_budget
  validate_assertions p.steps [] t.assertions
  ok (record t { steps = steps })
