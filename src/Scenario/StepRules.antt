-- ===== src/Scenario/StepRules.antt =====
-- Step.validate of internal/scenario/scenario.go: the rules for one step, and its defaults.
pub mod Laws
use epoch.Base.{
  ℕ, ◌*◌, ◌^◌, String, Bool, true, false, not, ◌&&◌, ◌||◌, Option, none, some, List, [], ◌∷◌, ◌++◌,
  map, ltb, ℤ, pos, ltb_ℤ, leb_ℤ, eqb_ℤ, Result, ok, err, ◌>>=◌, ◌>>◌, guard, lookup, member, all,
  str_eq, if◌then◌else◌, ◌≡◌, ◌≤ℤ◌, ◌<ℤ◌,
}
use epoch.Json.{Raw, unmarshal_int64}
use epoch.Scenario.{
  Op, clock_read, clock_set, action_exec, service_start, service_stop, wait, other_op, Step,
  Refusal, max_input_size, unsupported_operation, field_not_allowed, not_positive, input_too_large,
  bad_input, bad_timestamp, time_out_of_range, tolerance_too_large, bad_action, bad_exit_code,
  bad_service, bad_duration, timeout_does_not_fit,
}
use epoch.Scenario.Names.{is_workload_identifier, is_timestamp}

-- The supported interval, 1990-01-01 to 2100-01-01 UTC, in nanoseconds of the Unix epoch.
abbrev pub first_instant : ℤ
first_instant = pos (631152000 * 10 ^ 9)

abbrev pub end_instant : ℤ
end_instant = pos (4102444800 * 10 ^ 9)

unfoldable pub in_interval : ℤ → Bool
in_interval t = leb_ℤ first_instant t && ltb_ℤ t end_instant

-- time.Parse and UTC().Format at time.RFC3339Nano, as the source relies on them: an instant of the
-- interval is printed as a timestamp that parses to the same instant.
pub record TimeText : Type 0 where
  pub parse : String → Option ℤ
  pub format : ℤ → String
  pub parse-format :
      (t : ℤ) → in_interval t ≡ true → (s : String) → parse s ≡ some t → parse (format t) ≡ some t
  pub format-is_timestamp :
      (t : ℤ)
      → in_interval t ≡ true
      → (s : String) → parse s ≡ some t
      → is_timestamp (format t) ≡ true

-- The fields that an operation takes besides `id` and `op`; `none` for an unsupported operation.
unfoldable pub fields_of : Op → Option (List String)
fields_of clock_read = some []
fields_of clock_set = some ("at" ∷ "allow_live" ∷ "tolerance_ms" ∷ [])
fields_of action_exec = some ("action" ∷ "input" ∷ "timeout_ms" ∷ "expected_exit_code" ∷ [])
fields_of service_start = some ("service" ∷ "input" ∷ "timeout_ms" ∷ [])
fields_of service_stop = some ("service" ∷ "timeout_ms" ∷ [])
fields_of wait = some ("duration_ms" ∷ [])
fields_of (other_op text) = none

has_timeout : Op → Bool
has_timeout action_exec = true
has_timeout service_start = true
has_timeout service_stop = true
has_timeout _ = false

key_if : Bool → String → List String
key_if true k = k ∷ []
key_if false k = []

is_some {ℓ} : {A : Type ℓ} → Option A → Bool
is_some none = false
is_some (some _) = true

-- The keys of json.Marshal(s) besides `id` and `op`: `omitempty` leaves out zero values.
unfoldable pub marshal_keys : Step → List String
unfolding key_if is_some
marshal_keys s =
    key_if (not (str_eq s.at "")) "at"
    ++ (key_if (not (str_eq s.action "")) "action"
        ++ (key_if (not (str_eq s.service "")) "service"
            ++ (key_if (is_some s.input) "input"
                ++ (key_if (not (eqb_ℤ s.timeout_ms (pos 0))) "timeout_ms"
                    ++ (key_if (not (eqb_ℤ s.duration_ms (pos 0))) "duration_ms"
                        ++ (key_if s.allow_live "allow_live"
                            ++ (key_if (not (eqb_ℤ s.tolerance_ms (pos 0))) "tolerance_ms"
                                ++ key_if (is_some s.expected_exit_code) "expected_exit_code")))))))

present_key : String × Raw → String
present_key p = p.0

-- Every key that is present, marshalled or in the decoded object, is `id`, `op` or allowed.
keys_allowed : List String → Step → Bool
unfolding present_key
keys_allowed allowed s =
    all (λ k. member k ("id" ∷ "op" ∷ allowed)) (marshal_keys s ++ map present_key s.present)

positive_int : Option ℤ → Bool
positive_int none = false
positive_int (some n) = ltb_ℤ (pos 0) n

raw_positive : Option Raw → Bool
unfolding positive_int
raw_positive none = true
raw_positive (some raw) = positive_int (unmarshal_int64 raw)

-- A field that is present is positive: a nonzero value is marshalled, a zero is looked up.
positive_if_present : String → ℤ → Step → Bool
unfolding raw_positive
positive_if_present key value s =
    if eqb_ℤ value (pos 0) then raw_positive (lookup key s.present) else ltb_ℤ (pos 0) value

numbers_positive : Step → Bool
unfolding positive_if_present
numbers_positive s =
    positive_if_present "timeout_ms" s.timeout_ms s
    && (positive_if_present "duration_ms" s.duration_ms s
        && positive_if_present "tolerance_ms" s.tolerance_ms s)

check_raw : Raw → Result Refusal (Unit {0})
check_raw raw = do
  guard (not (ltb max_input_size raw.size)) input_too_large
  elim raw.decoded [ none ↦ err bad_input | some v ↦ ok tt ]

check_input : Option Raw → Result Refusal (Unit {0})
unfolding check_raw
check_input none = ok tt
check_input (some raw) = check_raw raw

valid_exit_code : Option ℤ → Bool
valid_exit_code none = true
valid_exit_code (some n) = leb_ℤ (pos 0) n && leb_ℤ n (pos 255)

default_to : ℤ → ℤ → ℤ
default_to d v = if eqb_ℤ v (pos 0) then d else v

min_ℤ : ℤ → ℤ → ℤ
min_ℤ a b = if ltb_ℤ b a then b else a

-- The last switch of Step.validate on the instant that `at` stands for.
set_instant : TimeText → Step → ℤ → Result Refusal Step
unfolding default_to
set_instant time s target = do
  guard (is_timestamp s.at) bad_timestamp
  guard (in_interval target) time_out_of_range
  let tolerance = default_to (pos 1000) s.tolerance_ms
  guard (leb_ℤ tolerance (pos 10000)) tolerance_too_large
  ok (record s { at = time.format target; tolerance_ms = tolerance })

set_rules : TimeText → Step → Option ℤ → Result Refusal Step
unfolding set_instant
set_rules time s none = err bad_timestamp
set_rules time s (some target) = set_instant time s target

operation_rules : TimeText → ℤ → Op → Step → Result Refusal Step
unfolding set_rules valid_exit_code
operation_rules time run_timeout clock_set s = set_rules time s (time.parse s.at)
operation_rules time run_timeout action_exec s = do
  guard (is_workload_identifier s.action) bad_action
  guard (valid_exit_code s.expected_exit_code) bad_exit_code
  ok s
operation_rules time run_timeout service_start s = do
  guard (is_workload_identifier s.service) bad_service
  ok s
operation_rules time run_timeout service_stop s = do
  guard (is_workload_identifier s.service) bad_service
  ok s
operation_rules time run_timeout wait s = do
  guard (ltb_ℤ (pos 0) s.duration_ms && ltb_ℤ s.duration_ms run_timeout) bad_duration
  ok s
operation_rules time run_timeout _ s = ok s

timeout_rules : ℤ → Step → Result Refusal Step
unfolding default_to min_ℤ
timeout_rules run_timeout s =
    let t = default_to (min_ℤ (pos 5000) run_timeout) s.timeout_ms in
    if has_timeout s.op
    then (do
      guard (leb_ℤ (pos 1) t && leb_ℤ t run_timeout) timeout_does_not_fit
      ok (record s { timeout_ms = t }))
    else ok s

checked : TimeText → ℤ → Step → List String → Result Refusal Step
unfolding keys_allowed numbers_positive check_input operation_rules timeout_rules has_timeout
checked time run_timeout s allowed = do
  guard (keys_allowed allowed s) field_not_allowed
  guard (numbers_positive s) not_positive
  check_input s.input
  t ← operation_rules time run_timeout s.op s
  timeout_rules run_timeout t

unfoldable pub validate_step : TimeText → ℤ → Step → Result Refusal Step
unfolding checked fields_of
validate_step time run_timeout s = elim (fields_of s.op) [
  | none ↦ err unsupported_operation
  | some allowed ↦ checked time run_timeout s allowed
]
