-- ===== src/Scenario/Assertions.antt =====
-- internal/scenario/assertions.go: exact comparison of JSON values, and Evaluate.
pub mod Rationals
pub mod Orders
pub mod Decisions
pub mod Opposites
pub mod Verdicts
pub mod Swaps
use epoch.Base.{
  ℕ, zero, suc, String, Bool, true, false, not, ◌&&◌, ◌||◌, Option, none, some, List, [], ◌∷◌, ◌==◌,
  ℤ, Result, ok, err, ◌>>=◌, ◌>>◌, guard, str_eq, lookup, if◌then◌else◌, map,
}
use epoch.Json.{Json, null, bool, str, num, arr, obj, Items, nil, cons, Fields, end, field, Raw}
use epoch.Json.Number.{validate_number}
use epoch.Scenario.{
  Comparison, exists, absent, eq, ne, gt, gte, lt, lte, other_comparison, Assertion, Refusal,
  bad_number, bad_value, number_required, unsupported_comparison, observation_unavailable,
  malformed_observation, pointer_unavailable,
}
use epoch.Scenario.Pointer.{find_field, items_length, resolve_pointer}
use Rationals.{Sign, less, same, more, Rational, rational_of, compare_rationals}

unfoldable pub fields_length : Fields → ℕ
fields_length end = 0
fields_length (field k v rest) = suc (fields_length rest)

compare_parsed : Option Rational → Option Rational → Result Refusal Sign
compare_parsed (some x) (some y) = ok (compare_rationals x y)
compare_parsed _ _ = err bad_number

unfoldable pub compare_numbers : String → String → Result Refusal Sign
unfolding compare_parsed
compare_numbers a b = do
  guard (validate_number a) bad_number
  guard (validate_number b) bad_number
  compare_parsed (rational_of a) (rational_of b)

is_same : Sign → Bool
is_same same = true
is_same _ = false

same_number : String → String → Result Refusal Bool
unfolding is_same
same_number a b = do c ← compare_numbers a b; ok (is_same c)

is_null : Json → Bool
is_null null = true
is_null _ = false

same_bool : Bool → Json → Bool
same_bool true (bool b) = b
same_bool false (bool b) = not b
same_bool x _ = false

same_str : String → Json → Bool
same_str x (str y) = str_eq x y
same_str x _ = false

-- With a value that is no number the answer is false, and no error.
number_against : String → Json → Result Refusal Bool
unfolding same_number
number_against x (num y) = same_number x y
number_against x _ = ok false

-- `if !same || err != nil { return same, err }` and the rest of the loop.
and_then : Result Refusal Bool → Result Refusal Bool → Result Refusal Bool
and_then (ok true) rest = rest
and_then (ok false) rest = ok false
and_then (err e) rest = err e

-- The items or fields of a value of the same kind and length.
like_items : Items → Json → Option Items
like_items xs (arr ys) = if items_length xs == items_length ys then some ys else none
like_items xs _ = none

like_fields : Fields → Json → Option Fields
like_fields xs (obj ys) = if fields_length xs == fields_length ys then some ys else none
like_fields xs _ = none

-- equal. The loop over a map goes in the order of the fields; the second value is looked up by key.
unfoldable mutual
  unfolding is_null same_bool same_str number_against and_then like_items like_fields

  pub equal : Json → Json → Result Refusal Bool
  equal null b = ok (is_null b)
  equal (bool x) b = ok (same_bool x b)
  equal (str x) b = ok (same_str x b)
  equal (num x) b = number_against x b
  equal (arr xs) b = elim (like_items xs b) [ none ↦ ok false | some ys ↦ equal_items xs ys ]
  equal (obj xs) b = elim (like_fields xs b) [ none ↦ ok false | some ys ↦ equal_fields xs ys ]

  pub equal_items : Items → Items → Result Refusal Bool
  equal_items nil ys = ok true
  equal_items (cons x xs) nil = ok true
  equal_items (cons x xs) (cons y ys) = and_then (equal x y) (equal_items xs ys)

  pub equal_fields : Fields → Fields → Result Refusal Bool
  equal_fields end ys = ok true
  equal_fields (field k x xs) ys = elim (find_field k ys) [
    | none ↦ ok false
    | some y ↦ and_then (equal x y) (equal_fields xs ys)
  ]

-- A status is a string of the source; `other_status` is any other text, which a saved report may hold.
pub data Status : Type 0 where
  pass fail : Status
  other_status : String → Status

-- `failed` holds the operation and the pointer that the message of a failure prints.
pub record AssertionResult : Type 0 where
  pub id : String
  pub step : String
  pub status : Status
  pub actual : Option Json
  pub failed : Option (Comparison × String)

holds_for : Comparison → Sign → Bool
holds_for gt more = true
holds_for gte more = true
holds_for gte same = true
holds_for lt less = true
holds_for lte less = true
holds_for lte same = true
holds_for _ _ = false

pub ordered : Comparison → Json → Json → Result Refusal Bool
unfolding holds_for
ordered op (num x) (num y) = do c ← compare_numbers x y; ok (holds_for op c)
ordered op _ _ = err number_required

compare_values : Comparison → Json → Json → Result Refusal Bool
unfolding ordered
compare_values eq a b = equal a b
compare_values ne a b = do e ← equal a b; ok (not e)
compare_values op a b = ordered op a b

expected_of : Option Raw → Result Refusal Json
expected_of none = err bad_value
expected_of (some raw) = elim raw.decoded [ none ↦ err bad_value | some v ↦ ok v ]

compare_found : Comparison → Option Raw → Option Json → Result Refusal Bool
unfolding expected_of compare_values
compare_found op value none = err pointer_unavailable
compare_found op value (some actual) = do
  expected ← expected_of value
  compare_values op actual expected

found : Option Json → Bool
found none = false
found (some v) = true

-- The switch of Evaluate on what the pointer resolves to.
pub verdict : Comparison → Option Raw → Option Json → Result Refusal Bool
unfolding found compare_found
verdict exists value actual = ok (found actual)
verdict absent value actual = ok (not (found actual))
verdict (other_comparison text) value actual = err unsupported_comparison
verdict op value actual = compare_found op value actual

result_of : Assertion → Option Json → Bool → AssertionResult
result_of a actual true = record {
  id = a.id;
  step = a.step;
  status = pass;
  actual = actual;
  failed = none;
}
result_of a actual false = record {
  id = a.id;
  step = a.step;
  status = fail;
  actual = actual;
  failed = some (a.op, a.pointer);
}

observed : Option Raw → Result Refusal Json
observed none = err observation_unavailable
observed (some raw) = elim raw.decoded [ none ↦ err malformed_observation | some v ↦ ok v ]

-- One round of the loop.
unfoldable pub evaluate_one : List (String × Raw) → Assertion → Result Refusal AssertionResult
unfolding observed verdict result_of
evaluate_one observations a = do
  observation ← observed (lookup a.step observations)
  actual ← resolve_pointer observation a.pointer
  holds ← verdict a.op a.value actual
  ok (result_of a actual holds)

-- What comes behind a round: the results so far are returned beside an error.
after_round :
    Result Refusal AssertionResult
    → List AssertionResult × Option Refusal
    → List AssertionResult × Option Refusal
after_round (ok r) (rs, e) = (r ∷ rs, e)
after_round (err e) rest = ([], some e)

unfoldable pub evaluate :
    List (String × Raw) → List Assertion → List AssertionResult × Option Refusal
unfolding after_round
evaluate observations [] = ([], none)
evaluate observations (a ∷ rest) =
    after_round (evaluate_one observations a) (evaluate observations rest)
