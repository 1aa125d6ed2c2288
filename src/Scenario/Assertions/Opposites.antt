-- ===== src/Scenario/Assertions/Opposites.antt =====
-- Opposite comparisons of Evaluate (internal/scenario/assertions.go).
use epoch.Base.{Bool, not, Option, none, some, ◌≡◌, refl, Result, ok, err, ◌>>=◌, arith}
use epoch.Json.{Json, null, bool, str, num, arr, obj, Raw}
use epoch.Scenario.{Comparison, exists, absent, eq, ne, gt, gte, lt, lte, other_comparison, Refusal}
use epoch.Scenario.Assertions.Rationals.{Sign, less, same, more}
use epoch.Scenario.Assertions.{
  verdict, found, compare_found, compare_values, ordered, holds_for, compare_numbers, equal,
  expected_of,
}

-- The comparison that holds where the other does not.
abbrev pub opposite : Comparison → Comparison
opposite exists = absent
opposite absent = exists
opposite eq = ne
opposite ne = eq
opposite gt = lte
opposite lte = gt
opposite gte = lt
opposite lt = gte
opposite (other_comparison text) = other_comparison text

abbrev pub negated : Result Refusal Bool → Result Refusal Bool
negated (ok b) = ok (not b)
negated (err e) = err e

not-not : (b : Bool) → not (not b) ≡ b
not-not b = ground arith

signs_negated :
    (op : Comparison) (r : Result Refusal Sign)
    → holds_for op more ≡ not (holds_for (opposite op) more)
    → holds_for op same ≡ not (holds_for (opposite op) same)
    → holds_for op less ≡ not (holds_for (opposite op) less)
    → (r >>= λ c. ok (holds_for (opposite op) c)) ≡ negated (r >>= λ c. ok (holds_for op c))
signs_negated op (ok more) m s l = ground (arith, m)
signs_negated op (ok same) m s l = ground (arith, s)
signs_negated op (ok less) m s l = ground (arith, l)
signs_negated op (err e) m s l = refl

ordered-opposite :
    (op : Comparison) (a b : Json)
    → holds_for op more ≡ not (holds_for (opposite op) more)
    → holds_for op same ≡ not (holds_for (opposite op) same)
    → holds_for op less ≡ not (holds_for (opposite op) less)
    → ordered (opposite op) a b ≡ negated (ordered op a b)
unfolding ordered
ordered-opposite op (num x) (num y) m s l = signs_negated op (compare_numbers x y) m s l
ordered-opposite op (num x) null m s l = refl
ordered-opposite op (num x) (bool y) m s l = refl
ordered-opposite op (num x) (str y) m s l = refl
ordered-opposite op (num x) (arr y) m s l = refl
ordered-opposite op (num x) (obj y) m s l = refl
ordered-opposite op null b m s l = refl
ordered-opposite op (bool x) b m s l = refl
ordered-opposite op (str x) b m s l = refl
ordered-opposite op (arr x) b m s l = refl
ordered-opposite op (obj x) b m s l = refl

equal_negated :
    (r : Result Refusal Bool)
    → ((r >>= λ e. ok (not e)) ≡ negated r) × (r ≡ negated (r >>= λ e. ok (not e)))
equal_negated (ok b) = (refl, ground arith)
equal_negated (err e) = (refl, refl)

-- The six comparisons that take a value.
abbrev TakesValue : Comparison → Type 0
TakesValue exists = ⊥
TakesValue absent = ⊥
TakesValue (other_comparison text) = ⊥
TakesValue _ = Unit

values-opposite :
    (op : Comparison) (a b : Json)
    → TakesValue op
    → compare_values (opposite op) a b ≡ negated (compare_values op a b)
unfolding compare_values holds_for ordered
values-opposite eq a b h = (equal_negated (equal a b)).0
values-opposite ne a b h = (equal_negated (equal a b)).1
values-opposite gt a b h = ordered-opposite gt a b refl refl refl
values-opposite gte a b h = ordered-opposite gte a b refl refl refl
values-opposite lt a b h = ordered-opposite lt a b refl refl refl
values-opposite lte a b h = ordered-opposite lte a b refl refl refl
values-opposite exists a b h = absurd h
values-opposite absent a b h = absurd h
values-opposite (other_comparison text) a b h = absurd h

expected-opposite :
    (op : Comparison) (actual : Json) (e : Result Refusal Json)
    → TakesValue op
    → (e >>= compare_values (opposite op) actual) ≡ negated (e >>= compare_values op actual)
expected-opposite op actual (ok expected) h = values-opposite op actual expected h
expected-opposite op actual (err e) h = refl

found-opposite :
    (op : Comparison) (value : Option Raw) (actual : Option Json)
    → TakesValue op
    → compare_found (opposite op) value actual ≡ negated (compare_found op value actual)
unfolding compare_found
found-opposite op value none h = refl
found-opposite op value (some actual) h = expected-opposite op actual (expected_of value) h

-- Each comparison is decided as the negation of its opposite, on every value and whatever the pointer
-- resolves to, and it is an error just where its opposite is, with the same error.
pub verdict-opposite :
    (op : Comparison) (value : Option Raw) (actual : Option Json)
    → verdict (opposite op) value actual ≡ negated (verdict op value actual)
unfolding verdict
verdict-opposite exists value actual = refl
verdict-opposite absent value actual = ground (arith, not-not (found actual))
verdict-opposite eq value actual = found-opposite eq value actual tt
verdict-opposite ne value actual = found-opposite ne value actual tt
verdict-opposite gt value actual = found-opposite gt value actual tt
verdict-opposite gte value actual = found-opposite gte value actual tt
verdict-opposite lt value actual = found-opposite lt value actual tt
verdict-opposite lte value actual = found-opposite lte value actual tt
verdict-opposite (other_comparison text) value actual = refl
