-- ===== src/Scenario/Assertions/Decisions.antt =====
-- What each comparison of Evaluate (internal/scenario/assertions.go) means, apart from the code that
-- decides it.
use epoch.Base.{
  Bool, true, false, not, Option, none, some, ltb_ℤ, ◌≡◌, refl, ap, ◌∙◌, ok, >>=-eq-ok,
  ok-injective, arith,
}
use epoch.Json.{Json, Raw}
use epoch.Scenario.{Comparison, exists, absent, eq, ne, gt, gte, lt, lte, other_comparison}
use epoch.Scenario.Assertions.{verdict, found, compare_found, compare_values, equal, expected_of}
use epoch.Scenario.Assertions.Orders.{AreOrdered, ordered-AreOrdered, AreOrdered-ordered}

-- The value of an assertion is given and decodes.
abbrev pub HasValue : Option Raw → Json → Type 0
HasValue value y = (raw : Raw) × (value ≡ some raw) × (raw.decoded ≡ some y)

-- What a comparison of two values comes to.
abbrev pub IsComparison : Comparison → Json → Json → Bool → Type 0
IsComparison eq x y b = equal x y ≡ ok b
IsComparison ne x y b = equal x y ≡ ok (not b)
IsComparison gt x y b = AreOrdered (λ m n. ltb_ℤ n m) x y b
IsComparison gte x y b = AreOrdered (λ m n. not (ltb_ℤ m n)) x y b
IsComparison lt x y b = AreOrdered ltb_ℤ x y b
IsComparison lte x y b = AreOrdered (λ m n. not (ltb_ℤ n m)) x y b
IsComparison _ x y b = ⊥

-- `exists` and `absent` hold of what the pointer resolves to; the other comparisons need it and the
-- value of the assertion.
abbrev pub IsDecision : Comparison → Option Raw → Option Json → Bool → Type 0
IsDecision exists value none b = b ≡ false
IsDecision exists value (some x) b = b ≡ true
IsDecision absent value none b = b ≡ true
IsDecision absent value (some x) b = b ≡ false
IsDecision op value actual b =
    (x : Json) × (y : Json) × (actual ≡ some x) × HasValue value y × IsComparison op x y b

-- The comparisons of two values.
abbrev IsBinary : Comparison → Type 0
IsBinary exists = ⊥
IsBinary absent = ⊥
IsBinary (other_comparison text) = ⊥
IsBinary _ = Unit

compare_values-IsComparison :
    (op : Comparison) (x y : Json) (b : Bool)
    → IsBinary op
    → compare_values op x y ≡ ok b
    → IsComparison op x y b
unfolding compare_values
compare_values-IsComparison eq x y b h e = e
compare_values-IsComparison ne x y b h e =
    let (v, compared, rest) = >>=-eq-ok (equal x y) _ e in
    compared ∙ ap ok (ground (arith, ok-injective rest))
compare_values-IsComparison gt x y b h e = ordered-AreOrdered gt x y b tt e
compare_values-IsComparison gte x y b h e = ordered-AreOrdered gte x y b tt e
compare_values-IsComparison lt x y b h e = ordered-AreOrdered lt x y b tt e
compare_values-IsComparison lte x y b h e = ordered-AreOrdered lte x y b tt e
compare_values-IsComparison exists x y b h e = absurd h
compare_values-IsComparison absent x y b h e = absurd h
compare_values-IsComparison (other_comparison text) x y b h e = absurd h

IsComparison-compare_values :
    (op : Comparison) (x y : Json) (b : Bool) → IsComparison op x y b → compare_values op x y ≡ ok b
unfolding compare_values
IsComparison-compare_values eq x y b e = e
IsComparison-compare_values ne x y b e = ground (arith, e)
IsComparison-compare_values gt x y b e = AreOrdered-ordered gt x y b tt e
IsComparison-compare_values gte x y b e = AreOrdered-ordered gte x y b tt e
IsComparison-compare_values lt x y b e = AreOrdered-ordered lt x y b tt e
IsComparison-compare_values lte x y b e = AreOrdered-ordered lte x y b tt e
IsComparison-compare_values exists x y b e = absurd e
IsComparison-compare_values absent x y b e = absurd e
IsComparison-compare_values (other_comparison text) x y b e = absurd e

-- What a decision on two values is.
abbrev IsFound : Comparison → Option Raw → Option Json → Bool → Type 0
IsFound op value actual b =
    (x : Json) × (y : Json) × (actual ≡ some x) × HasValue value y × IsComparison op x y b

expected_of-eq-ok : (value : Option Raw) (y : Json) → expected_of value ≡ ok y → HasValue value y
unfolding expected_of
expected_of-eq-ok none y h = cc
expected_of-eq-ok (some raw) y h = (raw, refl, ground (arith, h))

compare_found-IsFound :
    (op : Comparison) (value : Option Raw) (actual : Option Json) (b : Bool)
    → IsBinary op
    → compare_found op value actual ≡ ok b
    → IsFound op value actual b
unfolding compare_found
compare_found-IsFound op value none b h e = cc
compare_found-IsFound op value (some x) b h e =
    let (y, expected, compared) = >>=-eq-ok (expected_of value) _ e in
    (
      x,
      y,
      refl,
      expected_of-eq-ok value y expected,
      compare_values-IsComparison op x y b h compared,
    )

IsFound-compare_found :
    (op : Comparison) (value : Option Raw) (actual : Option Json) (b : Bool)
    → IsFound op value actual b
    → compare_found op value actual ≡ ok b
unfolding compare_found expected_of
IsFound-compare_found op value actual b (x, y, here, (raw, given, decoded), compared) =
    ground (arith, here, given, decoded, IsComparison-compare_values op x y b compared)

pub verdict-IsDecision :
    (op : Comparison) (value : Option Raw) (actual : Option Json) (b : Bool)
    → verdict op value actual ≡ ok b
    → IsDecision op value actual b
unfolding verdict found
verdict-IsDecision exists value none b e = ground (arith, e)
verdict-IsDecision exists value (some x) b e = ground (arith, e)
verdict-IsDecision absent value none b e = ground (arith, e)
verdict-IsDecision absent value (some x) b e = ground (arith, e)
verdict-IsDecision (other_comparison text) value actual b e = cc
verdict-IsDecision eq value actual b e = compare_found-IsFound eq value actual b tt e
verdict-IsDecision ne value actual b e = compare_found-IsFound ne value actual b tt e
verdict-IsDecision gt value actual b e = compare_found-IsFound gt value actual b tt e
verdict-IsDecision gte value actual b e = compare_found-IsFound gte value actual b tt e
verdict-IsDecision lt value actual b e = compare_found-IsFound lt value actual b tt e
verdict-IsDecision lte value actual b e = compare_found-IsFound lte value actual b tt e

pub IsDecision-verdict :
    (op : Comparison) (value : Option Raw) (actual : Option Json) (b : Bool)
    → IsDecision op value actual b
    → verdict op value actual ≡ ok b
unfolding verdict found
IsDecision-verdict exists value none b e = ground (arith, e)
IsDecision-verdict exists value (some x) b e = ground (arith, e)
IsDecision-verdict absent value none b e = ground (arith, e)
IsDecision-verdict absent value (some x) b e = ground (arith, e)
IsDecision-verdict (other_comparison text) value actual b (x, y, here, given, compared) =
    absurd compared
IsDecision-verdict eq value actual b e = IsFound-compare_found eq value actual b e
IsDecision-verdict ne value actual b e = IsFound-compare_found ne value actual b e
IsDecision-verdict gt value actual b e = IsFound-compare_found gt value actual b e
IsDecision-verdict gte value actual b e = IsFound-compare_found gte value actual b e
IsDecision-verdict lt value actual b e = IsFound-compare_found lt value actual b e
IsDecision-verdict lte value actual b e = IsFound-compare_found lte value actual b e
