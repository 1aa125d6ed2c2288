-- ===== src/Scenario/Assertions/Orders.antt =====
-- The four orders of Evaluate (internal/scenario/assertions.go) on numbers.
use epoch.Base.{
  String, Bool, true, false, not, if◌then◌else◌, some, ℤ, ltb_ℤ, ◌≡◌, refl, sym, ap, ◌∙◌, inl, inr,
  ok, >>=-eq-ok, >>-eq-ok, guard, guard-eq-ok, ok-injective, Option-cases, arith,
}
use epoch.Json.{Json, null, bool, str, num, arr, obj}
use epoch.Json.Number.{validate_number}
use epoch.Scenario.{
  Comparison, exists, absent, eq, ne, gt, gte, lt, lte, other_comparison, bad_number,
}
use epoch.Scenario.Assertions.Rationals.{
  Sign, less, same, more, Rational, rational_of, times, compare_rationals,
}
use epoch.Scenario.Assertions.{ordered, holds_for, compare_numbers, compare_parsed}

-- What is found and what is expected are numbers, and the test is on their numerators over a common
-- denominator, found first.
abbrev pub AreOrdered : (ℤ → ℤ → Bool) → Json → Json → Bool → Type 0
AreOrdered test x y b =
    (s : String) × (t : String) × (p : Rational) × (q : Rational) × (x ≡ num s)
    × (y ≡ num t)
    × (validate_number s ≡ true)
    × (validate_number t ≡ true)
    × (rational_of s ≡ some p)
    × (rational_of t ≡ some q)
    × (test (times p.numerator q.denominator) (times q.numerator p.denominator) ≡ b)

-- The test on a common denominator that stands for an order of the signs.
abbrev pub test_of : Comparison → ℤ → ℤ → Bool
test_of gt m n = ltb_ℤ n m
test_of gte m n = not (ltb_ℤ m n)
test_of lt m n = ltb_ℤ m n
test_of lte m n = not (ltb_ℤ n m)
test_of _ m n = false

abbrev pub IsOrder : Comparison → Type 0
IsOrder gt = Unit
IsOrder gte = Unit
IsOrder lt = Unit
IsOrder lte = Unit
IsOrder _ = ⊥

sign_order :
    (op : Comparison) (m n : ℤ)
    → IsOrder op
    → holds_for op (if ltb_ℤ m n then less else if ltb_ℤ n m then more else same) ≡ test_of op m n
unfolding holds_for
sign_order gt m n h = ground arith
sign_order gte m n h = ground arith
sign_order lt m n h = ground arith
sign_order lte m n h = ground arith
sign_order eq m n h = absurd h
sign_order ne m n h = absurd h
sign_order exists m n h = absurd h
sign_order absent m n h = absurd h
sign_order (other_comparison text) m n h = absurd h

holds_for-compare_rationals :
    (op : Comparison) (p q : Rational)
    → IsOrder op
    → holds_for op (compare_rationals p q)
      ≡ test_of op (times p.numerator q.denominator) (times q.numerator p.denominator)
unfolding compare_rationals
holds_for-compare_rationals op p q h =
    sign_order op (times p.numerator q.denominator) (times q.numerator p.denominator) h

compare_numbers-eq-ok :
    (s t : String) (c : Sign)
    → compare_numbers s t ≡ ok c
    → (p : Rational) × (q : Rational) × (validate_number s ≡ true)
      × (validate_number t ≡ true)
      × (rational_of s ≡ some p)
      × (rational_of t ≡ some q)
      × (compare_rationals p q ≡ c)
unfolding compare_numbers compare_parsed
compare_numbers-eq-ok s t c h =
    let one = >>-eq-ok (guard (validate_number s) bad_number) _ h in
    let two = >>-eq-ok (guard (validate_number t) bad_number) _ one.1 in
    elim (Option-cases (rational_of s)) [
      | inl nothing ↦ absurd (ground (arith, nothing, two.1))
      | inr (p, first) ↦ elim (Option-cases (rational_of t)) [
        | inl nothing ↦ absurd (ground (arith, nothing, first, two.1))
        | inr (q, second) ↦ (
          p,
          q,
          guard-eq-ok (validate_number s) bad_number one.0,
          guard-eq-ok (validate_number t) bad_number two.0,
          first,
          second,
          ground (arith, first, second, two.1),
        )
      ]
    ]

pub ordered-AreOrdered :
    (op : Comparison) (x y : Json) (b : Bool)
    → IsOrder op
    → ordered op x y ≡ ok b
    → AreOrdered (test_of op) x y b
unfolding ordered
ordered-AreOrdered op (num s) (num t) b h e =
    let (c, compared, held) = >>=-eq-ok (compare_numbers s t) _ e in
    let (p, q, s_ok, t_ok, first, second, sign) = compare_numbers-eq-ok s t c compared in
    (
      s,
      t,
      p,
      q,
      refl,
      refl,
      s_ok,
      t_ok,
      first,
      second,
      sym (holds_for-compare_rationals op p q h) ∙ ap (holds_for op) sign ∙ ok-injective held,
    )
ordered-AreOrdered op (num s) null b h e = cc
ordered-AreOrdered op (num s) (bool v) b h e = cc
ordered-AreOrdered op (num s) (str v) b h e = cc
ordered-AreOrdered op (num s) (arr v) b h e = cc
ordered-AreOrdered op (num s) (obj v) b h e = cc
ordered-AreOrdered op null y b h e = cc
ordered-AreOrdered op (bool v) y b h e = cc
ordered-AreOrdered op (str v) y b h e = cc
ordered-AreOrdered op (arr v) y b h e = cc
ordered-AreOrdered op (obj v) y b h e = cc

pub AreOrdered-ordered :
    (op : Comparison) (x y : Json) (b : Bool)
    → IsOrder op
    → AreOrdered (test_of op) x y b
    → ordered op x y ≡ ok b
unfolding ordered compare_numbers compare_parsed
AreOrdered-ordered op x y b h (s, t, p, q, is_s, is_t, s_ok, t_ok, first, second, test) =
    ground
      (arith, is_s, is_t, s_ok, t_ok, first, second, test, holds_for-compare_rationals op p q h)
