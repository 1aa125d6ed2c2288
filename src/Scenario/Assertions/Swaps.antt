-- ===== src/Scenario/Assertions/Swaps.antt =====
-- Exchanging the sides of a comparison of numbers (compareNumbers of internal/scenario/assertions.go).
use epoch.Base.{
  String, Option, none, some, ◌≡◌, refl, ℤ, ltb_ℤ, Result, ok, err, arith, if◌then◌else◌,
}
use epoch.Scenario.{Refusal}
use epoch.Scenario.Assertions.{compare_numbers, compare_parsed}
use epoch.Scenario.Assertions.Rationals.{
  Sign, less, same, more, Rational, rational_of, compare_rationals, times,
}

abbrev pub flip : Sign → Sign
flip less = more
flip same = same
flip more = less

abbrev pub flipped : Result Refusal Sign → Result Refusal Sign
flipped (ok c) = ok (flip c)
flipped (err e) = err e

sign_of-flip :
    (a b : ℤ)
    → (if ltb_ℤ b a then less else if ltb_ℤ a b then more else same)
      ≡ flip (if ltb_ℤ a b then less else if ltb_ℤ b a then more else same)
sign_of-flip a b = ground arith

rationals-flip : (x y : Rational) → compare_rationals y x ≡ flip (compare_rationals x y)
unfolding compare_rationals
rationals-flip x y =
    sign_of-flip (times x.numerator y.denominator) (times y.numerator x.denominator)

parsed-flip : (x y : Option Rational) → compare_parsed y x ≡ flipped (compare_parsed x y)
unfolding compare_parsed
parsed-flip none none = refl
parsed-flip none (some y) = refl
parsed-flip (some x) none = refl
parsed-flip (some x) (some y) = ground (arith, rationals-flip x y)

-- Comparing two literals the other way round gives the opposite sign, and an error just where the
-- comparison is an error.
pub compare_numbers-flip : (a b : String) → compare_numbers b a ≡ flipped (compare_numbers a b)
unfolding compare_numbers
compare_numbers-flip a b = ground (arith, parsed-flip (rational_of a) (rational_of b))
