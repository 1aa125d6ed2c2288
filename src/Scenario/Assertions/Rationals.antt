-- ===== src/Scenario/Assertions/Rationals.antt =====
-- big.Rat as compareNumbers of internal/scenario/assertions.go uses it: SetString on a JSON number
-- literal, and Cmp by cross multiplication.
use epoch.Base.{
  ℕ, ◌+◌, ◌-◌, ◌*◌, ◌^◌, code, String, Bool, true, false, ◌&&◌, ◌||◌, Option, none, some, ◌==◌, ℤ,
  pos, negsuc, pos_part, neg_part, sub_ℕ, ltb_ℤ, if◌then◌else◌,
}
use epoch.Json.Number.{parse_int}
use epoch.Scenario.Names.{is_digit}

pub data Sign : Type 0 where
  less same more : Sign

-- The denominator is a power of ten, kept positive.
pub record Rational : Type 0 where
  pub numerator : ℤ
  pub denominator : ℕ

-- mantissa * 10 ^ (exponent - places)
scaled : Bool → ℕ → ℕ → ℤ → Rational
scaled minus mantissa places exponent =
    let up = pos_part exponent in
    let down = neg_part exponent + places in
    let n = mantissa * 10 ^ up in
    record { numerator = if minus then sub_ℕ 0 n else pos n; denominator = 10 ^ down }

with_exponent : Bool → ℕ → ℕ → Option ℤ → Option Rational
unfolding scaled
with_exponent minus mantissa places none = none
with_exponent minus mantissa places (some e) = some (scaled minus mantissa places e)

-- The rest of a literal behind its sign: `dotted` and `places` count the digits of the fraction.
scan : Bool → Bool → Bool → ℕ → ℕ → String → Option Rational
unfolding scaled with_exponent is_digit parse_int
scan minus dotted seen mantissa places String.[] =
    if seen then some (scaled minus mantissa places (pos 0)) else none
scan minus dotted seen mantissa places (String.◌∷◌ c rest) =
    let digit =
      scan minus dotted true (mantissa * 10 + (code c - b'0'))
        (if dotted then places + 1 else places) rest in
    let point = scan minus true seen mantissa places rest in
    if is_digit (code c)
    then digit
    else if code c == b'.'
    then (if dotted then none else point)
    else if (code c == b'e' || code c == b'E') && seen
    then with_exponent minus mantissa places (parse_int 32 rest)
    else none

unfoldable pub rational_of : String → Option Rational
unfolding scan
rational_of String.[] = none
rational_of (String.◌∷◌ c rest) =
    if code c == b'-'
    then scan true false false 0 0 rest
    else scan false false false 0 0 (String.◌∷◌ c rest)

pub times : ℤ → ℕ → ℤ
times (pos n) d = pos (n * d)
times (negsuc n) d = sub_ℕ 0 ((n + 1) * d)

unfoldable pub compare_rationals : Rational → Rational → Sign
unfolding times
compare_rationals x y =
    let a = times x.numerator y.denominator in
    let b = times y.numerator x.denominator in
    if ltb_ℤ a b then less else if ltb_ℤ b a then more else same
