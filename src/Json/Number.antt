-- ===== src/Json/Number.antt =====
-- Decimal literals: strconv.ParseInt and ParseUint in base 10, and jsonutil.ValidateNumber.
use Prim.Native.String.{[], ◌∷◌}
use epoch.Base.{
  ℕ, ◌+◌, ◌-◌, ◌*◌, ◌^◌, code, String, byte_length, Bool, true, false, ◌&&◌, ◌||◌, Option, none,
  some, ltb, leb, ◌==◌, if◌then◌else◌, ℤ, pos, negsuc, leb_ℤ, ◌-ℤ◌,
}

-- The value of a text of decimal digits behind those that `n` stands for.
unfoldable pub digits_from : ℕ → String → Option ℕ
digits_from n [] = some n
digits_from n (c ∷ rest) =
    let next = digits_from (n * 10 + (code c - b'0')) rest in
    if leb b'0' (code c) && leb (code c) b'9' then next else none

unfoldable pub decimal_digits : String → Option ℕ
unfolding digits_from
decimal_digits [] = none
decimal_digits (c ∷ rest) = digits_from 0 (c ∷ rest)

-- ParseUint(s, 10, bits)
unfoldable pub parse_uint : ℕ → String → Option ℕ
unfolding decimal_digits
parse_uint bits s = elim (decimal_digits s) [
  | none ↦ none
  | some n ↦ if ltb n (2 ^ bits) then some n else none
]

in_signed : ℕ → Bool → Option ℕ → Option ℤ
in_signed bits minus none = none
in_signed bits true (some n) = if leb n (2 ^ (bits - 1)) then some (pos 0 -ℤ pos n) else none
in_signed bits false (some n) = if ltb n (2 ^ (bits - 1)) then some (pos n) else none

-- ParseInt(s, 10, bits)
unfoldable pub parse_int : ℕ → String → Option ℤ
unfolding decimal_digits in_signed ◌-ℤ◌
parse_int bits [] = none
parse_int bits (c ∷ rest) =
    if code c == b'-'
    then in_signed bits true (decimal_digits rest)
    else if code c == b'+'
    then in_signed bits false (decimal_digits rest)
    else in_signed bits false (decimal_digits (c ∷ rest))

-- s[i+1:] for i = strings.IndexAny(s, "eE"), if there is such an i
unfoldable pub exponent_part : String → Option String
exponent_part [] = none
exponent_part (c ∷ rest) =
    let later = exponent_part rest in if code c == b'e' || code c == b'E' then some rest else later

-- ValidateNumber: at most 256 bytes, and an exponent within +/-1024.
unfoldable pub validate_number : String → Bool
unfolding parse_int exponent_part
validate_number s = if ltb 256 (byte_length s) then false else elim (exponent_part s) [
  | none ↦ true
  | some e ↦ elim (parse_int 32 e) [
    | none ↦ false
    | some x ↦ leb_ℤ (negsuc 1023) x && leb_ℤ x (pos 1024)
  ]
]
