-- ===== src/Base/Int.antt =====
-- Signed integers over the native numbers, and the wrap-around of a 64-bit signed integer.
use Prim.Native.Nat.{ℕ, suc, ◌+◌, ◌-◌, ◌%◌, ◌^◌, ◌≤◌, ◌<◌}
use mathlib.Core.Path.{◌≡◌}
use mathlib.Core.Bool.{Bool, false}
use native.Mathlib.Omega.{arith}
use epoch.Base.Tests.{ltb, leb, if◌then◌else◌}

-- `negsuc n` is -(n + 1).
pub data ℤ : Type 0 where
  pos : ℕ → ℤ
  negsuc : ℕ → ℤ

abbrev pub pos_part : ℤ → ℕ
pos_part (pos n) = n
pos_part (negsuc n) = 0

abbrev pub neg_part : ℤ → ℕ
neg_part (pos n) = 0
neg_part (negsuc n) = suc n

-- a - b, as an integer.
abbrev pub sub_ℕ : ℕ → ℕ → ℤ
sub_ℕ a b = if leb b a then pos (a - b) else negsuc (b - a - 1)

infixl 65 ◌+ℤ◌ ◌-ℤ◌
infix 50 ◌≤ℤ◌ ◌<ℤ◌
unfoldable pub ◌+ℤ◌ : ℤ → ℤ → ℤ
a +ℤ b = sub_ℕ (pos_part a + pos_part b) (neg_part a + neg_part b)

unfoldable pub ◌-ℤ◌ : ℤ → ℤ → ℤ
a -ℤ b = sub_ℕ (pos_part a + neg_part b) (neg_part a + pos_part b)

abbrev pub ◌≤ℤ◌ : ℤ → ℤ → Type 0
a ≤ℤ b = pos_part a + neg_part b ≤ pos_part b + neg_part a

abbrev pub ◌<ℤ◌ : ℤ → ℤ → Type 0
a <ℤ b = pos_part a + neg_part b < pos_part b + neg_part a

abbrev pub ltb_ℤ : ℤ → ℤ → Bool
ltb_ℤ a b = ltb (pos_part a + neg_part b) (pos_part b + neg_part a)

abbrev pub leb_ℤ : ℤ → ℤ → Bool
leb_ℤ a b = leb (pos_part a + neg_part b) (pos_part b + neg_part a)

abbrev pub eqb_ℤ : ℤ → ℤ → Bool
eqb_ℤ a b = if leb_ℤ a b then leb_ℤ b a else false

pub +ℤ_parts :
    (a b : ℤ)
    → pos_part (a +ℤ b) + neg_part a + neg_part b ≡ neg_part (a +ℤ b) + pos_part a + pos_part b
unfolding ◌+ℤ◌
+ℤ_parts a b = ground arith

pub -ℤ_parts :
    (a b : ℤ)
    → pos_part (a -ℤ b) + neg_part a + pos_part b ≡ neg_part (a -ℤ b) + pos_part a + neg_part b
unfolding ◌-ℤ◌
-ℤ_parts a b = ground arith

pub eq_of_parts : (a b : ℤ) → pos_part a + neg_part b ≡ pos_part b + neg_part a → a ≡ b
eq_of_parts a b h = ground arith

pub ruleset int_laws = (arith, +ℤ_parts, -ℤ_parts, eq_of_parts)

-- The int64 whose bit pattern is that of `n`, for n < 2 ^ 64.
abbrev signed64 : ℕ → ℤ
signed64 n = if ltb n (2 ^ 63) then pos n else negsuc (2 ^ 64 - 1 - n)

-- Reduction to an int64, as every Go operation on int64 and time.Duration does.
unfoldable pub wrap64 : ℤ → ℤ
wrap64 (pos n) = signed64 (n % 2 ^ 64)
wrap64 (negsuc n) = signed64 (2 ^ 64 - 1 - n % 2 ^ 64)

abbrev pub max_int64 : ℤ
max_int64 = pos (2 ^ 63 - 1)

abbrev pub min_int64 : ℤ
min_int64 = negsuc (2 ^ 63 - 1)

abbrev pub InInt64 : ℤ → Type 0
InInt64 a = (min_int64 ≤ℤ a) × (a ≤ℤ max_int64)

-- time.Time.Sub: the difference, held at the ends of the int64 range.
unfoldable pub saturate64 : ℤ → ℤ
saturate64 a = if ltb_ℤ max_int64 a then max_int64 else if ltb_ℤ a min_int64 then min_int64 else a

pub wrap64-eq : (a : ℤ) → InInt64 a → wrap64 a ≡ a
unfolding wrap64
wrap64-eq (pos n) h = ground arith
wrap64-eq (negsuc n) h = ground arith

pub saturate64-eq : (a : ℤ) → InInt64 a → saturate64 a ≡ a
unfolding saturate64
saturate64-eq a h = ground arith

pub pos-ℤ_pos : (a b : ℕ) → pos a -ℤ pos b ≡ sub_ℕ a b
unfolding ◌-ℤ◌
pos-ℤ_pos a b = ground arith

-- Differences and sums of the sizes that clocks have fit an int64.
pub diff64 : (a b : ℕ) → a < 2 ^ 62 → b < 2 ^ 62 → wrap64 (pos a -ℤ pos b) ≡ sub_ℕ a b
diff64 a b ha hb = rw pos-ℤ_pos (wrap64-eq (sub_ℕ a b) (ground arith, ground arith))

pub saturated_diff64 : (a b : ℕ) → a < 2 ^ 62 → b < 2 ^ 62 → saturate64 (pos a -ℤ pos b) ≡ sub_ℕ a b
saturated_diff64 a b ha hb = rw pos-ℤ_pos (saturate64-eq (sub_ℕ a b) (ground arith, ground arith))

pub neg64 : (a : ℕ) → a < 2 ^ 62 → wrap64 (pos 0 -ℤ pos a) ≡ sub_ℕ 0 a
neg64 a h = diff64 0 a (omega arith) h
