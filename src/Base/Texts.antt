-- ===== src/Base/Texts.antt =====
-- Texts: tests on native strings, sets of names, and association lists with text keys.
use Prim.Native.Nat.{ℕ, suc, ◌+◌, ◌≤◌}
use Prim.Native.Char.{code}
use Prim.Native.String.{String}
use text.Mathlib.Text.{◌==◌}
use text.Mathlib.TextEquality.{eq_iff}
use text.Mathlib.TextPositions.{eq_refl}
use mathlib.Core.Path.{◌≡◌, refl, ◌∙◌}
use mathlib.Core.Logic.{inl, inr}
use mathlib.Core.Bool.{Bool, true, false, ◌||◌}
use mathlib.Core.List.{List, [], ◌∷◌, map}
use mathlib.Core.Option.{Option, none, some}
use native.Mathlib.Omega.{arith}
use epoch.Base.Tests.{if◌then◌else◌, ltb, Bool-cases, if-elim}
use epoch.Base.Lists.{length, All}

abbrev pub str_eq : String → String → Bool
str_eq = ◌==◌

pub str_eq_refl : (s : String) → str_eq s s ≡ true
str_eq_refl s = eq_refl s

-- The code points of a text. `String` has its own `[]` and `∷`.
abbrev pub codes : String → List ℕ
codes String.[] = []
codes (String.◌∷◌ c s) = code c ∷ codes s

-- len(s) of a Go string: its bytes of UTF-8.
unfoldable pub byte_length : String → ℕ
byte_length String.[] = 0
byte_length (String.◌∷◌ c rest) =
    let more = byte_length rest in
    if ltb (code c) 128
    then 1 + more
    else if ltb (code c) 2048
    then 2 + more
    else if ltb (code c) 65536
    then 3 + more
    else 4 + more

-- A Go `map[string]bool` with only true entries, as the list of its keys.
unfoldable pub member : String → List String → Bool
member k [] = false
member k (x ∷ xs) = str_eq x k || member k xs

unfoldable pub insert : String → List String → List String
insert k xs = if member k xs then xs else k ∷ xs

unfoldable pub delete : String → List String → List String
delete k [] = []
delete k (x ∷ xs) = let rest = delete k xs in if str_eq x k then rest else x ∷ rest

pub member-nil : (k : String) → member k [] ≡ false
unfolding member
member-nil k = refl

pub member-insert :
    (k j : String) (xs : List String) → member j (insert k xs) ≡ (str_eq k j || member j xs)
unfolding member insert
member-insert k j xs = elim (Bool-cases (member k xs)) [
  | inl p ↦ ground (arith, eq_iff k j)
  | inr p ↦ ground (arith, eq_iff k j)
]

pub member-delete_self : (k : String) (xs : List String) → member k (delete k xs) ≡ false
unfolding member delete
member-delete_self k [] = refl
member-delete_self k (x ∷ xs) = ground (arith, member-delete_self k xs)

pub member-delete_ne :
    (k j : String) (xs : List String) → str_eq k j ≡ false → member j (delete k xs) ≡ member j xs
unfolding member delete
member-delete_ne k j [] h = refl
member-delete_ne k j (x ∷ xs) h =
    ground (arith, member-delete_ne k j xs h, eq_iff k j, eq_iff x j, eq_iff x k)

pub length-delete : (k : String) (xs : List String) → length (delete k xs) ≤ length xs
unfolding delete
length-delete k [] = omega arith
length-delete k (x ∷ xs) = ground (arith, length-delete k xs)

pub member-map_fresh {ℓ} :
    {A : Type ℓ} (k : String) (f : A → String) (xs : List A)
    → All (λ x. str_eq k (f x) ≡ false) xs
    → member k (map f xs) ≡ false
unfolding member
member-map_fresh k f [] h = refl
member-map_fresh k f (x ∷ xs) h =
    ground (arith, member-map_fresh k f xs h.1, eq_iff k (f x), eq_iff (f x) k, h.0)

pub delete-absent : (k : String) (xs : List String) → member k xs ≡ false → delete k xs ≡ xs
unfolding member delete
delete-absent k [] h = refl
delete-absent k (x ∷ xs) h = ground (arith, delete-absent k xs)

abbrev pub IsDistinct : List String → Type 0
IsDistinct [] = Unit
IsDistinct (x ∷ xs) = (member x xs ≡ false) × IsDistinct xs

pub insert-IsDistinct : (k : String) (xs : List String) → IsDistinct xs → IsDistinct (insert k xs)
unfolding insert
insert-IsDistinct k xs h = ground (arith, h)

pub delete-IsDistinct : (k : String) (xs : List String) → IsDistinct xs → IsDistinct (delete k xs)
unfolding delete
delete-IsDistinct k [] h = tt
delete-IsDistinct k (x ∷ xs) h =
    if-elim IsDistinct (str_eq x k) _ _ (λ _. delete-IsDistinct k xs h.1)
      (λ other. (
        member-delete_ne k x xs (ground (arith, other, eq_iff x k, eq_iff k x)) ∙ h.0,
        delete-IsDistinct k xs h.1,
      ))

pub length-insert :
    (k : String) (xs : List String) → member k xs ≡ false → length (insert k xs) ≡ suc (length xs)
unfolding insert
length-insert k xs h = ground arith

pub length-delete-member :
    (k : String) (xs : List String)
    → member k xs ≡ true
    → IsDistinct xs
    → length xs ≡ suc (length (delete k xs))
unfolding delete member
length-delete-member k [] here h = ground arith
length-delete-member k (x ∷ xs) here h =
    ground (arith, length-delete-member k xs, delete-absent k xs, eq_iff x k, h.0, h.1)

-- m[k] on an association list.
module _ {ℓ} {V : Type ℓ} where
  unfoldable pub lookup : String → List (String × V) → Option V
  lookup k [] = none
  lookup k ((j, v) ∷ m) = if str_eq j k then some v else lookup k m

  unfoldable pub has_key : String → List (String × V) → Bool
  unfolding lookup
  has_key k m = elim (lookup k m) [ none ↦ false | some _ ↦ true ]

  pub lookup-cons :
      (k j : String) (v : V) (m : List (String × V))
      → lookup k ((j, v) ∷ m) ≡ none
      → (str_eq j k ≡ false) × (lookup k m ≡ none)
  unfolding lookup
  lookup-cons k j v m h = ground arith

  pub has_key-lookup :
      (k : String) (m : List (String × V)) → has_key k m ≡ false → lookup k m ≡ none
  unfolding has_key
  has_key-lookup k m h = ground arith
