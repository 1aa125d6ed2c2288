-- ===== src/Engine/Privileges/Refusals.antt =====
-- What a status that parsePrivileges of internal/hostcheck/hostcheck.go accepts says.
use epoch.Base.{
  ℕ, suc, ◌+◌, String, true, false, ◌≤◌, IsDistinct, Option, none, some, List, [], ◌∷◌, ◌==◌,
  length, map, All, str_eq, member, eq_iff, ok, >>=-eq-ok, guard-eq-ok, ok-injective, Bool-cases,
  if◌then◌else◌, ◌≡◌, ◌⊎◌, inl, inr, refl, sym, ap, ◌∙◌, subst, arith,
}
use mathlib.Core.Bool.{false≢true}
use epoch.Guest.Identity.{fields}
use epoch.Engine.Privileges.{capability_tags, status_line, status_lines, scanned, parse_privileges}
use epoch.Engine.Privileges.Lines.{IsSafeLine, watched, IsNoted, status_line-eq-ok}

-- How often a tag stands in front of a line.
unfoldable pub tag_count : String → List (List String) → ℕ
tag_count tag [] = 0
tag_count tag ([] ∷ rest) = tag_count tag rest
tag_count tag ((t ∷ values) ∷ rest) =
    let more = tag_count tag rest in if str_eq t tag then suc more else more

occurrences : String → List String → ℕ
occurrences t [] = 0
occurrences t (x ∷ xs) = let more = occurrences t xs in if str_eq x t then suc more else more

occurrences-fresh : (t : String) (xs : List String) → member t xs ≡ false → occurrences t xs ≡ 0
unfolding occurrences member
occurrences-fresh t [] h = refl
occurrences-fresh t (x ∷ xs) h = ground (arith, occurrences-fresh t xs)

occurrences-IsDistinct : (t : String) (xs : List String) → IsDistinct xs → occurrences t xs ≤ 1
unfolding occurrences
occurrences-IsDistinct t [] h = omega arith
occurrences-IsDistinct t (x ∷ xs) h =
    ground (arith, occurrences-IsDistinct t xs h.1, occurrences-fresh x xs h.0, eq_iff x t)

watched-cases :
    (x : String)
    → watched x ≡ true
    → (x ≡ "Uid:") ⊎ ((x ≡ "CapPrm:") ⊎ ((x ≡ "CapEff:") ⊎ (x ≡ "CapAmb:")))
unfolding capability_tags member
watched-cases x h =
    ground (arith, h, eq_iff x "Uid:", eq_iff "CapPrm:" x, eq_iff "CapEff:" x, eq_iff "CapAmb:" x)

abbrev all_occurrences : List String → ℕ
all_occurrences xs =
    occurrences "Uid:" xs
    + occurrences "CapPrm:" xs
    + occurrences "CapEff:" xs
    + occurrences "CapAmb:" xs

length-occurrences :
    (xs : List String) → All (λ x. watched x ≡ true) xs → length xs ≡ all_occurrences xs
unfolding occurrences
length-occurrences [] h = refl
length-occurrences (x ∷ xs) h =
    let so_far = length-occurrences xs h.1 in
    let by = λ (y : String). suc (length xs) ≡ all_occurrences (y ∷ xs) in
    elim (watched-cases x h.0) [
      | inl e ↦ subst by (sym e) (omega (arith, so_far))
      | inr (inl e) ↦ subst by (sym e) (omega (arith, so_far))
      | inr (inr (inl e)) ↦ subst by (sym e) (omega (arith, so_far))
      | inr (inr (inr e)) ↦ subst by (sym e) (omega (arith, so_far))
    ]

-- The tags that were seen: different ones of the four.
abbrev IsTagSet : List String → Type 0
IsTagSet seen = IsDistinct seen × All (λ x. watched x ≡ true) seen

noted-IsTagSet : (fs seen next : List String) → IsNoted fs seen next → IsTagSet seen → IsTagSet next
noted-IsTagSet [] seen next same set = subst IsTagSet (sym same) set
noted-IsTagSet (tag ∷ values) seen next (inl (known, fresh, more)) set =
    subst IsTagSet (sym more) ((fresh, set.0), (known, set.1))
noted-IsTagSet (tag ∷ values) seen next (inr (other, same)) set = subst IsTagSet (sym same) set

noted_count :
    (t : String) (fs seen next : List String) (rest : List (List String))
    → watched t ≡ true
    → IsNoted fs seen next
    → occurrences t next + tag_count t rest ≡ occurrences t seen + tag_count t (fs ∷ rest)
unfolding occurrences tag_count
noted_count t [] seen next rest known same = ap (λ xs. occurrences t xs + tag_count t rest) same
noted_count t (tag ∷ values) seen next rest known (inl (here, fresh, more)) =
    subst
      (λ xs.
        occurrences t xs + tag_count t rest
        ≡ occurrences t seen + tag_count t ((tag ∷ values) ∷ rest))
      (sym more) (ground arith)
noted_count t (tag ∷ values) seen next rest known (inr (other, same)) =
    elim (Bool-cases (str_eq tag t)) [
      | inl e ↦ absurd (false≢true (sym other ∙ ap (λ x. watched x) ((eq_iff tag t).0 e) ∙ known))
      | inr e ↦
          subst
            (λ xs.
              occurrences t xs + tag_count t rest
              ≡ occurrences t seen + tag_count t ((tag ∷ values) ∷ rest))
            (sym same) (ground (arith, e))
    ]

status_lines-eq-ok :
    (lines seen : List String) {last : List String}
    → status_lines lines seen ≡ ok last
    → IsTagSet seen
    → All (λ line. IsSafeLine (fields line)) lines
      × IsTagSet last
      × ((t : String)
          → watched t ≡ true
          → occurrences t last ≡ occurrences t seen + tag_count t (map fields lines))
unfolding status_lines tag_count
status_lines-eq-ok [] seen h set = (
  tt,
  subst IsTagSet (ok-injective h) set,
  λ t known. ap (occurrences t) (sym (ok-injective h)) ∙ omega arith,
)
status_lines-eq-ok (line ∷ rest) seen h set =
    let (next, first, others) = >>=-eq-ok (status_line (fields line) seen) _ h in
    let (safe, noted) = status_line-eq-ok (fields line) seen first in
    let later =
      status_lines-eq-ok rest next others (noted-IsTagSet (fields line) seen next noted set) in
    (
      (safe, later.0),
      later.1,
      λ t known.
          later.2 t known ∙ noted_count t (fields line) seen next (map fields rest) known noted,
    )

each_once :
    (seen : List String)
    → IsTagSet seen
    → length seen ≡ 4
    → (occurrences "Uid:" seen ≡ 1)
      × (occurrences "CapPrm:" seen ≡ 1)
      × (occurrences "CapEff:" seen ≡ 1)
      × (occurrences "CapAmb:" seen ≡ 1)
each_once seen set four = ground (
  arith,
  length-occurrences seen set.1,
  occurrences-IsDistinct "Uid:" seen set.0,
  occurrences-IsDistinct "CapPrm:" seen set.0,
  occurrences-IsDistinct "CapEff:" seen set.0,
  occurrences-IsDistinct "CapAmb:" seen set.0,
)

scanned-eq-ok :
    (failure : Option String) (seen : List String)
    → scanned failure seen ≡ ok tt
    → (failure ≡ none) × (length seen ≡ 4)
unfolding scanned
scanned-eq-ok (some e) seen h = absurd (ground (arith, h))
scanned-eq-ok none seen h = (refl, ground (arith, guard-eq-ok (length seen == 4) _ h))

-- A status is accepted only if it was read to its end, each of the four tags stands in front of exactly
-- one line, every line with the user IDs has four of them, none of which is 0, and every line with one of
-- the three capability sets has one set, which does not hold CAP_SYS_TIME.
pub parse_privileges-IsSafeLine :
    (lines : List String) (failure : Option String)
    → parse_privileges lines failure ≡ ok tt
    → (failure ≡ none)
      × All (λ line. IsSafeLine (fields line)) lines
      × (tag_count "Uid:" (map fields lines) ≡ 1)
      × (tag_count "CapPrm:" (map fields lines) ≡ 1)
      × (tag_count "CapEff:" (map fields lines) ≡ 1)
      × (tag_count "CapAmb:" (map fields lines) ≡ 1)
unfolding parse_privileges occurrences capability_tags member
parse_privileges-IsSafeLine lines failure h =
    let (seen, read, end) = >>=-eq-ok (status_lines lines []) _ h in
    let (whole, four) = scanned-eq-ok failure seen end in
    let (safe, set, counts) = status_lines-eq-ok lines [] read (tt, tt) in
    let once = each_once seen set four in
    (
      whole,
      safe,
      omega (arith, counts "Uid:" refl, once.0),
      omega (arith, counts "CapPrm:" refl, once.1),
      omega (arith, counts "CapEff:" refl, once.2),
      omega (arith, counts "CapAmb:" refl, once.3),
    )
