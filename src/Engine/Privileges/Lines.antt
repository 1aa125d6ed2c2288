-- ===== src/Engine/Privileges/Lines.antt =====
-- What a line of a status that parsePrivileges of internal/hostcheck/hostcheck.go accepts says.
use epoch.Base.{
  ℕ, String, Bool, true, false, not, ◌||◌, some, List, [], ◌∷◌, ◌==◌, length, all, All, str_eq,
  member, eq_iff, ok, ◌>>◌, guard, >>-eq-ok, guard-eq-ok, ok-injective, Bool-cases, Option-cases,
  ◌≡◌, ◌≢◌, ◌⊎◌, inl, inr, refl, sym, subst, arith,
}
use mathlib.Core.Bool.{false≢true}
use epoch.Json.Number.{parse_uint}
use epoch.Engine.Privileges.{
  PrivilegeError, parse_hex, is_user, may_set_time, capability_tags, capability, user_ids,
  status_line,
}

-- The fields behind a tag: four user IDs, none of them root.
abbrev pub AreUsers : List String → Type 0
AreUsers values =
    (length values ≡ 4) × All (λ v. (n : ℕ) × (parse_uint 32 v ≡ some n) × (n ≢ 0)) values

-- The fields behind a tag: one set of capabilities, without CAP_SYS_TIME.
abbrev pub IsHarmless : List String → Type 0
IsHarmless values =
    (v : String) × (n : ℕ) × (values ≡ v ∷ []) × (parse_hex v ≡ some n) × (may_set_time n ≡ false)

abbrev pub IsSafeLine : List String → Type 0
IsSafeLine [] = Unit
IsSafeLine (tag ∷ values) =
    (tag ≡ "Uid:" → AreUsers values) × (member tag capability_tags ≡ true → IsHarmless values)

user-ne-zero : (v : String) → is_user v ≡ true → (n : ℕ) × (parse_uint 32 v ≡ some n) × (n ≢ 0)
unfolding is_user
user-ne-zero v h = elim (Option-cases (parse_uint 32 v)) [
  | inl nothing ↦ absurd (ground (arith, h, nothing))
  | inr (n, found) ↦ (n, found, ground (arith, h, found))
]

users-ne-zero :
    (values : List String)
    → all is_user values ≡ true
    → All (λ v. (n : ℕ) × (parse_uint 32 v ≡ some n) × (n ≢ 0)) values
users-ne-zero [] h = tt
users-ne-zero (v ∷ rest) h =
    (user-ne-zero v (ground (arith, h)), users-ne-zero rest (ground (arith, h)))

user_ids-eq-ok : (values : List String) → user_ids values ≡ ok tt → AreUsers values
unfolding user_ids
user_ids-eq-ok values h =
    let parts = >>-eq-ok (guard (length values == 4) PrivilegeError.invalid_uid) _ h in
    (
      ground (arith, guard-eq-ok (length values == 4) _ parts.0),
      users-ne-zero values (guard-eq-ok _ _ parts.1),
    )

capability-eq-ok : (values : List String) → capability values ≡ ok tt → IsHarmless values
unfolding capability
capability-eq-ok [] h = absurd (ground (arith, h))
capability-eq-ok (v ∷ []) h = elim (Option-cases (parse_hex v)) [
  | inl nothing ↦ absurd (ground (arith, h, nothing))
  | inr (n, found) ↦ (v, n, refl, found, ground (arith, h, found))
]
capability-eq-ok (v ∷ w ∷ rest) h = absurd (ground (arith, h))

-- The four tags that are looked at.
abbrev pub watched : String → Bool
watched tag = str_eq tag "Uid:" || member tag capability_tags

-- A line adds its tag, which was not seen, or it has another tag and adds nothing.
abbrev pub IsNoted : List String → List String → List String → Type 0
IsNoted [] seen next = next ≡ seen
IsNoted (tag ∷ values) seen next =
    ((watched tag ≡ true) × (member tag seen ≡ false) × (next ≡ tag ∷ seen))
    ⊎ ((watched tag ≡ false) × (next ≡ seen))

uid_line :
    (tag : String) (values seen : List String) {next : List String}
    → str_eq tag "Uid:" ≡ true
    → (guard (not (member tag seen)) PrivilegeError.invalid_uid
        >> (user_ids values >> ok (tag ∷ seen)))
      ≡ ok next
    → IsSafeLine (tag ∷ values) × IsNoted (tag ∷ values) seen next
unfolding capability_tags member
uid_line tag values seen user h =
    let one = >>-eq-ok (guard (not (member tag seen)) PrivilegeError.invalid_uid) _ h in
    let two = >>-eq-ok (user_ids values) _ one.1 in
    let named = (eq_iff tag "Uid:").0 user in
    (
      (
        λ same. user_ids-eq-ok values two.0,
        λ cap. absurd (false≢true (subst (λ t. member t capability_tags ≡ true) named cap)),
      ),
      inl (
        ground (arith, user),
        ground (arith, guard-eq-ok (not (member tag seen)) _ one.0),
        sym (ok-injective two.1),
      ),
    )

capability_line :
    (tag : String) (values seen : List String) {next : List String}
    → str_eq tag "Uid:" ≡ false
    → member tag capability_tags ≡ true
    → (guard (not (member tag seen)) PrivilegeError.invalid_capability
        >> (capability values >> ok (tag ∷ seen)))
      ≡ ok next
    → IsSafeLine (tag ∷ values) × IsNoted (tag ∷ values) seen next
capability_line tag values seen other cap h =
    let one = >>-eq-ok (guard (not (member tag seen)) PrivilegeError.invalid_capability) _ h in
    let two = >>-eq-ok (capability values) _ one.1 in
    (
      (
        λ same. absurd (ground (arith, eq_iff tag "Uid:", same, other)),
        λ known. capability-eq-ok values two.0,
      ),
      inl (
        ground (arith, cap),
        ground (arith, guard-eq-ok (not (member tag seen)) _ one.0),
        sym (ok-injective two.1),
      ),
    )

pub status_line-eq-ok :
    (fs seen : List String) {next : List String}
    → status_line fs seen ≡ ok next
    → IsSafeLine fs × IsNoted fs seen next
unfolding status_line
status_line-eq-ok [] seen h = (tt, sym (ok-injective h))
status_line-eq-ok (tag ∷ values) seen h = elim (Bool-cases (str_eq tag "Uid:")) [
  | inl user ↦ uid_line tag values seen user (ground (arith, user, h))
  | inr other ↦ elim (Bool-cases (member tag capability_tags)) [
    | inl cap ↦ capability_line tag values seen other cap (ground (arith, other, cap, h))
    | inr neither ↦ (
      (
        λ same. absurd (ground (arith, eq_iff tag "Uid:", same, other)),
        λ known. absurd (ground (arith, known, neither)),
      ),
      inr (ground (arith, other, neither), ground (arith, other, neither, h)),
    )
  ]
]
