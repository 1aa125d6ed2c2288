-- ===== src/Engine/Runtime/Removal.antt =====
-- What removeOwnedRuntime of internal/engine/recover.go may remove.
use epoch.Base.{
  String, Bool, true, false, not, Option, none, some, List, [], ◌∷◌, ◌≡◌, ◌⊎◌, inl, inr, refl,
  Result, ok, err, ◌>>=◌, >>=-eq-ok, Result-cases, ok-injective, subst, member, any, arith, All,
  Bool-cases, Option-cases, if◌then◌else◌,
}
use epoch.Engine.Runtime.{
  Manifest, Operator, Files, Presence, present, absent, unreadable, runtime_names, owns_runtime,
  check_entry, collect_paths, unless_failed, remove_all, remove_collected, remove_present,
  remove_owned_runtime,
}

abbrev pub is_unknown : String → Bool
is_unknown name = not (member name runtime_names)

module _ {W : Type 0} (files : Files W) where
  -- The run's directory, or one of the recognised names in it.
  abbrev pub IsOwnedPath : String → W → String → Type 0
  IsOwnedPath dir w path =
      (path ≡ dir)
      ⊎ ((name : String) × (member name runtime_names ≡ true)
          × (files.owned_child dir name w ≡ ok path))

  check_entry_unknown :
      (dir name : String) (w : W)
      → is_unknown name ≡ true
      → check_entry files dir name w ≡ err "unrecognized runtime entry"
  unfolding check_entry
  check_entry_unknown dir name w h = ground arith

  check_entry-owned :
      (dir name path : String) (w : W)
      → check_entry files dir name w ≡ ok path
      → (member name runtime_names ≡ true) × (files.owned_child dir name w ≡ ok path)
  unfolding check_entry
  check_entry-owned dir name path w h = ground arith

  collect_unknown :
      (dir : String) (names : List String) (w : W)
      → any is_unknown names ≡ true
      → (e : String) × (collect_paths files dir names w ≡ err e)
  unfolding collect_paths
  collect_unknown dir [] w h = cc
  collect_unknown dir (n ∷ rest) w h =
      let later = collect_unknown dir rest w in
      elim (Bool-cases (is_unknown n)) [
        | inl bad ↦ ("unrecognized runtime entry", rw (check_entry_unknown dir n w bad))
        | inr fine ↦ elim (Result-cases (check_entry files dir n w)) [
          | inr (e, p) ↦ (e, rw p)
          | inl (path, p) ↦ let (e, q) = later (ground arith) in (e, rw (p, q))
        ]
      ]

  collect_owned :
      (dir : String) (names paths : List String) (w : W)
      → collect_paths files dir names w ≡ ok paths
      → All (IsOwnedPath dir w) paths
  unfolding collect_paths
  collect_owned dir [] paths w h = subst (All (IsOwnedPath dir w)) (ok-injective h) tt
  collect_owned dir (n ∷ rest) paths w h =
      let later = collect_owned dir rest in
      let (path, p, q) = >>=-eq-ok (check_entry files dir n w) _ h in
      let (found, r, s) = >>=-eq-ok (collect_paths files dir rest w) _ q in
      let owned = check_entry-owned dir n path w p in
      subst (All (IsOwnedPath dir w)) (ok-injective s) (inr (n, owned.0, owned.1), later found w r)

  module _ (P : W → Type 0) where
    unless_failed-keeps :
        (e : Option String) (v : W) (later : Option String × W)
        → P v
        → P later.1
        → P (unless_failed e v later).1
    unfolding unless_failed
    unless_failed-keeps none v later now rest = rest
    unless_failed-keeps (some e) v later now rest = now

    abbrev Keeps : String → Type 0
    Keeps path = (v : W) → P v → P (files.remove path v).1

    remove_all-keeps :
        (paths : List String) (w : W) → All Keeps paths → P w → P (remove_all files paths w).1
    unfolding remove_all
    remove_all-keeps [] w k h = h
    remove_all-keeps (path ∷ rest) w k h =
        let (e, v) = files.remove path w in
        unless_failed-keeps e v _ (k.0 w h) (remove_all-keeps rest v k.1 (k.0 w h))

    module _ (m : Manifest) (w : W)
        (owned : (path : String) → IsOwnedPath m.runtime_dir w path → Keeps path) where
      All-kept : (paths : List String) → All (IsOwnedPath m.runtime_dir w) paths → All Keeps paths
      All-kept [] h = tt
      All-kept (path ∷ rest) h = (owned path h.0, All-kept rest h.1)

      remove_collected-keeps :
          (r : Result String (List String))
          → ((paths : List String) → r ≡ ok paths → All (IsOwnedPath m.runtime_dir w) paths)
          → P w
          → P (remove_collected files m.runtime_dir r w).1
      unfolding remove_collected
      remove_collected-keeps (err e) all h = h
      remove_collected-keeps (ok paths) all h =
          let v = remove_all files paths w in
          let k = remove_all-keeps paths w (All-kept paths (all paths refl)) h in
          unless_failed-keeps v.0 v.1 _ k (owned m.runtime_dir (inl refl) v.1 k)

      gather : Result String (List String) → Result String (List String)
      gather listing = listing >>= λ names. collect_paths files m.runtime_dir names w

      gather_owned :
          (listing : Result String (List String)) (paths : List String)
          → gather listing ≡ ok paths
          → All (IsOwnedPath m.runtime_dir w) paths
      unfolding gather
      gather_owned (ok names) paths h = collect_owned m.runtime_dir names paths w h
      gather_owned (err e) paths h = cc

      remove_present-keeps : P w → P (remove_present files m.runtime_dir w).1
      unfolding remove_present gather
      remove_present-keeps h = elim (Option-cases (files.private_dir m.runtime_dir w)) [
        | inl p ↦
            rw (p, remove_present)
              (remove_collected-keeps _ (gather_owned (files.read_dir m.runtime_dir w)) h)
        | inr (e, p) ↦ rw (p, remove_present) h
      ]

  -- Whatever the removal of the run's own directory and of the four recognised entries in it keeps of
  -- the world is kept by removeOwnedRuntime: it removes nothing else.
  pub removal_confined :
      (P : W → Type 0) (op : Operator) (m : Manifest) (w : W)
      → ((path : String)
          → IsOwnedPath m.runtime_dir w path
          → (v : W) → P v
          → P (files.remove path v).1)
      → P w
      → P (remove_owned_runtime files op m w).1
  unfolding remove_owned_runtime
  removal_confined P op m w owned h =
      if-keeps (owns_runtime op m) _ _ (by_presence (files.presence m.runtime_dir w) refl) h
    where
      if-keeps : (b : Bool) (x y : Option String × W) → P x.1 → P y.1 → P (if b then x else y).1
      if-keeps true x y hx hy = hx
      if-keeps false x y hx hy = hy

      by_presence :
          (q : Presence)
          → files.presence m.runtime_dir w ≡ q
          → P
              (elim q as (λ _. Option String × W) [
                | absent ↦ (none, w)
                | unreadable e ↦ (some e, w)
                | present ↦ remove_present files m.runtime_dir w
              ]).1
      by_presence present e = remove_present-keeps P m w owned h
      by_presence absent e = h
      by_presence (unreadable text) e = h

  -- An entry that is not recognised stops the removal before anything is removed: the world is left
  -- as it was, and an error is returned.
  pub removal_all_or_nothing :
      (op : Operator) (m : Manifest) (w : W) (names : List String)
      → owns_runtime op m ≡ true
      → files.presence m.runtime_dir w ≡ present
      → files.read_dir m.runtime_dir w ≡ ok names
      → any is_unknown names ≡ true
      → (e : String) × (remove_owned_runtime files op m w ≡ (some e, w))
  unfolding remove_owned_runtime remove_present remove_collected
  removal_all_or_nothing op m w names owns there listed bad =
      let (e, q) = collect_unknown m.runtime_dir names w bad in
      elim (Option-cases (files.private_dir m.runtime_dir w)) [
        | inl p ↦ (e, rw (owns, there, remove_present, p, listed, q))
        | inr (d, p) ↦ (d, rw (owns, there, remove_present, p))
      ]
