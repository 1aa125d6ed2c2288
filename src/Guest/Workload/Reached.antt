-- ===== src/Guest/Workload/Reached.antt =====
-- What holds of the services in every state that the manager of internal/guestagent/process_linux.go reaches.
use epoch.Base.{
  ℕ, suc, ◌≤◌, String, false, none, some, List, [], ◌∷◌, length, length-delete, All, member, delete,
  IsDistinct, delete-IsDistinct, has_key, lookup, str_eq, ◌≡◌, ◌≢◌, refl, sym, subst, ap, arith,
  if-elim,
}
use epoch.Guest.{ActionRequest, ServiceRequest, ServiceResult}
use epoch.Guest.Manifest.{Manifest}
use epoch.Guest.Workload.{Machine, Owned, Manager}
use epoch.Guest.Workload.Actions.{Answer, action}
use epoch.Guest.Workload.Actions.Kept.{services-action}
use epoch.Guest.Workload.Services.{stop, stop_all}
use epoch.Guest.Workload.Services.Names.{names, stop-names, stop_all-names}
use epoch.Guest.Workload.Starts.{start}
use epoch.Guest.Workload.Starts.Services.{EndsWith, start-EndsWith}

length-names : (m : List (String × Owned)) → length (names m) ≡ length m
length-names [] = refl
length-names (x ∷ m) = ap suc (length-names m)

member-names :
    (k : String) (m : List (String × Owned)) → has_key k m ≡ false → member k (names m) ≡ false
unfolding has_key lookup member
member-names k [] h = refl
member-names k ((j, p) ∷ m) h = ground (arith, member-names k m)

All-delete {ℓ} :
    (P : String → Type ℓ) (k : String) (ks : List String) → All P ks → All P (delete k ks)
unfolding delete
All-delete P k [] h = tt
All-delete P k (j ∷ ks) h =
    if-elim (All P) (str_eq j k) _ _ (λ _. All-delete P k ks h.1)
      (λ _. (h.0, All-delete P k ks h.1))

module _ {W : Type 0} (machine : Machine W) (manifest : Manifest) where
  -- A call of the manager, from one state to the next.
  pub data Step (m : Manager W) (m' : Manager W) : Type 0 where
    acted : (req : ActionRequest) → (action machine manifest req m).1 ≡ m' → Step m m'
    started :
        (fuel : ℕ) (req : ServiceRequest) (out : Answer ServiceResult)
        → start machine manifest fuel req m ≡ some (out, m')
        → Step m m'
    stopped : (req : ServiceRequest) → (stop machine req m).1 ≡ m' → Step m m'
    stopped_all : (stop_all machine m).1 ≡ m' → Step m m'

  -- The states that a manager comes to from none of its services.
  pub data Reached (first : Manager W) : Manager W → Type 0 where
    begun : Reached first first
    after : (m m' : Manager W) → Reached first m → Step m m' → Reached first m'

  abbrev pub IsDeclared : String → Type 0
  IsDeclared k = lookup k manifest.services ≢ none

  -- Running services have different names, which the manifest declares, and are at most four.
  abbrev pub AreInOrder : List String → Type 0
  AreInOrder ks = IsDistinct ks × (length ks ≤ 4) × All IsDeclared ks

  delete-AreInOrder : (k : String) (ks : List String) → AreInOrder ks → AreInOrder (delete k ks)
  delete-AreInOrder k ks (h, few, declared) = (
    delete-IsDistinct k ks h,
    omega (arith, length-delete k ks),
    All-delete IsDeclared k ks declared,
  )

  start-AreInOrder :
      (fuel : ℕ) (req : ServiceRequest) (m : Manager W)
      → AreInOrder (names m.services)
      → EndsWith machine manifest (λ s. AreInOrder (names s)) (start machine manifest fuel req m)
  start-AreInOrder fuel req m h =
      start-EndsWith machine manifest (λ s. AreInOrder (names s)) fuel req m h
        (λ absent room declared p. (
          (member-names req.service m.services absent, h.0),
          omega (arith, length-names m.services),
          (declared, h.2),
        ))

  Step-AreInOrder :
      (m m' : Manager W)
      → Step m m'
      → AreInOrder (names m.services)
      → AreInOrder (names m'.services)
  Step-AreInOrder m m' (acted req e) h =
      subst (λ (n : Manager W). AreInOrder (names n.services)) e
        (subst (λ (s : List (String × Owned)). AreInOrder (names s))
          (sym (services-action machine manifest req m)) h)
  Step-AreInOrder m m' (started fuel req out e) h =
      subst (EndsWith machine manifest (λ s. AreInOrder (names s))) e
        (start-AreInOrder fuel req m h)
  Step-AreInOrder m m' (stopped req e) h =
      subst (λ (n : Manager W). AreInOrder (names n.services)) e
        (stop-names machine AreInOrder delete-AreInOrder req m h)
  Step-AreInOrder m m' (stopped_all e) h =
      subst (λ (n : Manager W). AreInOrder (names n.services)) e
        (stop_all-names machine AreInOrder delete-AreInOrder m h)

  -- In every state that a manager without services comes to by actions, starts and stops, in whatever
  -- order and whatever the machine answers, the running services have different names, each declared by
  -- the manifest, and are at most four.
  pub Reached-AreInOrder :
      (first m : Manager W) → first.services ≡ [] → Reached first m → AreInOrder (names m.services)
  Reached-AreInOrder first m fresh begun =
      subst (λ (s : List (String × Owned)). AreInOrder (names s)) (sym fresh) (tt, omega arith, tt)
  Reached-AreInOrder first m fresh (after m1 m' before step) =
      Step-AreInOrder m1 m step (Reached-AreInOrder first m1 fresh before)
