-- ===== src/Guest/Workload/Starts/Refines.antt =====
-- Start and Stop of internal/guestagent/process_linux.go implement the set of running services.
use epoch.Base.{
  ℕ, String, Bool, true, false, ◌||◌, Option, none, some, List, [], ◌∷◌, length, leb, lookup,
  has_key, member, Result, ok, err, ◌≡◌, inr, refl, sym, subst, ap, ◌∙◌, arith, if-elim,
}
use epoch.Guest.{ClockObservation, ServiceRequest, ServiceResult}
use epoch.Guest.Manifest.{Manifest, Service}
use epoch.Guest.Workload.{Machine, Owned, Manager, launch_failed, undeclared_service, start_refused}
use epoch.Guest.Workload.Actions.{Answer}
use epoch.Guest.Workload.Services.{blank_service, stop}
use epoch.Guest.Workload.Services.Names.{names}
use epoch.Guest.Workload.Services.Refines.{
  returned-error-Implements, returned-Implements, stop-Implements,
}
use epoch.Guest.Workload.ServiceSet.{add_service, drop_service, Implements}
use epoch.Guest.Workload.Starts.{
  Readiness, ready, unready, concluded, start_launched, start_declared, start_begun, start,
}
use epoch.Guest.Workload.Starts.Services.{EndsWith, ready_loop-EndsWith}

length-names : (s : List (String × Owned)) → length (names s) ≡ length s
length-names [] = refl
length-names (x ∷ s) = omega (arith, length-names s)

has_key-names : (k : String) (s : List (String × Owned)) → member k (names s) ≡ has_key k s
unfolding has_key lookup member
has_key-names k [] = refl
has_key-names k ((j, p) ∷ s) = ground (arith, has_key-names k s)

add_service_lem :
    (k : String) (s : List (String × Owned))
    → (has_key k s || leb 4 (length s)) ≡ false
    → add_service true k (names s) ≡ some (k ∷ names s)
unfolding add_service
add_service_lem k s room = ground (arith, has_key-names k s, length-names s)

module _ {W : Type 0} (machine : Machine W) (manifest : Manifest) where
  -- The answer of a start that did not run out of rounds.
  abbrev pub MayImplement :
      Option (List String) → List String → Option (Answer ServiceResult × Manager W) → Type 0
  MayImplement next ks none = Unit
  MayImplement next ks (some out) = Implements next ks out

  concluded-MayImplement :
      (next : Option (List String)) (ks ks' : List String) (r : ServiceResult)
      (o : Option (Readiness × Manager W))
      → next ≡ some ks'
      → EndsWith machine manifest (λ s. names s ≡ ks') o
      → MayImplement next ks (concluded machine manifest r o)
  unfolding concluded
  concluded-MayImplement next ks ks' r none made ends = tt
  concluded-MayImplement next ks ks' r (some (unready e, m)) made ends =
      returned-Implements machine next ks r (e ∷ []) m (made ∙ ap some (sym ends))
  concluded-MayImplement next ks ks' r (some (ready, m)) made ends =
      returned-Implements machine next ks (record r { running = true }) [] m
        (made ∙ ap some (sym ends))

  start_launched-MayImplement :
      (fuel : ℕ) (name : String) (spec : Service) (r : ServiceResult)
      (services : List (String × Owned)) (out : Result String ℕ × W)
      → add_service true name (names services) ≡ some (name ∷ names services)
      → MayImplement
          (add_service true name (names services))
          (names services)
          (start_launched machine manifest fuel name spec r services out)
  unfolding start_launched
  start_launched-MayImplement fuel name spec r services (err e, w) made =
      returned-error-Implements machine (add_service true name (names services)) (names services) r
        (launch_failed e) [] (record { services = services; world = w }) refl
  start_launched-MayImplement fuel name spec r services (ok p, w) made =
      concluded-MayImplement (add_service true name (names services)) (names services)
        (name ∷ names services) r _ made
        (ready_loop-EndsWith machine manifest (λ s. names s ≡ name ∷ names services) fuel spec _
          refl)

  -- lookup in the manifest, as the set's test of a declared name
  abbrev pub is_declared : Option Service → Bool
  is_declared none = false
  is_declared (some _) = true

  start_declared-MayImplement :
      (fuel : ℕ) (req : ServiceRequest) (spec : Option Service) (r : ServiceResult) (m : Manager W)
      → MayImplement
          (add_service (is_declared spec) req.service (names m.services))
          (names m.services)
          (start_declared machine manifest fuel req spec r m)
  unfolding start_declared
  start_declared-MayImplement fuel req none r m =
      returned-error-Implements machine (add_service false req.service (names m.services))
        (names m.services) r undeclared_service [] m refl
  start_declared-MayImplement fuel req (some spec) r m =
      let next = add_service true req.service (names m.services) in
      if-elim
        (λ (o : Option (Answer ServiceResult × Manager W)). MayImplement next (names m.services) o)
        (has_key req.service m.services || leb 4 (length m.services)) _ _
        (λ _. returned-error-Implements machine next (names m.services) r start_refused [] m refl)
        (λ room.
          start_launched-MayImplement fuel req.service spec r m.services _
            (add_service_lem req.service m.services room))

  start_begun-MayImplement :
      (fuel : ℕ) (req : ServiceRequest) (services : List (String × Owned))
      (out : Result String ClockObservation × W)
      → MayImplement
          (add_service
            (is_declared (lookup req.service manifest.services))
            req.service
            (names services))
          (names services)
          (start_begun machine manifest fuel req services out)
  unfolding start_begun
  start_begun-MayImplement fuel req services (err e, w) = inr (refl, λ p. ground (arith, p))
  start_begun-MayImplement fuel req services (ok v, w) =
      start_declared-MayImplement fuel req (lookup req.service manifest.services)
        (record (blank_service req.service) { before = v })
        (record { services = services; world = w })

  start-MayImplement :
      (fuel : ℕ) (req : ServiceRequest) (m : Manager W)
      → MayImplement
          (add_service
            (is_declared (lookup req.service manifest.services))
            req.service
            (names m.services))
          (names m.services)
          (start machine manifest fuel req m)
  unfolding start
  start-MayImplement fuel req m =
      start_begun-MayImplement fuel req m.services (machine.read_clock m.world)

  -- The manager implements the set of running services: an answer of Start, and one of Stop, either takes
  -- the names of the running services where adding or dropping the service takes the set, or leaves them
  -- and is an error; so each succeeds only where the set allows the operation.
  pub manager_refines :
      (fuel : ℕ) (req : ServiceRequest) (m : Manager W) (out : Answer ServiceResult × Manager W)
      → start machine manifest fuel req m ≡ some out
      → Implements
          (add_service
            (is_declared (lookup req.service manifest.services))
            req.service
            (names m.services))
          (names m.services)
          out
        × Implements
            (drop_service req.service (names m.services))
            (names m.services)
            (stop machine req m)
  manager_refines fuel req m out started = (
    subst
        (MayImplement
          (add_service (is_declared (lookup req.service manifest.services)) req.service
            (names m.services))
          (names m.services))
        started (start-MayImplement fuel req m),
    stop-Implements machine req m,
  )
