-- ===== src/Guest/Workload/Services/Reaped.antt =====
-- Stop and StopAll of internal/guestagent/process_linux.go forget no process that may still run.
use epoch.Base.{
  ℕ, String, true, false, ◌||◌, Option, none, some, List, [], ◌∷◌, All, lookup, has_key, member,
  IsDistinct, str_eq, Result, ok, err, ◌≡◌, ◌⊎◌, inl, inr, refl, subst, ◌∙◌, arith, eq_iff, if-elim,
  if◌then◌else◌, Bool-cases,
}
use epoch.Guest.{ClockObservation, ServiceRequest, ServiceResult}
use epoch.Guest.Workload.{
  Machine, Owned, Manager, WorkloadError, not_running, exited_before_stop, service_quota, terminate,
}
use epoch.Guest.Workload.Frame.{terminate-kept}
use epoch.Guest.Workload.Reaping.{IsDone, IsReaping, Reaps, terminate-Reaps}
use epoch.Guest.Workload.Actions.{Answer}
use epoch.Guest.Workload.Services.{
  blank_service, without, expecting, service_seen, returned, stopped, stop_found, stop_begun, stop,
  one_stopped, stop_each, expected_all, stop_all,
}
use epoch.Guest.Workload.Services.Names.{names}

module _ {W : Type 0} (machine : Machine W) (reaping : IsReaping machine) where
  -- The service of a name is still kept, or its process is done.
  abbrev pub IsTracked : String → ℕ → List (String × Owned) → W → Type 0
  IsTracked k p services w = (has_key k services ≡ true) ⊎ IsDone machine p w

  returned-IsTracked :
      (k : String) (p : ℕ) (r : ServiceResult) (es : List WorkloadError) (m : Manager W)
      → IsTracked k p m.services m.world
      → IsTracked k p (returned machine r es m).1.services (returned machine r es m).1.world
  unfolding returned service_seen
  returned-IsTracked k p r es m (inl kept) = inl (ground (arith, kept))
  returned-IsTracked k p r es m (inr done) =
      inr (ground (arith, (reaping.persists p).by_clock m.world done))

has_key-without :
    (k j : String) (s : List (String × Owned))
    → has_key k (without j s) ≡ (if str_eq j k then false else has_key k s)
unfolding has_key lookup without
has_key-without k j [] = ground arith
has_key-without k j ((i, p) ∷ s) =
    ground (arith, has_key-without k j s, eq_iff i j, eq_iff i k, eq_iff j k)

has_key-expecting :
    (k j : String) (s : List (String × Owned)) → has_key k (expecting j s) ≡ has_key k s
unfolding has_key lookup expecting
has_key-expecting k j [] = refl
has_key-expecting k j ((i, p) ∷ s) = ground (arith, has_key-expecting k j s)

has_key-some :
    (k : String) (s : List (String × Owned)) {q : Owned} → lookup k s ≡ some q → has_key k s ≡ true
unfolding has_key
has_key-some k s h = ground arith

module _ {W : Type 0} (machine : Machine W) (reaping : IsReaping machine) (k : String) (p : ℕ) where
  -- An entry for the name is one for the process.
  abbrev IsFor : String → ℕ → Type 0
  IsFor name p' = (str_eq name k ≡ false) ⊎ (p' ≡ p)

  -- A service that is taken off after its process was terminated.
  without-IsTracked :
      (name : String) (p' : ℕ) (services : List (String × Owned)) (w : W)
      → IsTracked machine reaping k p services w
      → IsFor name p'
      → IsDone machine p' w
      → IsTracked machine reaping k p (without name services) w
  without-IsTracked name p' services w (inr done) which reaped = inr done
  without-IsTracked name p' services w (inl kept) (inl other) reaped =
      inl (ground (arith, has_key-without k name services))
  without-IsTracked name p' services w (inl kept) (inr same) reaped =
      inr (subst (λ (n : ℕ). IsDone machine n w) same reaped)

  stopped-IsTracked :
      (name : String) (p' : ℕ) (r : ServiceResult) (services : List (String × Owned))
      (out : Option WorkloadError × W)
      → IsTracked machine reaping k p services out.1
      → IsFor name p'
      → Reaps machine reaping p' out
      → IsTracked machine reaping k p
          (stopped machine name p' r services out).1.services
          (stopped machine name p' r services out).1.world
  unfolding stopped
  stopped-IsTracked name p' r services (some e, w) h which reaps =
      returned-IsTracked machine reaping k p r (e ∷ []) (record { services = services; world = w })
        h
  stopped-IsTracked name p' r services (none, w) h which (inl (e, bad)) =
      absurd (ground (arith, bad))
  stopped-IsTracked name p' r services (none, w) h which (inr done) =
      let m : Manager W = record { services = without name services; world = w } in
      let l = machine.look p' w in
      let off = without-IsTracked name p' services w h which done in
      if-elim
        (λ (o : Answer ServiceResult × Manager W).
          IsTracked machine reaping k p o.1.services o.1.world)
        (l.stdout_quota || l.stderr_quota) _ _
        (λ _. returned-IsTracked machine reaping k p r (service_quota ∷ []) m off)
        (λ _.
          returned-IsTracked machine reaping k p (record r { stdout = l.stdout; stderr = l.stderr })
            [] m off)

  stop_found-IsTracked :
      (name : String) (r : ServiceResult) (o : Option Owned) (services : List (String × Owned))
      (w : W)
      → has_key k services ≡ true
      → ((q : Owned) → o ≡ some q → IsFor name q.process)
      → IsTracked machine reaping k p
          (stop_found machine name r o services w).1.services
          (stop_found machine name r o services w).1.world
  unfolding stop_found
  stop_found-IsTracked name r none services w h which =
      returned-IsTracked machine reaping k p r (not_running ∷ [])
        (record { services = services; world = w }) (inl h)
  stop_found-IsTracked name r (some q) services w h which =
      if-elim
        (λ (o : Answer ServiceResult × Manager W).
          IsTracked machine reaping k p o.1.services o.1.world)
        (machine.look q.process w).done _ _
        (λ _.
          returned-IsTracked machine reaping k p r (exited_before_stop ∷ [])
            (record { services = services; world = w }) (inl h))
        (λ _.
          stopped-IsTracked name q.process r (expecting name services)
            (terminate machine q.process w) (inl (has_key-expecting k name services ∙ h))
            (which q refl) (terminate-Reaps machine reaping q.process w))

  one_process :
      (services : List (String × Owned)) (q q' : Owned)
      → lookup k services ≡ some q
      → q.process ≡ p
      → lookup k services ≡ some q'
      → q'.process ≡ p
  one_process services q q' found same e = ground (arith, found, e, same)

  stop_begun-IsTracked :
      (req : ServiceRequest) (services : List (String × Owned))
      (out : Result String ClockObservation × W) (q : Owned)
      → lookup k services ≡ some q
      → q.process ≡ p
      → IsTracked machine reaping k p
          (stop_begun machine req services out).1.services
          (stop_begun machine req services out).1.world
  unfolding stop_begun
  stop_begun-IsTracked req services (err e, w) q found same = inl (has_key-some k services found)
  stop_begun-IsTracked req services (ok v, w) q found same =
      stop_found-IsTracked req.service (record (blank_service req.service) { before = v })
        (lookup req.service services) services w (has_key-some k services found)
        (λ q' e. elim (Bool-cases (str_eq req.service k)) [
          | inr other ↦ inl other
          | inl here ↦ inr (
              one_process services q q' found same (
                subst (λ (name : String). lookup name services ≡ some q')
                  ((eq_iff req.service k).0 here) e))
        ])

  abbrev AreFor : List (String × Owned) → Type 0
  AreFor = All (λ e. IsFor e.0 e.1.process)

  one_stopped-IsTracked :
      (name : String) (p' : ℕ) (services : List (String × Owned)) (out : Option WorkloadError × W)
      → IsTracked machine reaping k p services out.1
      → IsFor name p'
      → Reaps machine reaping p' out
      → IsTracked machine reaping k p
          (one_stopped machine name p' services out).1.services
          (one_stopped machine name p' services out).1.world
  unfolding one_stopped
  one_stopped-IsTracked name p' services (some e, w) h which reaps = h
  one_stopped-IsTracked name p' services (none, w) h which (inl (e, bad)) =
      absurd (ground (arith, bad))
  one_stopped-IsTracked name p' services (none, w) h which (inr done) =
      without-IsTracked name p' services w h which done

  stop_each-IsTracked :
      (rest : List (String × Owned)) (m : Manager W)
      → AreFor rest
      → IsTracked machine reaping k p m.services m.world
      → IsTracked machine reaping k p
          (stop_each machine rest m).1.services
          (stop_each machine rest m).1.world
  unfolding stop_each
  stop_each-IsTracked [] m each h = h
  stop_each-IsTracked ((name, q) ∷ rest) m each h = stop_each-IsTracked rest _ each.1 (
      one_stopped-IsTracked name q.process m.services (terminate machine q.process m.world)
        (onwards h) each.0 (terminate-Reaps machine reaping q.process m.world))
    where
      onwards :
          IsTracked machine reaping k p m.services m.world
          → IsTracked machine reaping k p m.services (terminate machine q.process m.world).1
      onwards (inl kept) = inl kept
      onwards (inr done) =
          inr
            (terminate-kept machine (IsDone machine p) (reaping.persists p) q.process m.world done)

  no_other-AreFor :
      (s : List (String × Owned)) → member k (names s) ≡ false → AreFor (expected_all machine s)
  unfolding member expected_all
  no_other-AreFor [] h = tt
  no_other-AreFor ((name, q) ∷ s) h = (inl (ground arith), no_other-AreFor s (ground arith))

  distinct-AreFor :
      (s : List (String × Owned)) (q : Owned)
      → IsDistinct (names s)
      → lookup k s ≡ some q
      → q.process ≡ p
      → AreFor (expected_all machine s)
  unfolding lookup expected_all
  distinct-AreFor [] q h found same = tt
  distinct-AreFor ((name, q') ∷ s) q h found same = elim (Bool-cases (str_eq name k)) [
    | inr other ↦ (inl other, distinct-AreFor s q h.1 (ground (arith, found, other)) same)
    | inl here ↦ (
      inr (ground (arith, found, here, same)),
      no_other-AreFor s
          (subst (λ (n : String). member n (names s) ≡ false) ((eq_iff name k).0 here) h.0),
    )
  ]

  has_key-expected_all :
      (s : List (String × Owned)) → has_key k (expected_all machine s) ≡ has_key k s
  unfolding has_key lookup expected_all
  has_key-expected_all [] = refl
  has_key-expected_all ((name, q) ∷ s) = ground (arith, has_key-expected_all s)

-- A manager whose services have different names never forgets a process that may still run: after a Stop of
-- any service, and after StopAll, each service that ran before either is still kept or has its process
-- done.
pub stop_forgets_nothing :
    {W : Type 0} (machine : Machine W) (reaping : IsReaping machine) (k : String) (q : Owned)
    (req : ServiceRequest) (m : Manager W)
    → lookup k m.services ≡ some q
    → IsDistinct (names m.services)
    → IsTracked machine reaping k q.process
        (stop machine req m).1.services
        (stop machine req m).1.world
      × IsTracked machine reaping k q.process
          (stop_all machine m).1.services
          (stop_all machine m).1.world
unfolding stop stop_all
stop_forgets_nothing machine reaping k q req m found distinct = (
  stop_begun-IsTracked machine reaping k q.process req m.services (machine.read_clock m.world) q
      found refl,
  stop_each-IsTracked machine reaping k q.process (expected_all machine m.services)
      (record m { services = expected_all machine m.services })
      (distinct-AreFor machine reaping k q.process m.services q distinct found refl)
      (inl (
        has_key-expected_all machine reaping k q.process m.services
        ∙ has_key-some k m.services found)),
)
