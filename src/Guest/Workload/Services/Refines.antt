-- ===== src/Guest/Workload/Services/Refines.antt =====
-- Stop of internal/guestagent/process_linux.go implements the removal of a name from the set of services.
use epoch.Base.{
  ℕ, String, true, ◌||◌, Option, none, some, List, [], ◌∷◌, lookup, member, delete, Result, ok, err,
  ◌≡◌, inl, inr, refl, sym, ap, ◌∙◌, arith, Bool-cases, Result-cases, if-elim, str_eq,
}
use epoch.Guest.{ClockObservation, ServiceRequest, ServiceResult}
use epoch.Guest.Workload.{
  Machine, Owned, Manager, WorkloadError, not_running, exited_before_stop, service_quota, terminate,
}
use epoch.Guest.Workload.Actions.{Answer}
use epoch.Guest.Workload.Services.{
  blank_service, without, expecting, service_seen, returned, stopped, stop_found, stop_begun, stop,
}
use epoch.Guest.Workload.Services.Names.{names, names-without, names-expecting, services-returned}
use epoch.Guest.Workload.ServiceSet.{drop_service, Implements}

member-lookup :
    (k : String) (s : List (String × Owned)) {q : Owned}
    → lookup k s ≡ some q
    → member k (names s) ≡ true
unfolding lookup member
member-lookup k [] h = ground (arith, h)
member-lookup k ((j, p) ∷ s) {q} h = elim (Bool-cases (str_eq j k)) [
  | inl here ↦ ground (arith, here)
  | inr other ↦ ground (arith, member-lookup k s {q = q} (ground (arith, h, other)))
]

dropped :
    (name : String) (ks : List String) (services : List (String × Owned))
    → names services ≡ ks
    → member name ks ≡ true
    → drop_service name ks ≡ some (names (without name services))
unfolding drop_service
dropped name ks services same here =
    ground (arith, here, names-without name services, same, ap (delete name) same)

module _ {W : Type 0} (machine : Machine W) where
  -- What is returned with an error, and what is returned after a step of the set.
  pub returned-error-Implements :
      (next : Option (List String)) (ks : List String) (r : ServiceResult) (e : WorkloadError)
      (es : List WorkloadError) (m : Manager W)
      → names m.services ≡ ks
      → Implements next ks (returned machine r (e ∷ es) m)
  unfolding returned service_seen
  returned-error-Implements next ks r e es m same = inr (
    ap names (services-returned machine r (e ∷ es) m) ∙ same,
    λ p. elim (Result-cases (machine.read_clock m.world).0) [
      | inl (v, seen) ↦ ground (arith, p, seen)
      | inr (bad, seen) ↦ ground (arith, p, seen)
    ],
  )

  pub returned-Implements :
      (next : Option (List String)) (ks : List String) (r : ServiceResult) (es : List WorkloadError)
      (m : Manager W)
      → next ≡ some (names m.services)
      → Implements next ks (returned machine r es m)
  returned-Implements next ks r es m made = inl (
      made
      ∙ ap (λ (s : List (String × Owned)). some (names s)) (sym (services-returned machine r es m)))

  stopped-Implements :
      (name : String) (p : ℕ) (r : ServiceResult) (services : List (String × Owned))
      (ks : List String) (out : Option WorkloadError × W)
      → names services ≡ ks
      → member name ks ≡ true
      → Implements (drop_service name ks) ks (stopped machine name p r services out)
  unfolding stopped
  stopped-Implements name p r services ks (some e, w) same here =
      returned-error-Implements (drop_service name ks) ks r e []
        (record { services = services; world = w }) same
  stopped-Implements name p r services ks (none, w) same here =
      let m : Manager W = record { services = without name services; world = w } in
      let l = machine.look p w in
      if-elim (λ (o : Answer ServiceResult × Manager W). Implements (drop_service name ks) ks o)
        (l.stdout_quota || l.stderr_quota) _ _
        (λ _.
          returned-Implements (drop_service name ks) ks r (service_quota ∷ []) m
            (dropped name ks services same here))
        (λ _.
          returned-Implements (drop_service name ks) ks
            (record r { stdout = l.stdout; stderr = l.stderr }) [] m
            (dropped name ks services same here))

  stop_found-Implements :
      (name : String) (r : ServiceResult) (o : Option Owned) (services : List (String × Owned))
      (w : W)
      → lookup name services ≡ o
      → Implements
          (drop_service name (names services))
          (names services)
          (stop_found machine name r o services w)
  unfolding stop_found
  stop_found-Implements name r none services w found =
      returned-error-Implements (drop_service name (names services)) (names services) r not_running
        [] (record { services = services; world = w }) refl
  stop_found-Implements name r (some p) services w found =
      let next = drop_service name (names services) in
      if-elim (λ (o : Answer ServiceResult × Manager W). Implements next (names services) o)
        (machine.look p.process w).done _ _
        (λ _.
          returned-error-Implements next (names services) r exited_before_stop []
            (record { services = services; world = w }) refl)
        (λ _.
          stopped-Implements name p.process r (expecting name services) (names services)
            (terminate machine p.process w) (names-expecting name services)
            (member-lookup name services found))

  stop_begun-Implements :
      (req : ServiceRequest) (services : List (String × Owned))
      (out : Result String ClockObservation × W)
      → Implements
          (drop_service req.service (names services))
          (names services)
          (stop_begun machine req services out)
  unfolding stop_begun
  stop_begun-Implements req services (err e, w) = inr (refl, λ p. ground (arith, p))
  stop_begun-Implements req services (ok v, w) =
      stop_found-Implements req.service (record (blank_service req.service) { before = v })
        (lookup req.service services) services w refl

  pub stop-Implements :
      (req : ServiceRequest) (m : Manager W)
      → Implements
          (drop_service req.service (names m.services))
          (names m.services)
          (stop machine req m)
  unfolding stop
  stop-Implements req m = stop_begun-Implements req m.services (machine.read_clock m.world)
