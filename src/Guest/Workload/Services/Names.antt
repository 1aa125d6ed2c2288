-- ===== src/Guest/Workload/Services/Names.antt =====
-- The names of the running services under Stop and StopAll of internal/guestagent/process_linux.go.
use epoch.Base.{
  ℕ, String, ◌||◌, Option, none, some, List, [], ◌∷◌, lookup, delete, Result, ok, err, ◌≡◌, refl,
  sym, subst, ap, arith, if-elim,
}
use epoch.Guest.{ClockObservation, ServiceRequest, ServiceResult}
use epoch.Guest.Workload.{
  Machine, Owned, Manager, WorkloadError, not_running, exited_before_stop, service_quota, terminate,
}
use epoch.Guest.Workload.Actions.{Answer}
use epoch.Guest.Workload.Services.{
  blank_service, without, expecting, service_seen, returned, stopped, stop_found, stop_begun, stop,
  one_stopped, stop_each, expected_all, stop_all,
}

abbrev pub names : List (String × Owned) → List String
names [] = []
names ((k, p) ∷ m) = k ∷ names m

pub names-without :
    (k : String) (m : List (String × Owned)) → names (without k m) ≡ delete k (names m)
unfolding without delete
names-without k [] = refl
names-without k ((j, p) ∷ m) = ground (arith, names-without k m)

pub names-expecting : (k : String) (m : List (String × Owned)) → names (expecting k m) ≡ names m
unfolding expecting
names-expecting k [] = refl
names-expecting k ((j, p) ∷ m) = ap (λ (ks : List String). j ∷ ks) (names-expecting k m)

module _ {W : Type 0} (machine : Machine W) where
  names-expected_all : (m : List (String × Owned)) → names (expected_all machine m) ≡ names m
  unfolding expected_all
  names-expected_all [] = refl
  names-expected_all ((k, p) ∷ m) = ap (λ (ks : List String). k ∷ ks) (names-expected_all m)

  pub services-returned :
      (r : ServiceResult) (es : List WorkloadError) (m : Manager W)
      → (returned machine r es m).1.services ≡ m.services
  unfolding returned service_seen
  services-returned r es m = ground arith

  -- What a predicate on the names must have that Stop and StopAll keep.
  module _ (P : List String → Type 0)
      (by_delete : (k : String) (ks : List String) → P ks → P (delete k ks)) where
    returned-names :
        (r : ServiceResult) (es : List WorkloadError) (m : Manager W)
        → P (names m.services)
        → P (names (returned machine r es m).1.services)
    returned-names r es m h =
        subst (λ (s : List (String × Owned)). P (names s)) (sym (services-returned r es m)) h

    without-names :
        (name : String) (services : List (String × Owned))
        → P (names services)
        → P (names (without name services))
    without-names name services h =
        subst P (sym (names-without name services)) (by_delete name (names services) h)

    stopped-names :
        (name : String) (p : ℕ) (r : ServiceResult) (services : List (String × Owned))
        (out : Option WorkloadError × W)
        → P (names services)
        → P (names (stopped machine name p r services out).1.services)
    unfolding stopped
    stopped-names name p r services (some e, w) h =
        returned-names r (e ∷ []) (record { services = services; world = w }) h
    stopped-names name p r services (none, w) h =
        let m : Manager W = record { services = without name services; world = w } in
        let l = machine.look p w in
        if-elim (λ (o : Answer ServiceResult × Manager W). P (names o.1.services))
          (l.stdout_quota || l.stderr_quota) _ _
          (λ _. returned-names r (service_quota ∷ []) m (without-names name services h))
          (λ _.
            returned-names (record r { stdout = l.stdout; stderr = l.stderr }) [] m
              (without-names name services h))

    stop_found-names :
        (name : String) (r : ServiceResult) (o : Option Owned) (services : List (String × Owned))
        (w : W)
        → P (names services)
        → P (names (stop_found machine name r o services w).1.services)
    unfolding stop_found
    stop_found-names name r none services w h =
        returned-names r (not_running ∷ []) (record { services = services; world = w }) h
    stop_found-names name r (some p) services w h =
        if-elim (λ (o : Answer ServiceResult × Manager W). P (names o.1.services))
          (machine.look p.process w).done _ _
          (λ _.
            returned-names r (exited_before_stop ∷ []) (record { services = services; world = w })
              h)
          (λ _.
            stopped-names name p.process r (expecting name services) (terminate machine p.process w)
              (subst P (sym (names-expecting name services)) h))

    stop_begun-names :
        (req : ServiceRequest) (services : List (String × Owned))
        (out : Result String ClockObservation × W)
        → P (names services)
        → P (names (stop_begun machine req services out).1.services)
    unfolding stop_begun
    stop_begun-names req services (err e, w) h = h
    stop_begun-names req services (ok v, w) h =
        stop_found-names req.service (record (blank_service req.service) { before = v })
          (lookup req.service services) services w h

    pub stop-names :
        (req : ServiceRequest) (m : Manager W)
        → P (names m.services)
        → P (names (stop machine req m).1.services)
    unfolding stop
    stop-names req m h = stop_begun-names req m.services (machine.read_clock m.world) h

    one_stopped-names :
        (name : String) (p : ℕ) (services : List (String × Owned)) (out : Option WorkloadError × W)
        → P (names services)
        → P (names (one_stopped machine name p services out).1.services)
    unfolding one_stopped
    one_stopped-names name p services (some e, w) h = h
    one_stopped-names name p services (none, w) h = without-names name services h

    stop_each-names :
        (rest : List (String × Owned)) (m : Manager W)
        → P (names m.services)
        → P (names (stop_each machine rest m).1.services)
    unfolding stop_each
    stop_each-names [] m h = h
    stop_each-names ((name, p) ∷ rest) m h =
        stop_each-names rest _
          (one_stopped-names name p.process m.services (terminate machine p.process m.world) h)

    pub stop_all-names :
        (m : Manager W) → P (names m.services) → P (names (stop_all machine m).1.services)
    unfolding stop_all
    stop_all-names m h =
        stop_each-names (expected_all machine m.services) _
          (subst P (sym (names-expected_all m.services)) h)
