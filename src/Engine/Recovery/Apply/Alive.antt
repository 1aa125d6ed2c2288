-- ===== src/Engine/Recovery/Apply/Alive.antt =====
-- Recover of internal/engine/recover.go while the VMM of the run is alive.
use epoch.Base.{
  String, Bool, true, false, Option, none, some, ◌≡◌, sym, subst, ok, Result-cases, Option-cases,
  inl, inr, str_eq, if-elim,
}
use epoch.Engine.Runtime.{ProcessIdentity, Manifest, Operator, Files}
use epoch.Engine.Recovery.{Evidence, FileRead, content, refused, not_found, load_manifest}
use epoch.Engine.Recovery.Apply.{
  Host, Recovery, Answer, recover, recover_locked, after_lock, take_lock, after_root, with_root,
  with_manifest, with_process, recheck, failed, refused_with, without_process,
}

-- A property of the world that taking the lock, making the runtime root and stopping a process keep.
pub record IsHeld {W : Type 0} (host : Host W) (P : W → Type 0) : Type 0 where
  pub by_root : (w : W) → P w → P (host.ensure_root w).1
  pub by_lock : (w : W) → P w → P (host.acquire_lock w).1
  pub by_stop : (p : ProcessIdentity) (w : W) → P w → P (host.stop_owned p w).1

module _ {W : Type 0} (evidence : Evidence W) (host : Host W) (files : Files W) (op : Operator)
    (P : W → Type 0) (held : IsHeld host P) where
  module _ (m : Manifest) (p : ProcessIdentity) (reason : String) (apply : Bool)
      (alive : (w : W) → host.inspect p w ≡ ok (true, reason)) where
    abbrev Left : Answer × W → Type 0
    Left a = P a.1

    recheck-Left :
        (out : Recovery) (r : Option String × W)
        → P r.1
        → Left (recheck evidence host files op out m p r)
    unfolding recheck failed
    recheck-Left out (some e, w) h = h
    recheck-Left out (none, w) h = rw (recheck, alive w) h

    process-Left :
        (out : Recovery) (w : W)
        → P w
        → Left (with_process evidence host files op apply out m p (host.inspect p w) w)
    unfolding with_process
    process-Left out w h = rw (alive w) (
        if-elim Left apply _ _ (λ _. recheck-Left _ (host.stop_owned p w) (held.by_stop p w h))
          (λ _. h))

    locked-Left :
        (id boot : String) (w : W)
        → m.process ≡ some p
        → P w
        → Left (recover_locked evidence host files op apply m id boot w)
    unfolding recover_locked
    locked-Left id boot w known h =
        let out : Recovery = record {
          run_id = id;
          applied = apply;
          process_alive = false;
          can_clean = false;
          message = "";
          report = none;
        } in
        subst
          (λ q. Left (elim q [
            | some p' ↦ with_process evidence host files op apply out m p' (host.inspect p' w) w
            | none ↦ without_process evidence host files op apply out m boot w
          ]))
          (sym known) (process-Left out w h)

    after_lock-Left :
        (id boot : String) (r : Option String × W)
        → m.process ≡ some p
        → P r.1
        → Left (after_lock evidence host files op apply m id boot r)
    unfolding after_lock refused_with
    after_lock-Left id boot (some e, w) known h = h
    after_lock-Left id boot (none, w) known h = locked-Left id boot w known h

    lock-Left :
        (id boot : String) (f : FileRead (Unit {0})) (w : W)
        → m.process ≡ some p
        → P w
        → Left (take_lock evidence host files op apply m id boot f w)
    unfolding take_lock refused_with
    lock-Left id boot (content _) w known h =
        after_lock-Left id boot (host.acquire_lock w) known (held.by_lock w h)
    lock-Left id boot (refused e) w known h = h
    lock-Left id boot not_found w known h =
        if-elim Left (str_eq m.host_boot_id boot) _ _ (λ _. h)
          (λ _.
            if-elim Left apply _ _
              (λ _. after_lock-Left id boot (host.acquire_lock w) known (held.by_lock w h))
              (λ _. locked-Left id boot w known h))

    after_root-Left :
        (id boot : String) (r : Option String × W)
        → m.process ≡ some p
        → P r.1
        → Left (after_root evidence host files op apply m id boot r)
    unfolding after_root refused_with
    after_root-Left id boot (some e, w) known h = h
    after_root-Left id boot (none, w) known h = lock-Left id boot (host.lock_state w) w known h

    root-Left :
        (id boot : String) (f : FileRead (Unit {0})) (w : W)
        → m.process ≡ some p
        → P w
        → Left (with_root evidence host files op apply m id boot f w)
    unfolding with_root refused_with
    root-Left id boot (content _) w known h = lock-Left id boot (host.lock_state w) w known h
    root-Left id boot (refused e) w known h = h
    root-Left id boot not_found w known h =
        if-elim Left (str_eq m.host_boot_id boot) _ _ (λ _. h)
          (λ _.
            if-elim Left apply _ _
              (λ _. after_root-Left id boot (host.ensure_root w) known (held.by_root w h))
              (λ _. locked-Left id boot w known h))

    manifest-Left :
        (id : String) (w : W)
        → m.process ≡ some p
        → P w
        → Left (with_manifest evidence host files op apply id (ok m) w)
    unfolding with_manifest refused_with
    manifest-Left id w known h = elim (Result-cases (host.boot_id w)) [
      | inl (boot, e) ↦ rw (with_manifest, e) (root-Left id boot (host.root_state w) w known h)
      | inr (bad, e) ↦ rw (with_manifest, e) h
    ]

  -- While the inspection finds the VMM of the run alive, recovery removes no file and rewrites no evidence,
  -- also with `apply`: what taking the lock, making the runtime root and stopping the process keep of the
  -- world is kept.
  pub recover_contained :
      (m : Manifest) (p : ProcessIdentity) (reason : String) (apply : Bool)
      → ((w : W) → host.inspect p w ≡ ok (true, reason))
      → (id : String) (w : W) → load_manifest evidence op id w ≡ ok m
      → m.process ≡ some p
      → P w
      → P (recover evidence host files op apply id w).1
  unfolding recover refused_with
  recover_contained m p reason apply alive id w loaded known h =
      elim (Option-cases (host.privilege w)) [
        | inr (e, q) ↦ rw (recover, q) h
        | inl q ↦ rw (recover, q, loaded) (manifest-Left m p reason apply alive id w known h)
      ]
