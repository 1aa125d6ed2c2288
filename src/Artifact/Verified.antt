-- ===== src/Artifact/Verified.antt =====
-- What an image that Load of internal/artifact/artifact.go accepts has.
use epoch.Base.{
  Bytes, String, not, ◌&&◌, [], length, leb_ℤ, ◌≤ℤ◌, ℤ, pos, ◌+ℤ◌, wrap64, str_eq, Result, ok, err,
  guard, >>=-eq-ok, >>-eq-ok, guard-eq-ok, ok-injective, eq_of_parts, ◌≡◌, refl, subst, arith,
  eq_iff,
}
use epoch.Scenario.Names.{is_workload_identifier}
use epoch.Config.Bounded.{read_bounded}
use epoch.Guest.Manifest
use epoch.Guest.Manifest.{ManifestError, validate_manifest}
use epoch.Artifact.{
  ImageFile, ImageManifest, Prepared, size_mismatch, digest_mismatch, invalid_metadata,
  workload_digest_mismatch, workload_mismatch, no_manifest_path, invalid_image_id, accepted, Store,
  regular, opened, copied, bounded, present, verify_file, resolve, identity_rules, change_rules,
  metadata_ok, checked_file, load_workload, load_from, load,
}
use epoch.Artifact.Copy.{CopyError, copy_chunks}

module _ (store : Store) where
  copied-eq-ok : (r : Result CopyError Bytes) {b : Bytes} → copied store r ≡ ok b → r ≡ ok b
  unfolding copied
  copied-eq-ok (ok b) h = ground (arith, h)
  copied-eq-ok (err e) h = ground (arith, h)

  -- The bytes that are read from the file have its size and its digest.
  abbrev pub IsVerified : ImageFile → Type 0
  IsVerified f =
      (b : Bytes) × (copy_chunks [] (store.reads (wrap64 (f.size_bytes +ℤ pos 1)) f.path) ≡ ok b)
      × (f.size_bytes ≡ pos (length b))
      × (store.hash b ≡ f.sha256)

  verify_file-IsVerified : (f : ImageFile) → verify_file store f ≡ ok tt → IsVerified f
  unfolding verify_file
  verify_file-IsVerified f h =
      let one = >>-eq-ok (regular store f.path) _ h in
      let two = >>=-eq-ok (opened store (store.open_stat f.path)) _ one.1 in
      let three =
        >>-eq-ok
          (guard (two.0.regular && (leb_ℤ two.0.size f.size_bytes && leb_ℤ f.size_bytes two.0.size))
            size_mismatch)
          _ two.2 in
      let four =
        >>=-eq-ok
          (copied store (copy_chunks [] (store.reads (wrap64 (f.size_bytes +ℤ pos 1)) f.path))) _
          three.1 in
      let five =
        guard-eq-ok
          (leb_ℤ (pos (length four.0)) f.size_bytes
            && (leb_ℤ f.size_bytes (pos (length four.0)) && str_eq (store.hash four.0) f.sha256))
          digest_mismatch four.2 in
      (
        four.0,
        copied-eq-ok (copy_chunks [] (store.reads (wrap64 (f.size_bytes +ℤ pos 1)) f.path)) four.1,
        eq_of_parts f.size_bytes (pos (length four.0)) (ground (arith, five)),
        (eq_iff (store.hash four.0) f.sha256).0 (ground (arith, five)),
      )

  -- The metadata that Load accepts, for a file of at most `max` bytes.
  checked_file-eq-ok :
      (base : String) (max : ℤ) (f : ImageFile) {g : ImageFile}
      → checked_file store base max f ≡ ok g
      → IsVerified g × (g.size_bytes ≤ℤ max)
  unfolding checked_file metadata_ok
  checked_file-eq-ok base max f {g} h =
      let one = >>-eq-ok (guard (metadata_ok store max f) invalid_metadata) _ h in
      let file = record f { path = resolve store (store.paths.dir base) f.path } in
      let two = >>-eq-ok (verify_file store file) (ok file) one.1 in
      let same : file ≡ g = ok-injective two.1 in
      let accepted = guard-eq-ok (metadata_ok store max f) invalid_metadata one.0 in
      subst (λ (x : ImageFile). IsVerified x × (x.size_bytes ≤ℤ max)) same
        (verify_file-IsVerified file two.0, ground (arith, accepted))

  accepted-eq-ok : (r : Result ManifestError (Unit {0})) → accepted store r ≡ ok tt → r ≡ ok tt
  unfolding accepted
  accepted-eq-ok (ok u) h = refl
  accepted-eq-ok (err e) h = absurd (ground (arith, h))

  load_workload-eq-ok :
      (m : ImageManifest) (path : String) {w : Manifest.Manifest}
      → load_workload store m path ≡ ok w
      → (validate_manifest w ≡ ok tt) × (w.id ≡ m.workload_id)
  unfolding load_workload
  load_workload-eq-ok m path h =
      let one = >>-eq-ok (regular store path) _ h in
      let two = >>=-eq-ok (bounded store (read_bounded store.reading path 1048576)) _ one.1 in
      let three =
        >>-eq-ok
          (guard (str_eq (store.hash two.0) m.workload_manifest_sha256) workload_digest_mismatch) _
          two.2 in
      let four = >>=-eq-ok (present store (store.decode_workload two.0)) _ three.1 in
      let five = >>-eq-ok (accepted store (validate_manifest four.0)) _ four.2 in
      let six =
        >>-eq-ok
          (guard (str_eq four.0.id m.workload_id && str_eq four.0.version m.workload_version)
            workload_mismatch)
          (ok four.0) five.1 in
      let alike =
        guard-eq-ok (str_eq four.0.id m.workload_id && str_eq four.0.version m.workload_version)
          workload_mismatch six.0 in
      subst (λ (x : Manifest.Manifest). (validate_manifest x ≡ ok tt) × (x.id ≡ m.workload_id))
        (ok-injective six.1)
        (
          accepted-eq-ok (validate_manifest four.0) five.0,
          (eq_iff four.0.id m.workload_id).0 (ground (arith, alike)),
        )

  -- Verified files within their limits, and a valid workload manifest that is the one of the image.
  pub record IsTrusted (max_disk : ℤ) (p : Prepared) : Type 0 where
    pub kernel : IsVerified p.manifest.kernel
    pub kernel_size : p.manifest.kernel.size_bytes ≤ℤ pos 134217728
    pub rootfs : IsVerified p.manifest.rootfs
    pub rootfs_size : p.manifest.rootfs.size_bytes ≤ℤ max_disk
    pub workload : validate_manifest p.workload ≡ ok tt
    pub workload_id : p.workload.id ≡ p.manifest.workload_id

  load_from-IsTrusted :
      (path id : String) (max_disk : ℤ) {p : Prepared}
      → load_from store path id max_disk ≡ ok p
      → IsTrusted max_disk p
  unfolding load_from
  load_from-IsTrusted path id max_disk h =
      let one = >>-eq-ok (regular store path) _ h in
      let two = >>=-eq-ok (bounded store (read_bounded store.reading path 32768)) _ one.1 in
      let three = >>=-eq-ok (present store (store.decode_image two.0)) _ two.2 in
      let m = three.0 in
      let four = >>-eq-ok (identity_rules store id m) _ three.2 in
      let five = >>-eq-ok (change_rules store m.transformations) _ four.1 in
      let six = >>=-eq-ok (checked_file store path (pos 134217728) m.kernel) _ five.1 in
      let seven = >>=-eq-ok (checked_file store path max_disk m.rootfs) _ six.2 in
      let eight =
        >>-eq-ok (guard (not (str_eq m.workload_manifest_path "")) no_manifest_path) _ seven.2 in
      let nine =
        >>=-eq-ok
          (load_workload store m (resolve store (store.paths.dir path) m.workload_manifest_path)) _
          eight.1 in
      let kernel = checked_file-eq-ok path (pos 134217728) m.kernel six.1 in
      let rootfs = checked_file-eq-ok path max_disk m.rootfs seven.1 in
      let workload = load_workload-eq-ok m _ nine.1 in
      subst (IsTrusted max_disk) (ok-injective nine.2) (record {
        kernel = kernel.0;
        kernel_size = kernel.1;
        rootfs = rootfs.0;
        rootfs_size = rootfs.1;
        workload = workload.0;
        workload_id = workload.1;
      })

  pub load-IsTrusted :
      (path id : String) (max_disk : ℤ) {p : Prepared}
      → load store path id max_disk ≡ ok p
      → IsTrusted max_disk p
  unfolding load
  load-IsTrusted path id max_disk h =
      load_from-IsTrusted path id max_disk
        (>>-eq-ok (guard (is_workload_identifier id) invalid_image_id) _ h).1
