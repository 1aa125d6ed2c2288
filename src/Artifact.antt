-- ===== src/Artifact.antt =====
-- internal/artifact/artifact.go: prepared images, which are checked against their manifest and never fetched.
pub mod Copy
pub mod Verified
use epoch.Base.{
  ℕ, suc, ◌*◌, ◌^◌, Bytes, String, byte_length, code, codes, Bool, true, false, not, ◌&&◌, ◌||◌,
  Option, none, some, List, [], ◌∷◌, ◌++◌, length, all, member, leb, ltb, leb_ℤ, ltb_ℤ, ◌==◌, ℤ,
  pos, ◌+ℤ◌, wrap64, str_eq, if◌then◌else◌, Result, ok, err, ◌>>=◌, ◌>>◌, guard,
}
use epoch.Scenario.Names.{is_workload_identifier, is_digit}
use epoch.Config.{Paths}
use epoch.Config.Bounded.{Reading, ReadError, Stat, read_bounded}
use epoch.Guest.Manifest
use epoch.Guest.Manifest.{ManifestError, validate_manifest}
use epoch.Guest.Server.Session.{protocol_version}
use Copy.{CopyError, Chunk, copy_chunks}

-- File
pub record ImageFile : Type 0 where
  pub path : String
  pub sha256 : String
  pub size_bytes : ℤ
  pub source_identity : String
  pub checksum_origin : String

-- Manifest, with the fields of Agent, Workload and Recipe that Load looks at.
pub record ImageManifest : Type 0 where
  pub api_version : String
  pub id : String
  pub architecture : String
  pub kernel : ImageFile
  pub rootfs : ImageFile
  pub firecracker_version : String
  pub agent_version : String
  pub agent_protocol : String
  pub agent_sha256 : String
  pub workload_id : String
  pub workload_version : String
  pub workload_manifest_path : String
  pub workload_manifest_sha256 : String
  pub recipe_revision : String
  pub transformations : List String

pub record Prepared : Type 0 where
  pub manifest : ImageManifest
  pub manifest_sha256 : String
  pub workload : Manifest.Manifest

pub data ArtifactError : Type 0 where
  invalid_image_id malformed unsupported_identity incomplete_identity : ArtifactError
  too_many_transformations empty_transformation invalid_metadata size_mismatch : ArtifactError
  digest_mismatch no_manifest_path workload_digest_mismatch workload_mismatch : ArtifactError
  not_regular open_failed : String → ArtifactError
  read_error : ReadError → ArtifactError
  copy_error : CopyError → ArtifactError
  workload_error : ManifestError → ArtifactError

-- The files, for CheckRegular (`none` where it finds nothing wrong), Stat on an open file and the reads from it
-- up to a limit; sha256 in hexadecimal; the decoders of the two manifests; and strings.TrimSpace and
-- strings.ToLower.
pub record Store : Type 0 where
  pub reading : Reading
  pub paths : Paths
  pub check_regular : String → Option String
  pub open_stat : String → Result String Stat
  pub reads : ℤ → String → List Chunk
  pub hash : Bytes → String
  pub decode_image : Bytes → Option ImageManifest
  pub decode_workload : Bytes → Option Manifest.Manifest
  pub trim_space : String → String
  pub to_lower : String → String

is_hex : ℕ → Bool
unfolding is_digit
is_hex c = is_digit c || (leb b'a' c && leb c b'f') || (leb b'A' c && leb c b'F')

module _ (store : Store) where
  -- ValidDigest
  unfoldable pub valid_digest : String → Bool
  unfolding is_hex
  valid_digest s = length (codes s) == 64 && (all is_hex (codes s) && str_eq s (store.to_lower s))

  regular : String → Result ArtifactError (Unit {0})
  regular path = elim (store.check_regular path) [ none ↦ ok tt | some e ↦ err (not_regular e) ]

  opened : Result String Stat → Result ArtifactError Stat
  opened (ok st) = ok st
  opened (err e) = err (open_failed e)

  copied : Result CopyError Bytes → Result ArtifactError Bytes
  copied (ok b) = ok b
  copied (err e) = err (copy_error e)

  bounded : Result ReadError Bytes → Result ArtifactError Bytes
  bounded (ok b) = ok b
  bounded (err e) = err (read_error e)

  accepted : Result ManifestError (Unit {0}) → Result ArtifactError (Unit {0})
  accepted (ok u) = ok tt
  accepted (err e) = err (workload_error e)

  present : {A : Type 0} → Option A → Result ArtifactError A
  present none = err malformed
  present (some a) = ok a

  -- VerifyFile
  unfoldable pub verify_file : ImageFile → Result ArtifactError (Unit {0})
  unfolding regular opened copied wrap64 ◌+ℤ◌
  verify_file a = do
    regular a.path
    st ← opened (store.open_stat a.path)
    guard (st.regular && (leb_ℤ st.size a.size_bytes && leb_ℤ a.size_bytes st.size)) size_mismatch
    b ← copied (copy_chunks [] (store.reads (wrap64 (a.size_bytes +ℤ pos 1)) a.path))
    guard
        (leb_ℤ (pos (length b)) a.size_bytes
          && (leb_ℤ a.size_bytes (pos (length b)) && str_eq (store.hash b) a.sha256))
        digest_mismatch

  -- resolve
  unfoldable pub resolve : String → String → String
  resolve dir path =
      if store.paths.is_abs path then store.paths.clean path else store.paths.join (dir ∷ path ∷ [])

  abbrev image_version : String
  image_version = "epoch-image/v1"

  identity_rules : String → ImageManifest → Result ArtifactError (Unit {0})
  unfolding valid_digest
  identity_rules id m = do
    guard
        (str_eq m.api_version image_version
          && (str_eq m.id id
              && (str_eq m.architecture "x86_64" && str_eq m.firecracker_version "1.16.1")))
        unsupported_identity
    guard
        (not (str_eq m.agent_version "")
          && (str_eq m.agent_protocol protocol_version
              && (valid_digest m.agent_sha256
                  && (is_workload_identifier m.workload_id
                      && (not (str_eq m.workload_version "")
                          && (valid_digest m.workload_manifest_sha256
                              && (not (str_eq m.recipe_revision "")
                                  && not (length m.transformations == 0))))))))
        incomplete_identity
    guard (leb (length m.transformations) 64) too_many_transformations

  change_rules : List String → Result ArtifactError (Unit {0})
  change_rules [] = ok tt
  change_rules (c ∷ rest) = do
    guard (not (str_eq (store.trim_space c) "") && leb (byte_length c) 1024) empty_transformation
    change_rules rest

  abbrev pub origins : List String
  origins = "locally-observed" ∷ "upstream-published" ∷ []

  metadata_ok : ℤ → ImageFile → Bool
  unfolding valid_digest member
  metadata_ok max f =
      not (str_eq f.path "")
      && (valid_digest f.sha256
          && (ltb_ℤ (pos 0) f.size_bytes
              && (leb_ℤ f.size_bytes max
                  && (not (str_eq f.source_identity "") && member f.checksum_origin origins))))

  -- The round of Load on the kernel or the root file system: the file with its resolved path.
  checked_file : String → ℤ → ImageFile → Result ArtifactError ImageFile
  unfolding metadata_ok verify_file resolve
  checked_file base max f = do
    guard (metadata_ok max f) invalid_metadata
    let g = record f { path = resolve (store.paths.dir base) f.path }
    verify_file g
    ok g

  -- The workload manifest of an image, by its path and digest.
  load_workload : ImageManifest → String → Result ArtifactError Manifest.Manifest
  unfolding regular bounded present accepted read_bounded
  load_workload m path = do
    regular path
    w ← bounded (read_bounded store.reading path 1048576)
    guard (str_eq (store.hash w) m.workload_manifest_sha256) workload_digest_mismatch
    workload ← present (store.decode_workload w)
    accepted (validate_manifest workload)
    guard (str_eq workload.id m.workload_id && str_eq workload.version m.workload_version)
        workload_mismatch
    ok workload

  -- Load, for the path of the manifest in the directory of the configuration
  unfoldable pub load_from : String → String → ℤ → Result ArtifactError Prepared
  unfolding regular bounded present identity_rules change_rules checked_file load_workload resolve
      read_bounded
  load_from path id max_disk = do
    regular path
    b ← bounded (read_bounded store.reading path 32768)
    m ← present (store.decode_image b)
    identity_rules id m
    change_rules m.transformations
    kernel ← checked_file path (pos 134217728) m.kernel
    rootfs ← checked_file path max_disk m.rootfs
    guard (not (str_eq m.workload_manifest_path "")) no_manifest_path
    let manifest_path = resolve (store.paths.dir path) m.workload_manifest_path
    workload ← load_workload m manifest_path
    ok (record {
      manifest = record m {
        kernel = kernel;
        rootfs = rootfs;
        workload_manifest_path = manifest_path;
      };
      manifest_sha256 = store.hash b;
      workload = workload;
    })

  -- Load; `path` is filepath.Join(dir, id + ".json")
  unfoldable pub load : String → String → ℤ → Result ArtifactError Prepared
  unfolding load_from
  load path id max_disk = do
    guard (is_workload_identifier id) invalid_image_id
    load_from path id max_disk
