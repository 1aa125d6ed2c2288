-- ===== src/Tests/Preparations.antt =====
-- The theorem on an admitted plan, for files whose reads give eight bytes and a hash that is always the same.
use epoch.Base.{String, true, none, some, [], ◌∷◌, pos, ok, refl, has_key, byte_length}
use epoch.Config.{Config, Paths, defaults}
use epoch.Config.Bounded.{Reading}
use epoch.Artifact.{ImageFile, ImageManifest, Store}
use epoch.Artifact.Copy.{more, last, copy_chunks}
use epoch.Engine.Preparation.{Plan, prepare}
use epoch.Engine.Preparation.Sound.{IsAdmitted, prepare-IsAdmitted}
use epoch.Guest.Manifest.{validate_manifest, check_command}
use epoch.Guest.Manifest.Paths.{is_clean_absolute, base_name}
use epoch.Scenario.Names.{is_workload_identifier}
use epoch.Tests.Plans.{accepted}
use epoch.Tests.Sessions.{guest_manifest}

abbrev digest : String
digest = "00000000000000000000000000000000000000000000000000000000000000aa"

-- Paths that are as short as they are asked for, and lie apart.
abbrev paths : Paths
paths = record {
  join = λ parts. "/run/epoch/vsock.sock";
  rel = λ a b. some "../other";
  dir = λ p. "/images";
  clean = λ p. p;
  is_abs = λ p. true;
  abs = λ p. some p;
  home = none;
}

abbrev reading : Reading
reading = record {
  lstat = λ p. ok (record { regular = true; size = pos 8 });
  open_stat = λ p. ok (record { regular = true; size = pos 8 });
  read_all = λ n p. ok (1 ∷ 2 ∷ []);
}

abbrev image_file : ImageFile
image_file = record {
  path = "/images/file";
  sha256 = digest;
  size_bytes = pos 8;
  source_identity = "built here";
  checksum_origin = "locally-observed";
}

abbrev image : ImageManifest
image = record {
  api_version = "epoch-image/v1";
  id = "base";
  architecture = "x86_64";
  kernel = image_file;
  rootfs = image_file;
  firecracker_version = "1.16.1";
  agent_version = "1";
  agent_protocol = "epoch-guest/v1";
  agent_sha256 = digest;
  workload_id = "clock";
  workload_version = "1";
  workload_manifest_path = "/images/clock.json";
  workload_manifest_sha256 = digest;
  recipe_revision = "r1";
  transformations = "install agent" ∷ [];
}

abbrev store : Store
store = record {
  reading = reading;
  paths = paths;
  check_regular = λ p. none;
  open_stat = λ p. ok (record { regular = true; size = pos 8 });
  reads = λ n p. more (1 ∷ 2 ∷ 3 ∷ []) ∷ last (4 ∷ 5 ∷ 6 ∷ 7 ∷ 8 ∷ []) ∷ [];
  hash = λ b. digest;
  decode_image = λ b. some image;
  decode_workload = λ b. some guest_manifest;
  trim_space = λ s. s;
  to_lower = λ s. s;
}

abbrev config : Config
config = record defaults { evidence_dir = "/evidence"; runtime_root = "/run/epoch" }

abbrev admitted : Plan
admitted = record {
  scenario = accepted;
  input = 1 ∷ 2 ∷ [];
  image = record { manifest = image; manifest_sha256 = digest; workload = guest_manifest };
}

prepare-IsAdmitted_example : IsAdmitted store config admitted
unfolding prepare byte_length is_workload_identifier copy_chunks validate_manifest is_clean_absolute
    check_command base_name has_key
prepare-IsAdmitted_example =
    prepare-IsAdmitted store (λ b. ok accepted) (λ dir id. "/images/base.json") config "plan.json"
      refl
