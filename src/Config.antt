-- ===== src/Config.antt =====
-- internal/config: the operator's configuration. Bounded is read.go.
pub mod Bounded
use epoch.Base.{
  ℕ, ◌+◌, ◌*◌, ◌^◌, Bytes, String, byte_length, code, codes, Bool, true, false, not, ◌&&◌, ◌||◌,
  Option, none, some, List, [], ◌∷◌, leb, leb_ℤ, ◌==◌, ℤ, pos, length, str_eq, has_key, lookup,
  if◌then◌else◌, Result, ok, err, ◌>>=◌, ◌>>◌, guard,
}
use epoch.Json.{Raw, null}

pub record Policy : Type 0 where
  pub max_vcpus : ℤ
  pub max_memory_mib : ℤ
  pub max_disk_bytes : ℤ
  pub reserve_bytes : ℤ
  pub max_timeout_ms : ℤ
  pub host_clock_threshold_ms : ℤ

pub record Config : Type 0 where
  pub api_version : String
  pub firecracker_path : String
  pub artifact_dir : String
  pub evidence_dir : String
  pub runtime_root : String
  pub guest_cid : ℕ
  pub guest_port : ℕ
  pub policy : Policy

abbrev pub config_version : String
config_version = "epoch-config/v1"

-- Defaults
abbrev pub defaults : Config
defaults = record {
  api_version = config_version;
  firecracker_path = "";
  artifact_dir = "";
  evidence_dir = "";
  runtime_root = "";
  guest_cid = 3;
  guest_port = 7000;
  policy = record {
    max_vcpus = pos 2;
    max_memory_mib = pos 2048;
    max_disk_bytes = pos (4 * 2 ^ 30);
    reserve_bytes = pos (5 * 2 ^ 30);
    max_timeout_ms = pos 600000;
    host_clock_threshold_ms = pos 250;
  };
}

pub data ConfigError : Type 0 where
  unsupported_version wrong_profile policy_outside_limits roots_not_separate root_too_long :
      ConfigError
  file_refused malformed path_missing no_home no_absolute_path : ConfigError
  field_required field_null : String → ConfigError

-- path/filepath and os.UserHomeDir
pub record Paths : Type 0 where
  pub join : List String → String
  pub rel : String → String → Option String
  pub dir : String → String
  pub clean : String → String
  pub is_abs : String → Bool
  pub abs : String → Option String
  pub home : Option String

-- strings.HasPrefix
unfoldable pub has_prefix : List ℕ → List ℕ → Bool
has_prefix [] cs = true
has_prefix (p ∷ ps) [] = false
has_prefix (p ∷ ps) (c ∷ cs) = c == p && has_prefix ps cs

in_range : ℤ → ℤ → ℤ → Bool
in_range low high x = leb_ℤ low x && leb_ℤ x high

unfoldable pub policy_within : Policy → Bool
unfolding in_range
policy_within p =
    in_range (pos 1) (pos 2) p.max_vcpus
    && (in_range (pos 128) (pos 2048) p.max_memory_mib
        && (in_range (pos 1) (pos 4294967296) p.max_disk_bytes
            && (leb_ℤ (pos 5368709120) p.reserve_bytes
                && (in_range (pos 1) (pos 600000) p.max_timeout_ms
                    && in_range (pos 1) (pos 60000) p.host_clock_threshold_ms))))

-- rejectNulls
unfoldable pub is_null : Raw → Bool
is_null r = elim r.decoded [ some null ↦ true | _ ↦ false ]

unfoldable pub reject_nulls : List (String × Raw) → Result ConfigError (Unit {0})
unfolding is_null
reject_nulls [] = ok tt
reject_nulls ((k, v) ∷ rest) = do guard (not (is_null v)) (field_null k); reject_nulls rest

require_fields : List (String × Raw) → List String → Result ConfigError (Unit {0})
require_fields fields [] = ok tt
require_fields fields (k ∷ rest) = do
  guard (has_key k fields) (field_required k)
  require_fields fields rest

-- (*p)[2:] of a path that begins with "~/" or "~\\"
unfoldable pub below_home : String → Option String
below_home (String.◌∷◌ c (String.◌∷◌ d rest)) =
    if code c == b'~' && (code d == b'/' || code d == 92) then some rest else none
below_home _ = none

abbrev long_name : String
long_name = "aaaaaaaaaaaaaaaaaaaaaaaaaaaaaaaa"

module _ (paths : Paths) where
  -- within
  unfoldable pub within : String → String → Bool
  unfolding has_prefix
  within parent child = elim (paths.rel parent child) [
    | none ↦ false
    | some r ↦ not (str_eq r "..") && not (has_prefix (codes "../") (codes r))
  ]

  -- Config.Validate
  unfoldable pub validate : Config → Result ConfigError (Unit {0})
  unfolding within policy_within
  validate c = do
    guard (str_eq c.api_version config_version) unsupported_version
    guard (c.guest_cid == 3 && c.guest_port == 7000) wrong_profile
    guard (policy_within c.policy) policy_outside_limits
    guard
        (not (
          str_eq c.runtime_root c.evidence_dir
          || within c.runtime_root c.evidence_dir
          || within c.evidence_dir c.runtime_root))
        roots_not_separate
    guard (leb (byte_length (paths.join (c.runtime_root ∷ long_name ∷ "vsock.sock" ∷ []))) 90)
        root_too_long

  found : {A : Type 0} → ConfigError → Option A → Result ConfigError A
  found e none = err e
  found e (some a) = ok a

  -- The round of Load on one of the four paths.
  expand : String → String → Result ConfigError String
  unfolding below_home found
  expand base p = if str_eq p "" then err path_missing else elim (below_home p) [
    | some rest ↦
        (found no_home paths.home >>= λ home. ok (paths.clean (paths.join (home ∷ rest ∷ []))))
    | none ↦
        if paths.is_abs p
        then ok (paths.clean p)
        else ok (paths.clean (paths.join (paths.dir base ∷ p ∷ [])))
  ]

  -- Load after ReadBounded: what jsonutil.Decode makes of the file over the defaults, its fields, and those
  -- of its policy, if there is one.
  unfoldable pub load_decoded :
      String
      → Option Config
      → Option (List (String × Raw))
      → Option (Option (List (String × Raw)))
      → Result ConfigError Config
  unfolding found require_fields reject_nulls expand validate
  load_decoded path decoded fields policy = do
    c ← found malformed decoded
    all_fields ← found malformed fields
    require_fields all_fields (
        "api_version" ∷ "firecracker_path" ∷ "artifact_manifest_dir" ∷ "evidence_dir"
        ∷ "runtime_root" ∷ [])
    reject_nulls all_fields
    elim policy [ none ↦ ok tt | some p ↦ found malformed p >>= reject_nulls ]
    base ← found no_absolute_path (paths.abs path)
    firecracker ← expand base c.firecracker_path
    artifacts ← expand base c.artifact_dir
    evidence ← expand base c.evidence_dir
    runtime ← expand base c.runtime_root
    let last = record c {
      firecracker_path = firecracker;
      artifact_dir = artifacts;
      evidence_dir = evidence;
      runtime_root = runtime;
    }
    validate last
    ok last
