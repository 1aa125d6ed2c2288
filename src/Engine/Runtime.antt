-- ===== src/Engine/Runtime.antt =====
-- internal/engine/types.go and recover.go: the ownership manifest of a run, removeOwnedRuntime and
-- the admission of a new run.
pub mod Removal
use Prim.Native.String.{◌++◌ as join_text}
use epoch.Base.{
  ℕ, String, Bool, true, false, not, ◌&&◌, ◌||◌, Option, none, some, List, [], ◌∷◌, ◌==◌, ℤ, Result,
  ok, err, ◌>>=◌, ◌>>◌, guard, member, str_eq, if◌then◌else◌,
}
use epoch.Scenario.Names.{is_run_id}
use epoch.Engine.Outcome.{Stage, CleanupStatus, complete, incomplete, Report}

-- firecracker.ProcessIdentity, as far as the engine reads it.
pub record ProcessIdentity : Type 0 where
  pub pid : ℕ
  pub uid : ℕ
  pub host_boot_id : String

-- Manifest: the ownership record that is persisted before resources exist.
pub record Manifest : Type 0 where
  pub api_version : String
  pub run_id : String
  pub host_boot_id : String
  pub uid : ℕ
  pub stage : Stage
  pub runtime_dir : String
  pub process : Option ProcessIdentity
  pub cleanup : CleanupStatus

-- The operator's configuration and identity: config.Config and os.Getuid.
pub record Operator : Type 0 where
  pub runtime_root : String
  pub evidence_dir : String
  pub uid : ℕ
  pub threshold_ns : ℤ

-- filepath.Join of a clean directory and a name
unfoldable pub join_path : String → String → String
join_path dir name = join_text dir (join_text "/" name)

pub data Presence : Type 0 where
  present absent : Presence
  unreadable : String → Presence

pub data Kind : Type 0 where
  regular socket directory special : Kind

-- The file system below the engine: os and internal/safefs, over the state `W` of the world.
pub record Files (W : Type 0) : Type 0 where
  pub presence : String → W → Presence
  pub private_dir : String → W → Option String
  pub read_dir : String → W → Result String (List String)
  pub owned_child : String → String → W → Result String String
  pub kind_of : String → W → Result String Kind
  pub remove : String → W → Option String × W

abbrev pub runtime_names : List String
runtime_names = "rootfs.ext4" ∷ "rootfs.ext4.partial" ∷ "firecracker.json" ∷ "vsock.sock" ∷ []

removable : Kind → Bool
removable regular = true
removable socket = true
removable _ = false

unfoldable pub owns_runtime : Operator → Manifest → Bool
unfolding join_path
owns_runtime op m =
    is_run_id m.run_id
    && (str_eq m.runtime_dir (join_path op.runtime_root m.run_id) && m.uid == op.uid)

-- The first error stops the removal.
unless_failed : {W : Type 0} → Option String → W → Option String × W → Option String × W
unless_failed none w later = later
unless_failed (some e) w later = (some e, w)

module _ {W : Type 0} (files : Files W) where
  check_entry : String → String → W → Result String String
  unfolding removable
  check_entry dir name w = do
    guard (member name runtime_names) "unrecognized runtime entry"
    path ← files.owned_child dir name w
    kind ← files.kind_of path w
    guard (removable kind) "unexpected runtime entry type"
    ok path

  -- The loop that collects the paths: every entry is checked before any is removed.
  unfoldable pub collect_paths : String → List String → W → Result String (List String)
  unfolding check_entry
  collect_paths dir [] w = ok []
  collect_paths dir (name ∷ rest) w = do
    path ← check_entry dir name w
    paths ← collect_paths dir rest w
    ok (path ∷ paths)

  unfoldable pub remove_all : List String → W → Option String × W
  unfolding unless_failed
  remove_all [] w = (none, w)
  remove_all (path ∷ rest) w =
      let (e, w') = files.remove path w in unless_failed e w' (remove_all rest w')

  remove_collected : String → Result String (List String) → W → Option String × W
  unfolding remove_all unless_failed
  remove_collected dir (err e) w = (some e, w)
  remove_collected dir (ok paths) w =
      let (e, w') = remove_all paths w in unless_failed e w' (files.remove dir w')

  remove_present : String → W → Option String × W
  unfolding collect_paths remove_collected
  remove_present dir w = elim (files.private_dir dir w) [
    | some e ↦ (some e, w)
    | none ↦ remove_collected dir (files.read_dir dir w >>= λ names. collect_paths dir names w) w
  ]

  -- removeOwnedRuntime; `none` is success
  unfoldable pub remove_owned_runtime : Operator → Manifest → W → Option String × W
  unfolding owns_runtime remove_present
  remove_owned_runtime op m w =
      if owns_runtime op m
      then (elim (files.presence m.runtime_dir w) [
        | absent ↦ (none, w)
        | unreadable e ↦ (some e, w)
        | present ↦ remove_present m.runtime_dir w
      ])
      else (some "runtime ownership mismatch; refusing cleanup", w)
