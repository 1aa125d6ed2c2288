-- ===== src/Guest/Manifest.antt =====
-- WorkloadManifest.Validate of internal/protocol/protocol.go: what a guest workload may declare.
pub mod Paths
use epoch.Base.{
  ℕ, String, byte_length, code, codes, Bool, true, false, not, ◌&&◌, ◌||◌, Option, none, some, List,
  [], ◌∷◌, leb, ltb, ◌==◌, length, all, any, str_eq, member, has_key, Result, ok, err, ◌>>=◌, ◌>>◌,
  guard, if◌then◌else◌,
}
use epoch.Scenario.Names.{is_workload_identifier, is_digit}
use Paths.{is_clean_absolute, base_name}

-- protocol.Service
pub record Service : Type 0 where
  pub argv : List String
  pub readiness_action : String

-- protocol.WorkloadManifest; a Command is its argv. The maps are lists of their entries.
pub record Manifest : Type 0 where
  pub api_version : String
  pub id : String
  pub version : String
  pub uid : ℕ
  pub gid : ℕ
  pub working_dir : String
  pub environment : List (String × String)
  pub actions : List (String × List String)
  pub services : List (String × Service)

pub data ManifestError : Type 0 where
  invalid_identity invalid_working_dir invalid_counts invalid_command forbidden_launcher :
      ManifestError
  invalid_argument no_readiness_action too_many_variables invalid_variable : ManifestError

abbrev pub workload_version : String
workload_version = "epoch-workload/v1"

-- The shells and privilege launchers that may not be argv[0].
abbrev pub launchers : List String
launchers = "sh" ∷ "bash" ∷ "dash" ∷ "zsh" ∷ "sudo" ∷ "su" ∷ []

has_nul : String → Bool
has_nul s = any (λ c. c == 0) (codes s)

valid_argument : String → Bool
unfolding has_nul
valid_argument a = not (has_nul a) && leb (byte_length a) 4096

-- The closure `check`.
unfoldable pub check_command : String → List String → Result ManifestError (Unit {0})
unfolding valid_argument
check_command id [] = err invalid_command
check_command id (program ∷ args) = do
  guard
      (is_workload_identifier id && (leb (length (program ∷ args)) 64 && is_clean_absolute program))
      invalid_command
  guard (not (member (base_name program) launchers)) forbidden_launcher
  guard (all valid_argument (program ∷ args)) invalid_argument

check_actions : List (String × List String) → Result ManifestError (Unit {0})
check_actions [] = ok tt
check_actions ((id, argv) ∷ rest) = do check_command id argv; check_actions rest

check_services :
    List (String × List String) → List (String × Service) → Result ManifestError (Unit {0})
check_services actions [] = ok tt
check_services actions ((id, s) ∷ rest) = do
  check_command id s.argv
  guard (has_key s.readiness_action actions) no_readiness_action
  check_services actions rest

is_variable_char : ℕ → Bool
unfolding is_digit
is_variable_char c = (leb b'A' c && leb c b'Z') || c == b'_' || is_digit c

-- ^[A-Z_][A-Z0-9_]*$
is_variable : String → Bool
unfolding is_variable_char
is_variable String.[] = false
is_variable (String.◌∷◌ c rest) =
    is_variable_char (code c) && (not (is_digit (code c)) && all is_variable_char (codes rest))

starts_with : List ℕ → List ℕ → Bool
starts_with [] cs = true
starts_with (p ∷ ps) [] = false
starts_with (p ∷ ps) (c ∷ cs) = c == p && starts_with ps cs

valid_variable : String × String → Bool
unfolding is_variable has_nul starts_with
valid_variable e =
    is_variable e.0
    && (not (has_nul e.1)
        && (leb (byte_length e.1) 4096
            && (not (starts_with (codes "LD_") (codes e.0))
                && not (starts_with (codes "DYLD_") (codes e.0)))))

unfoldable pub validate_manifest : Manifest → Result ManifestError (Unit {0})
unfolding check_actions check_services valid_variable
validate_manifest m = do
  guard
      (str_eq m.api_version workload_version
        && (is_workload_identifier m.id
            && (not (str_eq m.version "") && (not (m.uid == 0) && not (m.gid == 0)))))
      invalid_identity
  guard (is_clean_absolute m.working_dir) invalid_working_dir
  guard (not (length m.actions == 0) && (leb (length m.actions) 128 && leb (length m.services) 4))
      invalid_counts
  check_actions m.actions
  check_services m.actions m.services
  guard (leb (length m.environment) 64) too_many_variables
  guard (all valid_variable m.environment) invalid_variable
