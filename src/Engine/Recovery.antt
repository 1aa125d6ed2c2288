-- ===== src/Engine/Recovery.antt =====
-- internal/engine/recover.go: reading persisted evidence, and the admission of a run.
pub mod Apply
pub mod Safety
use epoch.Base.{
  ℕ, String, Bool, true, false, not, ◌&&◌, ◌||◌, Option, none, some, List, [], ◌∷◌, ◌==◌, Result,
  ok, err, ◌>>=◌, ◌>>◌, guard, str_eq, if◌then◌else◌,
}
use epoch.Scenario.Names.{is_run_id}
use epoch.Engine.Outcome.{
  Stage, validating, preparing, finished, CleanupStatus, complete, incomplete, ExecutionStatus,
  interrupted, AssertionStatus, not_evaluated, Report, report_version, valid_outcomes,
}
use epoch.Engine.Runtime.{
  ProcessIdentity, Manifest, Operator, join_path, Files, remove_owned_runtime,
}

-- A private evidence file: absent, refused or unreadable, or decoded.
pub data FileRead (A : Type 0) : Type 0 where
  not_found : FileRead A
  refused : String → FileRead A
  content : A → FileRead A

-- The persisted evidence of a run by its ID; `scenario_name` is that of scenario.resolved.json.
pub record Evidence (W : Type 0) : Type 0 where
  pub report_file : String → W → FileRead Report
  pub manifest_file : String → W → FileRead Manifest
  pub scenario_name : String → W → Option String
  pub entries : String → W → Result String (List (String × Bool))
  pub save_manifest : Manifest → W → Option String × W
  pub save_report : Report → W → Option String × W

same_process : Manifest → Option ProcessIdentity → Bool
same_process m none = true
same_process m (some p) = p.uid == m.uid && str_eq p.host_boot_id m.host_boot_id

owned_by : Operator → String → Manifest → Bool
unfolding join_path
owned_by op id m =
    str_eq m.api_version "epoch-run/v1"
    && (str_eq m.run_id id
        && (not (str_eq m.host_boot_id "")
            && (m.uid == op.uid && str_eq m.runtime_dir (join_path op.runtime_root id))))

checked_manifest : Operator → String → FileRead Manifest → Result String Manifest
unfolding owned_by same_process
checked_manifest op id not_found = err "manifest absent"
checked_manifest op id (refused e) = err e
checked_manifest op id (content m) = do
  guard (owned_by op id m) "ownership manifest does not match configured operator/run roots"
  guard (same_process m m.process) "process identity differs from run owner"
  ok m

is_finished : Stage → Bool
is_finished finished = true
is_finished _ = false

checked_report : String → Report → Result String Report
unfolding is_finished
checked_report id r = do
  guard
      (str_eq r.api_version report_version
        && (str_eq r.run_id id && (is_finished r.stage && valid_outcomes r)))
      "invalid final report identity/outcome"
  ok (record r { report_saved = true })

named_or_unknown : Option String → String
named_or_unknown none = "unknown-interrupted"
named_or_unknown (some name) = if str_eq name "" then "unknown-interrupted" else name

-- The report of a run that left none.
unfoldable pub interrupted_report : String → Option String → Manifest → Report
unfolding named_or_unknown
interrupted_report id name m = record {
  api_version = report_version;
  run_id = id;
  scenario_name = named_or_unknown name;
  execution = interrupted;
  assertion = not_evaluated;
  cleanup = m.cleanup;
  stage = m.stage;
  steps = [];
  assertions = [];
  causes = "final report absent; partial evidence does not establish a completed experiment" ∷ [];
  report_saved = false;
}

module _ {W : Type 0} (evidence : Evidence W) (op : Operator) where
  -- loadManifest
  unfoldable pub load_manifest : String → W → Result String Manifest
  unfolding checked_manifest
  load_manifest id w =
      if is_run_id id
      then checked_manifest op id (evidence.manifest_file id w)
      else err "run ID must be 32 lowercase hex characters"

  from_file : String → W → FileRead Report → Result String Report
  unfolding load_manifest checked_report interrupted_report
  from_file id w (content r) = checked_report id r
  from_file id w (refused e) = err e
  from_file id w not_found = do
    m ← load_manifest id w
    ok (interrupted_report id (evidence.scenario_name id w) m)

  -- ReadReport
  unfoldable pub read_report : String → W → Result String Report
  unfolding from_file
  read_report id w =
      if is_run_id id
      then from_file id w (evidence.report_file id w)
      else err "run ID must be 32 lowercase hex characters"

  settled : Report → Bool
  settled r = r.report_saved && elim r.cleanup [ complete ↦ true | _ ↦ false ]

  admit_entry : String × Bool → W → Result String (Unit {0})
  unfolding read_report settled
  admit_entry (name, is_dir) w = do
    guard (is_run_id name && is_dir) "unexpected evidence-root entry requires review"
    r ← read_report name w
    guard (settled r) "prior run requires recover before admission"

  unfoldable pub admit_evidence : List (String × Bool) → W → Result String (Unit {0})
  unfolding admit_entry
  admit_evidence [] w = ok tt
  admit_evidence (e ∷ rest) w = do admit_entry e w; admit_evidence rest w

  unfoldable pub only_lock : List (String × Bool) → Bool
  only_lock [] = true
  only_lock ((name, is_dir) ∷ rest) = str_eq name "operator.lock" && only_lock rest

  -- admit
  unfoldable pub admit : W → Result String (Unit {0})
  unfolding admit_evidence only_lock
  admit w = do
    roots ← evidence.entries op.runtime_root w
    guard (only_lock roots) "runtime contains unresolved entry"
    runs ← evidence.entries op.evidence_dir w
    admit_evidence runs w
