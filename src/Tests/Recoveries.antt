-- ===== src/Tests/Recoveries.antt =====
-- The theorems on recovery, admission and the removal of a run's files, for one run of one operator.
use epoch.Base.{
  ℕ, suc, if◌then◌else◌, ok-injective, String, true, false, none, some, List, [], ◌∷◌, ◌≡◌, ◌⊎◌,
  inl, inr, refl, sym, subst, ◌∙◌, ok, All, member, delete, member-delete_ne, str_eq, eq_iff,
  Bool-cases, arith,
}
use epoch.Engine.Outcome.{finished, completed, running, passed, complete, Report, valid_outcomes}
use epoch.Scenario.Names.{is_run_id}
use epoch.Scenario.Assertions.{pass}
use epoch.Engine.Runtime.{
  ProcessIdentity, Manifest, Files, present, regular, owns_runtime, runtime_names,
  remove_owned_runtime,
}
use epoch.Engine.Runtime.Removal.{IsOwnedPath, removal_confined, removal_all_or_nothing}
use epoch.Engine.Recovery.{
  FileRead, content, not_found, Evidence, load_manifest, read_report, admit, only_lock,
}
use epoch.Engine.Recovery.Apply.Alive.{IsHeld, recover_contained}
use epoch.Engine.Recovery.Apply.{Host, Recovery, recover}
use epoch.Engine.Recovery.Safety.{
  recover-inspects, recover-ambiguous, IsSaved, IsSubstitute, read_report_sound, admit-IsSettled,
  IsSettled,
}
use epoch.Tests.Runs.{operator, manifest, report, counting}

-- A world that is the list of its files.
abbrev disk : Files (List String)
disk = record {
  presence = λ path w. present;
  private_dir = λ path w. none;
  read_dir = λ path w. ok ("rootfs.ext4" ∷ "firecracker.json" ∷ []);
  owned_child = λ dir name w. ok name;
  kind_of = λ path w. ok regular;
  remove = λ path w. (none, delete path w);
}

abbrev passwords : String
passwords = "/etc/passwd"

abbrev files_there : List String
files_there = "rootfs.ext4" ∷ "firecracker.json" ∷ passwords ∷ []

owned_ne :
    (path : String) → IsOwnedPath disk manifest.runtime_dir files_there path → path ≡ passwords → ⊥
unfolding member
owned_ne path (inl e) same = ground (arith, eq_iff manifest.runtime_dir passwords, sym e ∙ same)
owned_ne path (inr (name, known, found)) same =
    ground (arith, subst (λ n. member n runtime_names ≡ true) (ok-injective found ∙ same) known)

owned_differs :
    (path : String)
    → IsOwnedPath disk manifest.runtime_dir files_there path
    → str_eq path passwords ≡ false
owned_differs path h = elim (Bool-cases (str_eq path passwords)) [
  | inr other ↦ other
  | inl same ↦ absurd (owned_ne path h ((eq_iff path passwords).0 same))
]

removal_confined_example :
    member passwords (remove_owned_runtime disk operator manifest files_there).1 ≡ true
unfolding member
removal_confined_example =
    removal_confined disk (λ w. member passwords w ≡ true) operator manifest files_there
      (λ path owned v h. member-delete_ne path passwords v (owned_differs path owned) ∙ h) refl

-- A directory with an entry that the engine does not know.
abbrev strange_disk : Files (List String)
strange_disk = record disk { read_dir = λ path w. ok ("rootfs.ext4" ∷ "notes.txt" ∷ []) }

removal_all_or_nothing_example :
    (e : String) × (remove_owned_runtime strange_disk operator manifest files_there
      ≡ (some e, files_there))
unfolding owns_runtime is_run_id member
removal_all_or_nothing_example =
    removal_all_or_nothing strange_disk operator manifest files_there
      ("rootfs.ext4" ∷ "notes.txt" ∷ []) refl refl refl refl

-- The evidence of one run, over the number of locks taken.
abbrev evidence_of : FileRead Report → Manifest → Evidence ℕ
evidence_of r m = record {
  report_file = λ id w. r;
  manifest_file = λ id w. content m;
  scenario_name = λ id w. some "demo";
  entries = λ root w.
      if str_eq root operator.runtime_root
      then ok (("operator.lock", false) ∷ [])
      else ok ((manifest.run_id, true) ∷ []);
  save_manifest = λ m w. (none, w);
  save_report = λ r w. (none, w);
}

abbrev host : Host ℕ
host = record {
  privilege = λ w. none;
  boot_id = λ w. ok "boot";
  root_state = λ w. content tt;
  ensure_root = λ w. (none, w);
  lock_state = λ w. content tt;
  acquire_lock = λ w. (none, suc w);
  inspect = λ p w. ok (false, "gone");
  stop_owned = λ p w. (none, w);
}

abbrev running_manifest : Manifest
running_manifest = record manifest { stage = running }

abbrev partial : Evidence ℕ
partial = evidence_of not_found running_manifest

recover-inspects_example :
    ((recover partial host counting operator false manifest.run_id 0).1 ≡ 0)
    ⊎ ((recover partial host counting operator false manifest.run_id 0).1 ≡ 1)
recover-inspects_example = recover-inspects partial host counting operator manifest.run_id 0

recover-ambiguous_example :
    ((recover partial host counting operator true manifest.run_id 0).1 ≡ 0)
    ⊎ ((recover partial host counting operator true manifest.run_id 0).1 ≡ 1)
unfolding load_manifest is_run_id
recover-ambiguous_example =
    recover-ambiguous partial host counting operator true manifest.run_id "boot" running_manifest 0
      refl refl refl refl (λ e. ground (arith, e)) (λ e. ground (arith, e)) (λ e. ground (arith, e))

abbrev final_report : Report
final_report = record report {
  execution = completed;
  assertion = passed;
  cleanup = complete;
  stage = finished;
  assertions = record { id = "a"; step = "act"; status = pass; actual = none; failed = none } ∷ [];
}

abbrev kept_evidence : Evidence ℕ
kept_evidence = evidence_of (content final_report) manifest

read_report_sound_example :
    IsSaved manifest.run_id (content final_report) (record final_report { report_saved = true })
    ⊎ IsSubstitute manifest.run_id
        (content final_report)
        (load_manifest kept_evidence operator manifest.run_id 0)
        (record final_report { report_saved = true })
unfolding read_report is_run_id valid_outcomes
read_report_sound_example =
    read_report_sound kept_evidence operator manifest.run_id 0
      (record final_report { report_saved = true }) refl

admit-IsSettled_example :
    All (IsSettled kept_evidence operator 0) ((manifest.run_id, true) ∷ [])
    × (only_lock kept_evidence operator (("operator.lock", false) ∷ []) ≡ true)
unfolding admit is_run_id valid_outcomes
admit-IsSettled_example =
    admit-IsSettled kept_evidence operator 0 (("operator.lock", false) ∷ [])
      ((manifest.run_id, true) ∷ []) refl refl refl

abbrev vmm : ProcessIdentity
vmm = record { pid = 9; uid = 1000; host_boot_id = "boot" }

abbrev live_manifest : Manifest
live_manifest = record manifest { stage = running; process = some vmm }

-- A host on which the process never goes away.
abbrev live_host : Host ℕ
live_host = record host { acquire_lock = λ w. (none, w); inspect = λ p w. ok (true, "alive") }

held : IsHeld live_host (λ w. w ≡ 0)
held = record { by_root = λ w h. h; by_lock = λ w h. h; by_stop = λ p w h. h }

recover_contained_example :
    (recover
      (evidence_of not_found live_manifest)
      live_host
      counting
      operator
      true
      manifest.run_id
      0).1
    ≡ 0
unfolding load_manifest is_run_id
recover_contained_example =
    recover_contained (evidence_of not_found live_manifest) live_host counting operator (λ w. w ≡ 0)
      held live_manifest vmm "alive" true (λ w. refl) manifest.run_id 0 refl refl refl

-- The run's VMM is gone.
abbrev dead_manifest : Manifest
dead_manifest = record manifest { process = some vmm; stage = running }

abbrev left : Evidence ℕ
left = evidence_of (content final_report) dead_manifest

abbrev recovered : Recovery
recovered = record {
  run_id = manifest.run_id;
  applied = true;
  process_alive = false;
  can_clean = true;
  message = "owned runtime resources cleaned; no workload action replayed";
  report = some (record final_report { report_saved = true });
}
