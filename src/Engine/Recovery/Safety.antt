-- ===== src/Engine/Recovery/Safety.antt =====
-- What Recover, ReadReport and admit of internal/engine/recover.go promise.
use epoch.Base.{
  String, Bool, true, false, Option, none, List, [], ◌∷◌, ◌≡◌, ◌≢◌, Result, all, ◌⊎◌, inl, inr,
  refl, ok, guard, guard-eq-ok, >>-eq-ok, >>=-eq-ok, ok-injective, ok-ne-err, sym, subst, arith,
  All, Bool-cases, str_eq, eq_iff,
}
use epoch.Scenario.Names.{is_run_id}
use epoch.Engine.Outcome.{
  validating, preparing, finished, complete, incomplete, completed, error, cancelled, interrupted,
  passed, failed, not_evaluated, Report, valid_outcomes, is_pass, exit_code, report_version,
}
use epoch.Scenario.Assertions.{AssertionResult, pass}
use epoch.Engine.Runtime.{Manifest, Operator, Files}
use epoch.Engine.Recovery.{
  FileRead, Evidence, load_manifest, read_report, admit_entry, admit_evidence, only_lock, admit,
  from_file, checked_report, interrupted_report, not_found, refused, content,
}
use epoch.Engine.Recovery.Apply.{Host, recover}

module _ {W : Type 0} (evidence : Evidence W) (host : Host W) (files : Files W)
    (op : Operator) where
  -- Recovery without `apply` changes nothing but, at most, that it takes the operator's lock.
  pub recover-inspects :
      (id : String) (w : W)
      → ((recover evidence host files op false id w).1 ≡ w)
        ⊎ ((recover evidence host files op false id w).1 ≡ (host.acquire_lock w).1)
  unfolding recover
  recover-inspects id w = ground arith

  -- A run of this boot whose VMM identity was never persisted is left for manual review, also with
  -- `apply`, at every stage but VALIDATING and PREPARING and with every cleanup status but COMPLETE: no
  -- file is removed, no process is stopped and no evidence is rewritten, and the only step that may be
  -- taken is that of the operator's lock.
  pub recover-ambiguous :
      (apply : Bool) (id boot : String) (m : Manifest) (w : W)
      → load_manifest evidence op id w ≡ ok m
      → m.process ≡ none
      → host.boot_id w ≡ ok boot
      → m.host_boot_id ≡ boot
      → m.stage ≢ validating
      → m.stage ≢ preparing
      → m.cleanup ≢ complete
      → (((recover evidence host files op apply id w).1 ≡ w)
          ⊎ ((recover evidence host files op apply id w).1 ≡ (host.acquire_lock w).1))
  unfolding recover
  recover-ambiguous apply id boot m w loaded no_process booted same late later dirty =
      ground (arith, eq_iff m.host_boot_id boot)

-- The four execution statuses, the three of the assertions and the two of the cleanup.
abbrev pub HasKnownStatuses : Report → Type 0
HasKnownStatuses r =
    ((r.execution ≡ completed)
      ⊎ ((r.execution ≡ error) ⊎ ((r.execution ≡ cancelled) ⊎ (r.execution ≡ interrupted))))
    × ((r.assertion ≡ passed) ⊎ ((r.assertion ≡ failed) ⊎ (r.assertion ≡ not_evaluated)))
    × ((r.cleanup ≡ complete) ⊎ (r.cleanup ≡ incomplete))

-- There are assertion results, and each is a PASS.
abbrev pub HasOnlyPasses : Report → Type 0
HasOnlyPasses r = (r.assertions ≢ []) × All (λ a. a.status ≡ pass) r.assertions

-- A report of a finished run that the file holds.
abbrev pub IsSaved : String → FileRead Report → Report → Type 0
IsSaved id file r =
    (q : Report) × (file ≡ content q)
    × (r ≡ record q { report_saved = true })
    × (r.api_version ≡ "epoch-result/v1")
    × (r.run_id ≡ id)
    × (r.stage ≡ finished)
    × HasKnownStatuses r
    × (r.execution ≡ completed → r.assertion ≡ passed → HasOnlyPasses r)

-- The report of a run without one, from its manifest. It is no success and no failed assertion.
abbrev pub IsSubstitute : String → FileRead Report → Result String Manifest → Report → Type 0
IsSubstitute id file loaded r =
    (m : Manifest) × (file ≡ not_found)
    × (loaded ≡ ok m)
    × (r.run_id ≡ id)
    × (r.report_saved ≡ false)
    × (r.cleanup ≡ m.cleanup)
    × (r.stage ≡ m.stage)
    × (r.steps ≡ [])
    × ((exit_code r ≡ 3) ⊎ (exit_code r ≡ 4))

all-passes :
    (results : List AssertionResult)
    → all is_pass results ≡ true
    → All (λ a. a.status ≡ pass) results
unfolding is_pass
all-passes [] h = tt
all-passes (a ∷ rest) h = (ground (arith, h), all-passes rest (ground (arith, h)))

known-HasKnownStatuses : (r : Report) → valid_outcomes r ≡ true → HasKnownStatuses r
unfolding valid_outcomes
known-HasKnownStatuses r h = (ground (arith, h), ground (arith, h), ground (arith, h))

success-HasOnlyPasses :
    (r : Report)
    → valid_outcomes r ≡ true
    → r.execution ≡ completed
    → r.assertion ≡ passed
    → HasOnlyPasses r
unfolding valid_outcomes
success-HasOnlyPasses r h done good = (
  λ empty. absurd (ground (arith, h, done, good, empty)),
  all-passes r.assertions (ground (arith, h, done, good)),
)

checked_report-eq-ok :
    (id : String) (r q : Report)
    → checked_report id q ≡ ok r
    → (r ≡ record q { report_saved = true })
      × (str_eq q.api_version report_version ≡ true)
      × (str_eq q.run_id id ≡ true)
      × (q.stage ≡ finished)
      × (valid_outcomes q ≡ true)
unfolding checked_report
checked_report-eq-ok id r q h = ground arith

checked-IsSaved :
    (id : String) (r q : Report) → checked_report id q ≡ ok r → IsSaved id (content q) r
unfolding valid_outcomes
checked-IsSaved id r q h =
    let (e, version, same, done, valid) = checked_report-eq-ok id r q h in
    let saved : Report = record q { report_saved = true } in
    subst (IsSaved id (content q)) (sym e) (
      q,
      refl,
      refl,
      (eq_iff q.api_version report_version).0 version,
      (eq_iff q.run_id id).0 same,
      done,
      known-HasKnownStatuses saved valid,
      success-HasOnlyPasses saved valid,
    )

interrupted-IsSubstitute :
    (id : String) (name : Option String) (m : Manifest)
    → IsSubstitute id not_found (ok m) (interrupted_report id name m)
unfolding interrupted_report exit_code
interrupted-IsSubstitute id name m = (m, refl, refl, refl, refl, refl, refl, refl, ground arith)

module _ {W : Type 0} (evidence : Evidence W) (op : Operator) where
  from_file_sound :
      (id : String) (w : W) (f : FileRead Report) (r : Report)
      → from_file evidence op id w f ≡ ok r
      → IsSaved id f r ⊎ IsSubstitute id f (load_manifest evidence op id w) r
  unfolding from_file
  from_file_sound id w (content q) r h = inl (checked-IsSaved id r q h)
  from_file_sound id w (refused e) r h = cc
  from_file_sound id w not_found r h =
      let (m, p, q) = >>=-eq-ok (load_manifest evidence op id w) _ h in
      inr (
        subst (λ x. IsSubstitute id not_found (load_manifest evidence op id w) x) (ok-injective q)
          (subst
            (λ loaded.
              IsSubstitute id not_found loaded
                (interrupted_report id (evidence.scenario_name id w) m))
            (sym p) (interrupted-IsSubstitute id (evidence.scenario_name id w) m)))

  -- A report that is read is one of two. Either it is the one that the file holds, marked as saved, of
  -- the current version, for the run that was asked for, finished, with known statuses; and it says
  -- COMPLETED and PASS only if it has assertion results, all of them PASS. Or there is no file and the
  -- manifest of the run can be loaded: then it is for that run, not saved, without steps, with the
  -- cleanup status and the stage of the manifest, and its exit code is 3 or 4.
  pub read_report_sound :
      (id : String) (w : W) (r : Report)
      → read_report evidence op id w ≡ ok r
      → IsSaved id (evidence.report_file id w) r
        ⊎ IsSubstitute id (evidence.report_file id w) (load_manifest evidence op id w) r
  unfolding read_report
  read_report_sound id w r h = elim (Bool-cases (is_run_id id)) [
    | inl valid ↦ from_file_sound id w (evidence.report_file id w) r (rw (valid, read_report) at h)
    | inr bad ↦ absurd (ok-ne-err (sym (rw (bad, read_report) at h)))
  ]

  -- What admission requires of an entry of the evidence root.
  abbrev pub IsSettled : W → String × Bool → Type 0
  IsSettled w e =
      (is_run_id e.0 ≡ true)
      × (e.1 ≡ true)
      × ((r : Report) × (read_report evidence op e.0 w ≡ ok r)
          × (r.report_saved ≡ true)
          × (r.cleanup ≡ complete))

  admit_entry-IsSettled :
      (e : String × Bool) (w : W) → admit_entry evidence op e w ≡ ok tt → IsSettled w e
  unfolding admit_entry
  admit_entry-IsSettled e w h = ground arith

  admit-All :
      (es : List (String × Bool)) (w : W)
      → admit_evidence evidence op es w ≡ ok tt
      → All (IsSettled w) es
  unfolding admit_evidence
  admit-All [] w h = tt
  admit-All (e ∷ rest) w h =
      let later = admit-All rest w in
      let (p, q) = >>-eq-ok (admit_entry evidence op e w) (admit_evidence evidence op rest w) h in
      (admit_entry-IsSettled e w p, later q)

  -- A run is admitted only where every entry of the evidence root is the directory of a run whose
  -- saved report says that its cleanup is complete, and the runtime root holds only the lock.
  pub admit-IsSettled :
      (w : W) (roots runs : List (String × Bool))
      → evidence.entries op.runtime_root w ≡ ok roots
      → evidence.entries op.evidence_dir w ≡ ok runs
      → admit evidence op w ≡ ok tt
      → All (IsSettled w) runs × (only_lock evidence op roots ≡ true)
  unfolding admit
  admit-IsSettled w roots runs hr he h =
      let locked = rw hr at h in
      let (p, q) =
        >>-eq-ok (guard (only_lock evidence op roots) "runtime contains unresolved entry") _
          locked in
      (admit-All runs w (rw he at q), guard-eq-ok _ _ p)
