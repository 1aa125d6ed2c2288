-- ===== src/Engine/Recovery/Apply.antt =====
-- Recover of internal/engine/recover.go: what is done about a run that left no complete report.
pub mod Alive
pub mod Reports
pub mod Complete
use epoch.Base.{
  String, Bool, true, false, not, ◌||◌, Option, none, some, Result, ok, err, str_eq, if◌then◌else◌,
}
use epoch.Engine.Outcome.{
  Stage, validating, preparing, finished, CleanupStatus, complete, incomplete, interrupted,
  not_evaluated, Report,
}
use epoch.Engine.Runtime.{ProcessIdentity, Manifest, Operator, Files, remove_owned_runtime}
use epoch.Engine.Recovery.{
  FileRead, not_found, refused, content, Evidence, load_manifest, read_report,
}

-- What recovery asks of the host: privileges, the boot ID, the runtime root with its lock, and
-- firecracker.InspectProcess and StopOwned. `inspect` is true of a live process.
pub record Host (W : Type 0) : Type 0 where
  pub privilege : W → Option String
  pub boot_id : W → Result String String
  pub root_state : W → FileRead (Unit {0})
  pub ensure_root : W → Option String × W
  pub lock_state : W → FileRead (Unit {0})
  pub acquire_lock : W → Option String × W
  pub inspect : ProcessIdentity → W → Result String (Bool × String)
  pub stop_owned : ProcessIdentity → W → Option String × W

-- Recovery: what Recover reports.
pub record Recovery : Type 0 where
  pub run_id : String
  pub applied : Bool
  pub process_alive : Bool
  pub can_clean : Bool
  pub message : String
  pub report : Option Report

pub record Answer : Type 0 where
  pub recovery : Option Recovery
  pub failure : Option String

-- The report that recovery writes: an absent one becomes INTERRUPTED, cleanup is COMPLETE.
unfoldable pub recovered_report : Report → Report
recovered_report r =
    let s =
      if r.report_saved
      then r
      else record r { execution = interrupted; assertion = not_evaluated } in
    record s { cleanup = complete; stage = finished; report_saved = false }

early_stage : Stage → Bool
early_stage validating = true
early_stage preparing = true
early_stage _ = false

is_complete : CleanupStatus → Bool
is_complete complete = true
is_complete _ = false

-- Without a process identity: no launch can have happened on this boot, or cleanup was complete.
unfoldable pub unambiguous : String → Manifest → Bool
unfolding early_stage is_complete
unambiguous boot m =
    not (str_eq m.host_boot_id boot) || (early_stage m.stage || is_complete m.cleanup)

module _ {W : Type 0} (evidence : Evidence W) (host : Host W) (files : Files W)
    (op : Operator) where
  failed : Recovery → String → W → Answer × W
  failed out e w = (record { recovery = some out; failure = some e }, w)

  refused_with : String → W → Answer × W
  refused_with e w = (record { recovery = none; failure = some e }, w)

  finish : Recovery → Report → Option String × W → Answer × W
  unfolding failed
  finish out r (some e, w) = failed out e w
  finish out r (none, w) = (
    record {
      recovery = some (record out {
        report = some (record r { report_saved = true });
        message = "owned runtime resources cleaned; no workload action replayed";
      });
      failure = none;
    },
    w,
  )

  save_both : Recovery → Manifest → Report → W → Answer × W
  unfolding failed finish recovered_report
  save_both out m r w =
      let (e, w') = evidence.save_manifest (record m { cleanup = complete; stage = finished }) w in
      elim e [
        | some text ↦ failed out text w'
        | none ↦ finish out (recovered_report r) (evidence.save_report (recovered_report r) w')
      ]

  after_removal : Recovery → Manifest → Option String × W → Answer × W
  unfolding failed save_both
  after_removal out m (some e, w) = failed out e w
  after_removal out m (none, w) = elim (read_report evidence op out.run_id w) [
    | err e ↦ failed out e w
    | ok r ↦ save_both out m r w
  ]

  clean : Recovery → Manifest → W → Answer × W
  unfolding after_removal
  clean out m w = after_removal out m (remove_owned_runtime files op m w)

  -- After StopOwned: the process is inspected once more before anything is removed.
  recheck : Recovery → Manifest → ProcessIdentity → Option String × W → Answer × W
  unfolding failed clean
  recheck out m p (some e, w) = failed out e w
  recheck out m p (none, w) = elim (host.inspect p w) [
    | err e ↦ failed out e w
    | ok state ↦
        if state.0
        then failed out "VMM still alive; disk retained" w
        else clean (record out { process_alive = false }) m w
  ]

  with_process :
      Bool → Recovery → Manifest → ProcessIdentity → Result String (Bool × String) → W → Answer × W
  unfolding failed clean recheck
  with_process apply out m p (err e) w = failed out e w
  with_process apply out m p (ok (alive, reason)) w =
      let found = record out { process_alive = alive; message = reason; can_clean = true } in
      if apply
      then (if alive then recheck found m p (host.stop_owned p w) else clean found m w)
      else (record { recovery = some found; failure = none }, w)

  without_process : Bool → Recovery → Manifest → String → W → Answer × W
  unfolding clean unambiguous
  without_process apply out m boot w =
      if unambiguous boot m
      then (let found = record out {
        can_clean = true;
        message = "no live VMM ownership ambiguity";
      } in
          if apply then clean found m w else (record { recovery = some found; failure = none }, w))
      else (
        record {
          recovery = some (record out {
            message =
                "launch may have occurred before process identity was persisted; manual review required";
          });
          failure = none;
        },
        w,
      )

  recover_locked : Bool → Manifest → String → String → W → Answer × W
  unfolding with_process without_process
  recover_locked apply m id boot w =
      let out : Recovery = record {
        run_id = id;
        applied = apply;
        process_alive = false;
        can_clean = false;
        message = "";
        report = none;
      } in
      elim m.process [
        | some p ↦ with_process apply out m p (host.inspect p w) w
        | none ↦ without_process apply out m boot w
      ]

  after_lock : Bool → Manifest → String → String → Option String × W → Answer × W
  unfolding refused_with recover_locked
  after_lock apply m id boot (some e, w) = refused_with e w
  after_lock apply m id boot (none, w) = recover_locked apply m id boot w

  -- The lock file may be missing only after a reboot, and is then taken only to apply.
  take_lock : Bool → Manifest → String → String → FileRead (Unit {0}) → W → Answer × W
  unfolding refused_with after_lock recover_locked
  take_lock apply m id boot (content _) w = after_lock apply m id boot (host.acquire_lock w)
  take_lock apply m id boot (refused e) w = refused_with e w
  take_lock apply m id boot not_found w =
      if str_eq m.host_boot_id boot
      then refused_with "operator lock absent" w
      else if apply
      then after_lock apply m id boot (host.acquire_lock w)
      else recover_locked apply m id boot w

  after_root : Bool → Manifest → String → String → Option String × W → Answer × W
  unfolding refused_with take_lock
  after_root apply m id boot (some e, w) = refused_with e w
  after_root apply m id boot (none, w) = take_lock apply m id boot (host.lock_state w) w

  with_root : Bool → Manifest → String → String → FileRead (Unit {0}) → W → Answer × W
  unfolding refused_with take_lock after_root recover_locked
  with_root apply m id boot (content _) w = take_lock apply m id boot (host.lock_state w) w
  with_root apply m id boot (refused e) w = refused_with e w
  with_root apply m id boot not_found w =
      if str_eq m.host_boot_id boot
      then refused_with "runtime root absent" w
      else if apply
      then after_root apply m id boot (host.ensure_root w)
      else recover_locked apply m id boot w

  with_manifest : Bool → String → Result String Manifest → W → Answer × W
  unfolding refused_with with_root
  with_manifest apply id (err e) w = refused_with e w
  with_manifest apply id (ok m) w = elim (host.boot_id w) [
    | err e ↦ refused_with e w
    | ok boot ↦ with_root apply m id boot (host.root_state w) w
  ]

  -- Recover
  unfoldable pub recover : Bool → String → W → Answer × W
  unfolding refused_with with_manifest
  recover apply id w = elim (host.privilege w) [
    | some e ↦ refused_with e w
    | none ↦ with_manifest apply id (load_manifest evidence op id w) w
  ]
