-- ===== src/Engine/Run/Boot.antt =====
-- The helpers of `run` in internal/engine/run.go that every phase uses: a call, `stage` and
-- `observe`, and `execute` down to the loop over the steps.
pub mod Keeps
use epoch.Base.{String, true, Option, none, some, ℤ, Result, ok, err}
use epoch.Base.Exec.{◌>>=◌, ◌>>◌}
use epoch.Engine.HostClock.{
  HostObservation, ClockAnomaly, bad_threshold, regressed, discontinuity, suspended,
  compare_observations,
}
use epoch.Engine.Outcome.{Stage, validating, preparing, booting, ready, running}
use epoch.Engine.Runtime.{Operator}
use epoch.Engine.Run.{
  Call, save_manifest, write_event, write_clocks, save_input, save_resolved, ensure_runtime_dir,
  check_space, copy_rootfs, write_config, open_log, start_vmm, connect_guest, World, State, Run,
}

outcome : {A : Type 0} → A → Option String → Result String A
outcome a none = ok a
outcome a (some e) = err e

anomaly_text : ClockAnomaly → String
anomaly_text bad_threshold = "host clock threshold must be positive"
anomaly_text regressed = "host monotonic clocks regressed"
anomaly_text discontinuity = "environmental clock discontinuity"
anomaly_text suspended = "environmental suspend/clock anomaly"

compared : Option HostObservation → HostObservation → ℤ → Result String (Unit {0})
unfolding outcome anomaly_text
compared none v threshold = ok tt
compared (some a) v threshold = elim (compare_observations a v threshold) [
  | none ↦ ok tt
  | some anomaly ↦ err (anomaly_text anomaly)
]

module _ {W : Type 0} (world : World W) (op : Operator) where
  -- A call whose error is returned.
  unfoldable pub attempt : Call → Run W (Unit {0})
  unfolding outcome
  attempt call s = let (e, w) = world.perform call s.world in (outcome tt e, record s { world = w })

  -- `_ = call`
  unfoldable pub ignore : Call → Run W (Unit {0})
  ignore call s = let (e, w) = world.perform call s.world in (ok tt, record s { world = w })

  -- rec.Event(r.Stage, kind, ...)
  unfoldable pub note : String → Run W (Unit {0})
  unfolding attempt
  note kind s = attempt (write_event s.report.stage kind) s

  -- The closure `stage`
  unfoldable pub enter : Stage → Run W (Unit {0})
  unfolding attempt
  enter stage s =
      let t = record s {
        report = record s.report { stage = stage };
        manifest = record s.manifest { stage = stage };
      } in
      (do attempt (save_manifest t.manifest); attempt (write_event stage "stage")) t

  sampled : Result String HostObservation × W → State W → Result String HostObservation × State W
  sampled (r, w) s = (r, record s { world = w })

  sample : Run W HostObservation
  unfolding sampled
  sample s = sampled (world.observe s.world) s

  -- The last observation is replaced whatever the comparison says.
  compare_with_last : HostObservation → Run W (Unit {0})
  unfolding compared
  compare_with_last v s = (compared s.last_host v op.threshold_ns, record s { last_host = some v })

  -- The closure `observe`
  unfoldable pub observe : String → Run W (Unit {0})
  unfolding sample attempt compare_with_last
  observe label = do v ← sample; attempt (write_clocks label); compare_with_last v

  note_vmm : Run W (Unit {0})
  note_vmm s = (
    ok tt,
    record s {
      has_vmm = true;
      manifest = record s.manifest { process = some (world.process s.world) };
    },
  )

  note_guest : Run W (Unit {0})
  note_guest s = (ok tt, record s { has_guest = true })

  persist : Run W (Unit {0})
  unfolding attempt
  persist s = attempt (save_manifest s.manifest) s

  -- The first part of the closure `execute`: up to the guest being ready.
  unfoldable pub boot : Run W (Unit {0})
  unfolding enter attempt observe note_vmm note_guest persist
  boot = do
    enter validating
    attempt save_input
    attempt save_resolved
    observe "run.begin"
    enter preparing
    attempt ensure_runtime_dir
    attempt check_space
    attempt copy_rootfs
    attempt write_config
    attempt (open_log "firecracker.stdout.log")
    attempt (open_log "firecracker.stderr.log")
    enter booting
    attempt start_vmm
    note_vmm
    persist
    attempt connect_guest
    note_guest
    enter ready
    enter running
