-- ===== src/Engine/Run.antt =====
-- internal/engine/run.go: one run, from its first persisted evidence to its final report.
pub mod Boot
pub mod Steps
pub mod Finish
pub mod Frame
use epoch.Base.{ℕ, String, Bool, Option, List, Result, ok, err, ℤ}
use epoch.Base.Exec.{Exec, ◌>>=◌, ◌>>◌}
use epoch.Json.{Json, Raw}
use epoch.Scenario.{Step, Scenario, Op}
use epoch.Scenario.StepRules.{TimeText}
use epoch.Engine.HostClock.{HostObservation}
use epoch.Engine.Outcome.{Stage, Report, StepResult}
use epoch.Engine.StepCall.{Guest, Observation}
use epoch.Engine.Runtime.{Manifest, Operator, Files, ProcessIdentity}

-- The calls of a run that answer with an error or with nothing: evidence.Recorder, saveManifest,
-- safefs, artifact, firecracker and the guest transport.
pub data Call : Type 0 where
  save_manifest : Manifest → Call
  write_event : Stage → String → Call
  write_clocks : String → Call
  write_action : StepResult → Call
  save_input save_resolved ensure_runtime_dir check_space copy_rootfs write_config : Call
  open_log : String → Call
  start_vmm connect_guest shutdown_guest close_guest stop_vmm close_recorder : Call
  save_report : Report → Call

-- The world of a run: what its calls answer and how they change it. `marshal` gives the raw result of
-- a step that json.Marshal takes, `marshal_error` its error on one that it refuses, `format_int` an integer in
-- JSON and `json_size` the length of a marshalled value; `context_error`, `parent_cancelled`,
-- `vmm_exited` and `recorder_error` read the context, its parent, the process and the recorder.
pub record World (W : Type 0) : Type 0 where
  pub perform : Call → W → Option String × W
  pub observe : W → Result String HostObservation × W
  pub guest : Guest W
  pub files : Files W
  pub time : TimeText
  pub process : W → ProcessIdentity
  pub context_error : W → Option String
  pub parent_cancelled : W → Bool
  pub vmm_exited : W → Option String
  pub recorder_error : W → Option String
  pub marshal : Observation → Raw
  pub marshal_error : Observation → Option String
  pub format_int : ℤ → String
  pub json_size : Json → ℕ

-- The variables of `run`: the report, the manifest, whether `proc` and `guest` are not nil, the last
-- host observation and the bytes of observations.
pub record State (W : Type 0) : Type 0 where
  pub world : W
  pub report : Report
  pub manifest : Manifest
  pub has_vmm : Bool
  pub has_guest : Bool
  pub last_host : Option HostObservation
  pub bytes : ℕ

abbrev pub Run : Type 0 → Type 0 → Type 0
Run W A = Exec String (State W) A
