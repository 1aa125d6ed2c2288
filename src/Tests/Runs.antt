-- ===== src/Tests/Runs.antt =====
-- The theorems on a whole run: in a world where every call succeeds, and in one whose VMM does not stop.
use epoch.Base.{
  length, ◌≤◌, arith, ℕ, ◌+◌, String, true, false, Option, none, some, [], ◌∷◌, ◌≡◌, ◌≢◌, refl, pos,
  ok, err, all, arith, lookup, member, byte_length,
}
use epoch.Json.{str, obj, field, end}
use epoch.Scenario.{clock_read, exists, Step, Scenario}
use epoch.Guest.{ClockObservation}
use epoch.Engine.HostClock.{compare_observations}
use epoch.Engine.Outcome.{
  validating, incomplete, error, not_evaluated, is_pass, Report, exit_code, add_cause, add_failure,
}
use epoch.Engine.StepCall.{StepError, Guest, execute_step}
use epoch.Engine.Runtime.{
  Manifest, Operator, Files, regular, present, remove_owned_runtime, collect_paths, remove_all,
  owns_runtime,
}
use epoch.Engine.Run.{Call, stop_vmm, World, State}
use epoch.Engine.Run.Finish.{
  run, execute, or_failure, recorder_verdict, call, copy_cleanup, note_cancelled, clean_up, closing,
  removal, settle, save_final, shut_guest, stop_process, remove_files,
}
use epoch.Engine.Run.Boot.{boot, observe, enter}
use epoch.Engine.Run.Steps.{run_steps, run_step, selected, conclude}
use epoch.Scenario.Assertions.{evaluate, evaluate_one}
use epoch.Scenario.Pointer.{
  resolve_pointer, pointer_tokens, split_slash, unescape, resolve_tokens, find_field, pointer_step,
}
use epoch.Scenario.Names.{is_run_id}
use epoch.Engine.Run.Finish.Success.{run_success}
use epoch.Engine.Run.Finish.Bounds.{run_bounded}
use epoch.Engine.Run.Finish.Containment.{IsKept, run_contained}
use epoch.Tests.Plans.{one_time, plan, blank}

abbrev moment : ClockObservation
moment = record { realtime = pos 1000; monotonic_ns = pos 7 }

abbrev pub quiet_guest : Guest ℕ
quiet_guest = record {
  read_clock = λ limit w. (ok moment, w);
  set_clock = λ limit r w. (err StepError.deadline, w);
  run_action = λ limit r w. (err StepError.deadline, w);
  change_service = λ limit o r w. (err StepError.deadline, w);
  sleep = λ t w. (true, w);
  remaining = λ w. none;
}

-- A file system that counts the removals.
abbrev pub counting : Files ℕ
counting = record {
  presence = λ path w. present;
  private_dir = λ path w. none;
  read_dir = λ path w. ok ("rootfs.ext4" ∷ "vsock.sock" ∷ []);
  owned_child = λ dir name w. ok name;
  kind_of = λ path w. ok regular;
  remove = λ path w. (none, w + 1);
}

-- What stop_vmm answers; every other call succeeds.
answer_of : Option String → Call → Option String
answer_of stop stop_vmm = stop
answer_of stop _ = none

abbrev world_with : Option String → World ℕ
world_with stop = record {
  perform = λ c w. (answer_of stop c, w);
  observe = λ w. (ok (record { realtime = pos 5; monotonic_ns = pos 5; boottime_ns = pos 5 }), w);
  guest = quiet_guest;
  files = counting;
  time = one_time;
  process = λ w. record { pid = 9; uid = 0; host_boot_id = "boot" };
  context_error = λ w. none;
  parent_cancelled = λ w. false;
  vmm_exited = λ w. none;
  recorder_error = λ w. none;
  marshal = λ v. record { size = 20; decoded = some (obj (field "realtime" (str "1970") end)) };
  marshal_error = λ v. none;
  format_int = λ n. "0";
  json_size = λ v. 6;
}

abbrev pub operator : Operator
operator = record {
  runtime_root = "/run/epoch";
  evidence_dir = "/var/epoch";
  uid = 1000;
  threshold_ns = pos 1000;
}

abbrev run_id : String
run_id = "00112233445566778899aabbccddeeff"

abbrev pub manifest : Manifest
manifest = record {
  api_version = "epoch-run/v1";
  run_id = run_id;
  host_boot_id = "boot";
  uid = 1000;
  stage = validating;
  runtime_dir = "/run/epoch/00112233445566778899aabbccddeeff";
  process = none;
  cleanup = incomplete;
}

abbrev pub report : Report
report = record {
  run_id = run_id;
  api_version = "epoch-result/v1";
  scenario_name = "demo";
  execution = error;
  assertion = not_evaluated;
  cleanup = incomplete;
  stage = validating;
  steps = [];
  assertions = [];
  causes = [];
  report_saved = false;
}

abbrev first_state : State ℕ
first_state = record {
  world = 0;
  report = report;
  manifest = manifest;
  has_vmm = false;
  has_guest = false;
  last_host = none;
  bytes = 0;
}

abbrev look_plan : Scenario
look_plan = record plan {
  steps = record blank { id = "now"; op = clock_read } ∷ [];
  assertions =
      record { id = "there"; step = "now"; pointer = "/realtime"; op = exists; value = none } ∷ [];
}

run_success_example :
    ((run (world_with none) operator look_plan first_state).report.causes ≡ [])
    × ((run (world_with none) operator look_plan first_state).report.report_saved ≡ true)
    × (all is_pass (run (world_with none) operator look_plan first_state).report.assertions ≡ true)
unfolding run exit_code or_failure recorder_verdict call copy_cleanup note_cancelled clean_up
    closing removal settle save_final shut_guest stop_process remove_files add_cause add_failure
    observe enter is_pass pointer_tokens byte_length split_slash remove_owned_runtime collect_paths
    remove_all owns_runtime is_run_id member unescape resolve_tokens find_field pointer_step execute
    boot answer_of run_steps run_step compare_observations evaluate selected evaluate_one lookup
    resolve_pointer conclude
run_success_example =
    run_success (world_with none) operator look_plan first_state (refl, refl, refl) refl

step_still : (s : Step) (w : ℕ) → w ≡ 0 → (execute_step one_time quiet_guest s w).1 ≡ 0
unfolding execute_step
step_still s w h = ground arith

untouched : IsKept (world_with (some "busy")) (λ w. w ≡ 0)
untouched = record { by_perform = λ c w h. h; by_observe = λ w h. h; by_step = step_still }

stubborn : (w : ℕ) → ((world_with (some "busy")).perform stop_vmm w).0 ≢ none
unfolding answer_of
stubborn w h = cc

run_contained_example :
    ((run (world_with (some "busy")) operator look_plan first_state).world ≡ 0)
    × ((run (world_with (some "busy")) operator look_plan first_state).report.cleanup ≡ incomplete)
    × (exit_code (run (world_with (some "busy")) operator look_plan first_state).report ≡ 4)
unfolding execute boot answer_of run_steps run_step compare_observations evaluate selected
    evaluate_one lookup resolve_pointer conclude
run_contained_example =
    run_contained (world_with (some "busy")) operator (λ w. w ≡ 0) untouched stubborn look_plan
      first_state refl refl refl

run_bounded_example :
    length (run (world_with (some "busy")) operator look_plan first_state).report.causes ≤ 64
run_bounded_example =
    run_bounded (world_with (some "busy")) operator look_plan first_state (omega arith)
