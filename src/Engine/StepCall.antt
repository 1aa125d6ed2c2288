-- ===== src/Engine/StepCall.antt =====
-- internal/engine/steps.go: one planned step against the guest, and the host's own checks of what
-- the guest answers.
pub mod Checks
use epoch.Base.{
  ℕ, ◌*◌, ◌/◌, ◌^◌, ◌+◌, String, byte_length, Bool, true, false, not, ◌&&◌, ◌||◌, Option, none,
  some, List, ltb, leb, ℤ, pos, negsuc, pos_part, ltb_ℤ, leb_ℤ, eqb_ℤ, ◌+ℤ◌, ◌-ℤ◌, wrap64, Result,
  ok, err, ◌>>=◌, ◌>>◌, guard, str_eq, if◌then◌else◌,
}
use epoch.Json.{Raw}
use epoch.Scenario.{
  Op, clock_read, clock_set, action_exec, service_start, service_stop, wait, other_op, Step,
}
use epoch.Scenario.StepRules.{TimeText}
use epoch.Guest.{
  zero_time, ClockObservation, ClockSetRequest, ClockSetResult, ActionRequest, ActionResult,
  ServiceRequest, ServiceResult,
}
use epoch.Guest.Clock.{milliseconds}

pub data StepError : Type 0 where
  call_failed : String → StepError
  deadline invalid_clock clock_regressed bad_target readback_refused : StepError
  abnormal_exit output_quota output_missing output_malformed : StepError
  lifecycle_mismatch diagnostic_quota unsupported_operation : StepError

-- What a step returns, before it is marshalled.
pub data Observation : Type 0 where
  clock_observation : ClockObservation → Observation
  clock_change : ClockSetResult → Observation
  action_run : ActionResult → Observation
  service_change : ServiceResult → Observation
  waited : ClockObservation → ClockObservation → ℤ → Observation

-- Guest.Call by operation, over the state `W` of the world; the first number is the time limit in
-- nanoseconds. `sleep` is true where the timer fires before the context ends. `remaining` is the
-- time left to the deadline of the context.
pub record Guest (W : Type 0) : Type 0 where
  pub read_clock : ℤ → W → Result StepError ClockObservation × W
  pub set_clock : ℤ → ClockSetRequest → W → Result StepError ClockSetResult × W
  pub run_action : ℤ → ActionRequest → W → Result StepError ActionResult × W
  pub change_service : ℤ → Op → ServiceRequest → W → Result StepError ServiceResult × W
  pub sleep : ℤ → W → Bool × W
  pub remaining : W → Option ℤ

-- validClock
unfoldable pub valid_clock : ClockObservation → Bool
valid_clock c = not (eqb_ℤ c.realtime zero_time) && leb_ℤ (pos 0) c.monotonic_ns

-- validInterval
unfoldable pub check_interval : ClockObservation → ClockObservation → Result StepError (Unit {0})
unfolding valid_clock
check_interval before after = do
  guard (valid_clock before) invalid_clock
  guard (valid_clock after) invalid_clock
  guard (leb_ℤ before.monotonic_ns after.monotonic_ns) clock_regressed

has_budget : Op → Bool
has_budget action_exec = true
has_budget service_start = true
has_budget service_stop = true
has_budget _ = false

abbrev pub second_ns : ℤ
second_ns = pos (10 ^ 9)

abbrev allowance_ns : ℤ
allowance_ns = pos (4 * 10 ^ 9)

-- The request's own limit in ms, and the limit of the call in ns.
pub record Limits : Type 0 where
  pub request_ms : ℤ
  pub call_ns : ℤ

whole_ms : ℤ → ℤ
whole_ms (pos n) = pos (n / 1000000)
whole_ms (negsuc n) = pos 0 -ℤ pos ((n + 1) / 1000000)

-- A budget that is cut to what is left of the run, with the allowance for the response.
budget : ℤ → Option ℤ → Result StepError Limits
unfolding whole_ms milliseconds wrap64 ◌+ℤ◌
budget timeout none =
    ok (record { request_ms = whole_ms timeout; call_ns = wrap64 (timeout +ℤ allowance_ns) })
budget timeout (some left) = do
  guard (leb_ℤ (pos 1000000) left) deadline
  let t = if ltb_ℤ left timeout then milliseconds (whole_ms left) else timeout
  ok (record { request_ms = whole_ms t; call_ns = wrap64 (t +ℤ allowance_ns) })

-- The part of executeStep above its switch.
unfoldable pub step_limits : Step → Option ℤ → Result StepError Limits
unfolding budget has_budget milliseconds wrap64 ◌+ℤ◌ whole_ms
step_limits s left =
    let timeout =
      if ltb_ℤ (pos 0) s.timeout_ms then milliseconds s.timeout_ms else pos (5 * 10 ^ 9) in
    if has_budget s.op
    then budget timeout left
    else ok (record {
      request_ms = whole_ms timeout;
      call_ns = elim s.op [
        | wait ↦ wrap64 (milliseconds s.duration_ms +ℤ pos (5 * 10 ^ 9))
        | _ ↦ timeout
      ];
    })

-- The host's validation of a clock.set answer, on the parsed target.
unfoldable pub readback_accepted : Step → ℤ → ClockSetResult → Bool
unfolding milliseconds wrap64 ◌+ℤ◌ ◌-ℤ◌
readback_accepted s target v =
    let elapsed = wrap64 (v.after.monotonic_ns -ℤ v.before.monotonic_ns) in
    let tolerance = milliseconds s.tolerance_ms in
    v.readback_valid
    && (eqb_ℤ v.target target
        && (eqb_ℤ v.tolerance_ms s.tolerance_ms
            && (leb_ℤ (pos 0) elapsed
                && (eqb_ℤ elapsed v.elapsed_ns
                    && (leb_ℤ (target +ℤ wrap64 (pos 0 -ℤ tolerance)) v.after.realtime
                        && leb_ℤ v.after.realtime (target +ℤ wrap64 (elapsed +ℤ tolerance)))))))

check_clock_set : TimeText → Step → ClockSetResult → Result StepError Observation
unfolding readback_accepted valid_clock
check_clock_set time s v = elim (time.parse s.at) [
  | none ↦ err bad_target
  | some target ↦ (do
    guard (valid_clock v.before) invalid_clock
    guard (valid_clock v.after) invalid_clock
    guard (readback_accepted s target v) readback_refused
    ok (clock_change v))
]

abbrev max_output : ℕ
max_output = 64 * 1024

raw_size : Option Raw → ℕ
raw_size none = 0
raw_size (some raw) = raw.size

check_stdout : Option Raw → Result StepError (Unit {0})
check_stdout none = err output_missing
check_stdout (some raw) = elim raw.decoded [ none ↦ err output_malformed | some v ↦ ok tt ]

unfoldable pub check_action : ActionResult → Result StepError Observation
unfolding check_interval raw_size check_stdout
check_action v = do
  guard (leb_ℤ (pos 0) v.exit_code && leb_ℤ v.exit_code (pos 255)) abnormal_exit
  guard
      (not (v.stdout_truncated || v.stderr_truncated)
        && (leb (raw_size v.stdout_json) max_output && leb (byte_length v.stderr) max_output))
      output_quota
  check_stdout v.stdout_json
  check_interval v.before v.after
  ok (action_run v)

is_start : Op → Bool
is_start service_start = true
is_start _ = false

same_bool : Bool → Bool → Bool
same_bool true b = b
same_bool false b = not b

unfoldable pub check_service : Step → ServiceResult → Result StepError Observation
unfolding check_interval is_start same_bool
check_service s v = do
  guard (str_eq v.service s.service && same_bool v.running (is_start s.op)) lifecycle_mismatch
  guard (leb (byte_length v.stdout) max_output && leb (byte_length v.stderr) max_output)
      diagnostic_quota
  check_interval v.before v.after
  ok (service_change v)

check_clock_read : ClockObservation → Result StepError Observation
unfolding valid_clock
check_clock_read v = do guard (valid_clock v) invalid_clock; ok (clock_observation v)

check_wait : Step → ClockObservation → ClockObservation → Result StepError Observation
unfolding check_interval
check_wait s before after = do check_interval before after; ok (waited before after s.duration_ms)

-- A call's answer, checked.
checked :
    {A W : Type 0}
    → (A → Result StepError Observation)
    → Result StepError A × W
    → Result StepError Observation × W
checked check (ok a, w) = (check a, w)
checked check (err e, w) = (err e, w)

module _ {W : Type 0} (time : TimeText) (guest : Guest W) where
  after_sleep : Step → Limits → ClockObservation → Bool × W → Result StepError Observation × W
  unfolding checked check_wait
  after_sleep s limits before (false, w) = (err deadline, w)
  after_sleep s limits before (true, w) =
      checked (check_wait s before) (guest.read_clock limits.call_ns w)

  execute_wait :
      Step → Limits → Result StepError ClockObservation × W → Result StepError Observation × W
  unfolding after_sleep milliseconds
  execute_wait s limits (err e, w) = (err e, w)
  execute_wait s limits (ok before, w) =
      after_sleep s limits before (guest.sleep (milliseconds s.duration_ms) w)

  service_call : Step → Limits → W → Result StepError Observation × W
  unfolding checked check_service
  service_call s limits w = checked (check_service s) (
      guest.change_service limits.call_ns s.op
        (record { service = s.service; timeout_ms = limits.request_ms; input = s.input }) w)

  -- The switch of executeStep.
  perform : Op → Step → Limits → W → Result StepError Observation × W
  unfolding checked check_clock_read check_clock_set check_action service_call execute_wait
  perform clock_read s limits w = checked check_clock_read (guest.read_clock limits.call_ns w)
  perform clock_set s limits w = checked (check_clock_set time s) (
      guest.set_clock limits.call_ns
        (record { at = s.at; tolerance_ms = s.tolerance_ms; allow_live = s.allow_live }) w)
  perform action_exec s limits w = checked check_action (
      guest.run_action limits.call_ns
        (record { action = s.action; input = s.input; timeout_ms = limits.request_ms }) w)
  perform service_start s limits w = service_call s limits w
  perform service_stop s limits w = service_call s limits w
  perform wait s limits w = execute_wait s limits (guest.read_clock limits.call_ns w)
  perform (other_op text) s limits w = (err unsupported_operation, w)

  -- executeStep up to json.Marshal, which the caller does.
  unfoldable pub execute_step : Step → W → Result StepError Observation × W
  unfolding perform step_limits
  execute_step s w = elim (step_limits s (guest.remaining w)) [
    | err e ↦ (err e, w)
    | ok limits ↦ perform s.op s limits w
  ]
