-- ===== src/Guest/Clock.antt =====
-- Controller of internal/guestclock/clock.go: the one place that sets the guest's clock.
pub mod Readback
use epoch.Base.{
  ℕ, ◌*◌, ◌^◌, String, Bool, true, false, ◌&&◌, Option, none, some, ℤ, pos, negsuc, ◌+◌, leb_ℤ,
  eqb_ℤ, ◌-ℤ◌, ◌+ℤ◌, wrap64, saturate64, Result, ok, err, if◌then◌else◌,
}
use epoch.Scenario.StepRules.{TimeText, in_interval}
use epoch.Guest.{zero_time, ClockObservation, ClockSetRequest, ClockSetResult}

pub data ClockError : Type 0 where
  invalid_time outside_interval outside_tolerance : ClockError
  sample_failed set_failed : ClockError

-- Boundary: the system calls that read and set the clock, over a state `S` of the machine.
pub record Boundary (S : Type 0) : Type 0 where
  pub sample : S → Result ClockError ClockObservation × S
  pub set : ℤ → S → Result ClockError (Unit {0}) × S

abbrev pub no_observation : ClockObservation
no_observation = record { realtime = zero_time; monotonic_ns = pos 0 }

-- `var out protocol.ClockSetResult`
abbrev pub no_result : ClockSetResult
no_result = record {
  target = zero_time;
  before = no_observation;
  after = no_observation;
  elapsed_ns = pos 0;
  tolerance_ms = pos 0;
  readback_valid = false;
}

-- time.Duration(ms) * time.Millisecond
unfoldable pub milliseconds : ℤ → ℤ
unfolding wrap64
milliseconds (pos n) = wrap64 (pos (n * 1000000))
milliseconds (negsuc n) = wrap64 (negsuc (n * 1000000 + 999999))

-- The tail of Set: the elapsed time and the verdict on the readback.
unfoldable pub readback : ClockSetResult → ClockObservation → ClockSetResult
unfolding milliseconds wrap64 saturate64 ◌-ℤ◌ ◌+ℤ◌
readback out after =
    let elapsed = wrap64 (after.monotonic_ns -ℤ out.before.monotonic_ns) in
    let tolerance = milliseconds out.tolerance_ms in
    let delta = saturate64 (after.realtime -ℤ out.target) in
    record out {
      after = after;
      elapsed_ns = elapsed;
      readback_valid =
          leb_ℤ (pos 0) elapsed
          && (leb_ℤ (wrap64 (pos 0 -ℤ tolerance)) delta
              && leb_ℤ delta (wrap64 (elapsed +ℤ tolerance)));
    }

-- What Set returns: a result, which is partial beside an error.
abbrev pub SetReply : Type 0
SetReply = ClockSetResult × Option ClockError

module _ {S : Type 0} (time : TimeText) (boundary : Boundary S) where
  after_set : ClockSetResult → Result ClockError ClockObservation × S → SetReply × S
  after_set out (err e, s) = ((out, some e), s)
  after_set out (ok after, s) = ((readback out after, none), s)

  after_before : ClockSetResult → Result ClockError (Unit {0}) × S → SetReply × S
  unfolding after_set
  after_before out (err e, s) = ((out, some e), s)
  after_before out (ok _, s) = after_set out (boundary.sample s)

  after_sample : ClockSetResult → Result ClockError ClockObservation × S → SetReply × S
  unfolding after_before
  after_sample out (err e, s) = ((out, some e), s)
  after_sample out (ok before, s) =
      after_before (record out { before = before }) (boundary.set out.target s)

  set_target : ClockSetRequest → ℤ → S → SetReply × S
  unfolding after_sample
  set_target req target s =
      let tolerance = if eqb_ℤ req.tolerance_ms (pos 0) then pos 1000 else req.tolerance_ms in
      if in_interval target
      then (if leb_ℤ (pos 1) tolerance && leb_ℤ tolerance (pos 10000)
          then after_sample (record no_result { target = target; tolerance_ms = tolerance })
              (boundary.sample s)
          else ((no_result, some outside_tolerance), s))
      else ((no_result, some outside_interval), s)

  -- Controller.Set
  unfoldable pub set_clock : ClockSetRequest → S → SetReply × S
  unfolding set_target
  set_clock req s = elim (time.parse req.at) [
    | none ↦ ((no_result, some invalid_time), s)
    | some target ↦ set_target req target s
  ]

  -- Controller.Read
  unfoldable pub read_clock : S → Result ClockError ClockObservation × S
  read_clock s = boundary.sample s
