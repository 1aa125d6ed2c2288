-- ===== src/Tests/Clocks.antt =====
-- The theorems on clock readings, for one setting of the guest's clock and two samples of the host's.
use epoch.Base.{ℕ, ◌+◌, ◌-◌, ◌*◌, ◌≤◌, true, ◌≡◌, ◌↔◌, refl, none, pos, arith}
use epoch.Guest.{ClockObservation, ClockSetResult}
use epoch.Guest.Clock.{no_result, readback}
use epoch.Guest.Clock.Readback.{Readings, readback_exact}
use epoch.Engine.HostClock.{HostObservation, compare_observations}
use epoch.Engine.HostClock.Drift.{Reading, IsSteady, compare_exact}
use epoch.Engine.StepCall.{readback_accepted}
use epoch.Engine.StepCall.Checks.{host_accepts_guest}
use epoch.Tests.Plans.{set_step}

abbrev target_ns : ℕ
target_ns = 1767225600000000000

abbrev before_readback : ClockSetResult
before_readback = record no_result {
  target = pos target_ns;
  before = record { realtime = pos 5; monotonic_ns = pos 1000 };
  tolerance_ms = pos 1000;
}

abbrev after : ClockObservation
after = record { realtime = pos (target_ns + 2000); monotonic_ns = pos 3000 }

readings : Readings before_readback after
readings = record {
  target = target_ns;
  realtime = target_ns + 2000;
  start = 1000;
  stop = 3000;
  tolerance = 1000;
  target_is = refl;
  realtime_is = refl;
  start_is = refl;
  stop_is = refl;
  tolerance_is = refl;
  target_fits = omega arith;
  realtime_fits = omega arith;
  start_fits = omega arith;
  stop_fits = omega arith;
  tolerance_fits = omega arith;
}

readback_exact_example : ((readback before_readback after).readback_valid ≡ true) ↔ (
    (readings.start ≤ readings.stop)
    × (readings.target ≤ readings.realtime + readings.tolerance * 1000000)
    × (readings.realtime
        ≤ readings.target + (readings.stop - readings.start) + readings.tolerance * 1000000))
readback_exact_example = readback_exact before_readback after readings

host_accepts_guest_example :
    readback_accepted
      (record set_step { tolerance_ms = pos 1000 })
      (pos target_ns)
      (readback before_readback after)
    ≡ true
unfolding readings readback
host_accepts_guest_example =
    host_accepts_guest (record set_step { tolerance_ms = pos 1000 }) before_readback after readings
      refl refl

abbrev first_sample : HostObservation
first_sample = record { realtime = pos 9000; monotonic_ns = pos 100; boottime_ns = pos 200 }

abbrev second_sample : HostObservation
second_sample = record { realtime = pos 9500; monotonic_ns = pos 590; boottime_ns = pos 690 }

first_reading : Reading first_sample
first_reading = record {
  wall = 9000;
  mono = 100;
  boot = 200;
  wall_is = refl;
  mono_is = refl;
  boot_is = refl;
  wall_fits = omega arith;
  mono_fits = omega arith;
  boot_fits = omega arith;
}

second_reading : Reading second_sample
second_reading = record {
  wall = 9500;
  mono = 590;
  boot = 690;
  wall_is = refl;
  mono_is = refl;
  boot_is = refl;
  wall_fits = omega arith;
  mono_fits = omega arith;
  boot_fits = omega arith;
}

compare_exact_example :
    (compare_observations first_sample second_sample (pos 50) ≡ none)
    ↔ IsSteady 9000 9500 100 590 200 690 50
unfolding first_reading second_reading
compare_exact_example = compare_exact first_sample second_sample first_reading second_reading 50
