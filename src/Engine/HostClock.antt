-- ===== src/Engine/HostClock.antt =====
-- Compare of internal/hostcheck/hostcheck.go: sampled discontinuities of the host's clocks.
pub mod Drift
use epoch.Base.{
  Bool, true, false, ◌||◌, Option, none, some, ℤ, pos, ltb_ℤ, leb_ℤ, ◌-ℤ◌, wrap64, saturate64,
  if◌then◌else◌,
}

-- hostcheck.Observation, in nanoseconds
pub record HostObservation : Type 0 where
  pub realtime : ℤ
  pub monotonic_ns : ℤ
  pub boottime_ns : ℤ

pub data ClockAnomaly : Type 0 where
  bad_threshold regressed discontinuity suspended : ClockAnomaly

beyond : ℤ → ℤ → Bool
unfolding ◌-ℤ◌
beyond threshold d = ltb_ℤ threshold d || ltb_ℤ d (pos 0 -ℤ threshold)

unfoldable pub compare_observations : HostObservation → HostObservation → ℤ → Option ClockAnomaly
unfolding beyond ◌-ℤ◌ wrap64 saturate64
compare_observations a b threshold =
    let mono = wrap64 (b.monotonic_ns -ℤ a.monotonic_ns) in
    let boot = wrap64 (b.boottime_ns -ℤ a.boottime_ns) in
    let drift = wrap64 (saturate64 (b.realtime -ℤ a.realtime) -ℤ mono) in
    let suspend = wrap64 (boot -ℤ mono) in
    if leb_ℤ threshold (pos 0)
    then some bad_threshold
    else if ltb_ℤ mono (pos 0) || ltb_ℤ boot (pos 0)
    then some regressed
    else if beyond threshold drift
    then some discontinuity
    else if beyond threshold suspend
    then some suspended
    else none
