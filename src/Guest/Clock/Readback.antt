-- ===== src/Guest/Clock/Readback.antt =====
-- The verdict of Controller.Set (internal/guestclock/clock.go) on its readback.
use epoch.Base.{
  ℕ, ◌+◌, ◌-◌, ◌*◌, ◌^◌, ◌≤◌, ◌<◌, ◌≡◌, ◌↔◌, refl, true, pos, sub_ℕ, wrap64, ◌-ℤ◌, ◌+ℤ◌, diff64,
  saturated_diff64, neg64, arith, ◌&&◌, leb_ℤ,
}
use epoch.Guest.{ClockObservation, ClockSetResult}
use epoch.Guest.Clock.{milliseconds, readback}

pub milliseconds-pos : (k : ℕ) → k ≤ 10000 → milliseconds (pos k) ≡ pos (k * 1000000)
unfolding milliseconds wrap64
milliseconds-pos k h = ground arith

-- The readings of a clock.set, as numbers: the target, the realtime read back, the monotonic clock
-- before and after, and the tolerance in milliseconds.
pub record Readings (out : ClockSetResult) (after : ClockObservation) : Type 0 where
  pub target : ℕ
  pub realtime : ℕ
  pub start : ℕ
  pub stop : ℕ
  pub tolerance : ℕ
  pub target_is : out.target ≡ pos target
  pub realtime_is : after.realtime ≡ pos realtime
  pub start_is : out.before.monotonic_ns ≡ pos start
  pub stop_is : after.monotonic_ns ≡ pos stop
  pub tolerance_is : out.tolerance_ms ≡ pos tolerance
  pub target_fits : target < 2 ^ 62
  pub realtime_fits : realtime < 2 ^ 62
  pub start_fits : start < 2 ^ 61
  pub stop_fits : stop < 2 ^ 61
  pub tolerance_fits : tolerance ≤ 10000

-- What the verdict is meant to say.
abbrev pub IsWithin : (t r b a k : ℕ) → Type 0
IsWithin t r b a k = (b ≤ a) × (t ≤ r + k * 1000000) × (r ≤ t + (a - b) + k * 1000000)

verdict_lem :
    (t r b a k : ℕ)
    → b < 2 ^ 61
    → a < 2 ^ 61
    → k ≤ 10000
    → ((leb_ℤ (pos 0) (sub_ℕ a b)
          && (leb_ℤ (sub_ℕ 0 (k * 1000000)) (sub_ℕ r t)
              && leb_ℤ (sub_ℕ r t) (wrap64 (sub_ℕ a b +ℤ pos (k * 1000000)))))
        ≡ true)
      ↔ IsWithin t r b a k
unfolding wrap64 ◌+ℤ◌
verdict_lem t r b a k hb ha hk = ground arith

module _ (out : ClockSetResult) (after : ClockObservation) (m : Readings out after) where
  -- The readback of a clock.set is valid exactly where the monotonic clock did not go back, and the
  -- clock reads no earlier than the target less the tolerance and no later than the target with the
  -- elapsed time and the tolerance, for readings of the sizes that clocks have.
  pub readback_exact : ((readback out after).readback_valid ≡ true) ↔ (
      (m.start ≤ m.stop)
      × (m.target ≤ m.realtime + m.tolerance * 1000000)
      × (m.realtime ≤ m.target + (m.stop - m.start) + m.tolerance * 1000000))
  unfolding readback
  readback_exact =
      rw
        (
          m.target_is,
          m.realtime_is,
          m.start_is,
          m.stop_is,
          m.tolerance_is,
          milliseconds-pos m.tolerance m.tolerance_fits,
          diff64 m.stop m.start (omega (arith, m.stop_fits)) (omega (arith, m.start_fits)),
          saturated_diff64 m.realtime m.target m.realtime_fits m.target_fits,
          neg64 (m.tolerance * 1000000) (omega (arith, m.tolerance_fits)),
        )
        (verdict_lem m.target m.realtime m.start m.stop m.tolerance m.start_fits m.stop_fits
          m.tolerance_fits)

-- The fields of a readback.
pub readback_fields :
    (out : ClockSetResult) (after : ClockObservation)
    → ((readback out after).after ≡ after)
      × ((readback out after).before ≡ out.before)
      × ((readback out after).target ≡ out.target)
      × ((readback out after).tolerance_ms ≡ out.tolerance_ms)
      × ((readback out after).elapsed_ns ≡ wrap64 (after.monotonic_ns -ℤ out.before.monotonic_ns))
unfolding readback
readback_fields out after = (refl, refl, refl, refl, refl)
