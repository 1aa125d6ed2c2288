-- ===== src/Engine/StepCall/Checks.antt =====
-- The host's validation of a clock.set (internal/engine/steps.go) against the guest's own verdict
-- (internal/guestclock/clock.go).
use epoch.Base.{
  ℕ, ◌*◌, ◌^◌, ◌≤◌, ◌<◌, ◌≡◌, true, ◌&&◌, pos, sub_ℕ, wrap64, ◌+ℤ◌, diff64, neg64, arith, leb_ℤ,
  eqb_ℤ,
}
use epoch.Scenario.{Step}
use epoch.Guest.{ClockObservation, ClockSetResult}
use epoch.Guest.Clock.{readback}
use epoch.Guest.Clock.Readback.{
  Readings, IsWithin, milliseconds-pos, readback_exact, readback_fields,
}
use epoch.Engine.StepCall.{readback_accepted}

accepted_lem :
    (t r b a k : ℕ)
    → b < 2 ^ 61
    → a < 2 ^ 61
    → k ≤ 10000
    → IsWithin t r b a k
    → (true
        && (eqb_ℤ (pos t) (pos t)
            && (eqb_ℤ (pos k) (pos k)
                && (leb_ℤ (pos 0) (sub_ℕ a b)
                    && (eqb_ℤ (sub_ℕ a b) (sub_ℕ a b)
                        && (leb_ℤ (pos t +ℤ sub_ℕ 0 (k * 1000000)) (pos r)
                            && leb_ℤ
                                (pos r)
                                (pos t +ℤ wrap64 (sub_ℕ a b +ℤ pos (k * 1000000)))))))))
      ≡ true
unfolding wrap64 ◌+ℤ◌
accepted_lem t r b a k hb ha hk h = ground arith

module _ (s : Step) (out : ClockSetResult) (after : ClockObservation) (m : Readings out after) where
  -- The host, which recomputes the readback from the two observations, accepts what the guest has
  -- found valid for the target and the tolerance that the step asked for.
  pub host_accepts_guest :
      s.tolerance_ms ≡ pos m.tolerance
      → (readback out after).readback_valid ≡ true
      → readback_accepted s (pos m.target) (readback out after) ≡ true
  unfolding readback_accepted
  host_accepts_guest same valid =
      let (fa, fb, ft, fk, fe) = readback_fields out after in
      let within = (readback_exact out after m).0 valid in
      rw
        (
          valid,
          same,
          fa,
          fb,
          ft,
          fk,
          fe,
          m.target_is,
          m.realtime_is,
          m.start_is,
          m.stop_is,
          m.tolerance_is,
          milliseconds-pos m.tolerance m.tolerance_fits,
          diff64 m.stop m.start (omega (arith, m.stop_fits)) (omega (arith, m.start_fits)),
          neg64 (m.tolerance * 1000000) (omega (arith, m.tolerance_fits)),
        )
        (accepted_lem m.target m.realtime m.start m.stop m.tolerance m.start_fits m.stop_fits
          m.tolerance_fits within)
