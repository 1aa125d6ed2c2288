-- ===== src/Engine/HostClock/Drift.antt =====
-- When Compare of internal/hostcheck/hostcheck.go finds no anomaly.
use epoch.Base.{
  ℕ, ◌+◌, ◌^◌, ◌≤◌, ◌<◌, ◌≡◌, ◌↔◌, Bool, false, ◌||◌, Option, none, some, pos, sub_ℕ, wrap64, ◌-ℤ◌,
  diff64, saturated_diff64, arith, leb_ℤ, ltb_ℤ, if◌then◌else◌,
}
use epoch.Engine.HostClock.{
  HostObservation, ClockAnomaly, bad_threshold, regressed, discontinuity, suspended, beyond,
  compare_observations,
}

-- The readings of an observation as numbers.
pub record Reading (o : HostObservation) : Type 0 where
  pub wall : ℕ
  pub mono : ℕ
  pub boot : ℕ
  pub wall_is : o.realtime ≡ pos wall
  pub mono_is : o.monotonic_ns ≡ pos mono
  pub boot_is : o.boottime_ns ≡ pos boot
  pub wall_fits : wall < 2 ^ 61
  pub mono_fits : mono < 2 ^ 61
  pub boot_fits : boot < 2 ^ 61

-- No clock went back, and no two clocks moved apart by more than `k` between the observations.
abbrev pub IsSteady : (r r' m m' b b' k : ℕ) → Type 0
IsSteady r r' m m' b b' k =
    (0 < k)
    × (m ≤ m')
    × (b ≤ b')
    × (r' + m ≤ r + m' + k)
    × (r + m' ≤ r' + m + k)
    × (b' + m ≤ b + m' + k)
    × (b + m' ≤ b' + m + k)

wrapped_gap :
    (x x' m m' : ℕ)
    → x < 2 ^ 61
    → x' < 2 ^ 61
    → m < 2 ^ 61
    → m' < 2 ^ 61
    → wrap64 (sub_ℕ x' x -ℤ sub_ℕ m' m) ≡ sub_ℕ (x' + m) (x + m')
unfolding wrap64 ◌-ℤ◌
wrapped_gap x x' m m' hx hx' hm hm' = ground arith

ladder : Bool → Bool → Bool → Bool → Option ClockAnomaly
ladder p q u v =
    if p
    then some bad_threshold
    else if q
    then some regressed
    else if u
    then some discontinuity
    else if v
    then some suspended
    else none

ladder_iff :
    (p q u v : Bool)
    → (ladder p q u v ≡ none) ↔ ((p ≡ false) × (q ≡ false) × (u ≡ false) × (v ≡ false))
unfolding ladder
ladder_iff p q u v = ground arith

beyond_iff : (k a b : ℕ) → (beyond (pos k) (sub_ℕ a b) ≡ false) ↔ ((a ≤ b + k) × (b ≤ a + k))
unfolding beyond ◌-ℤ◌
beyond_iff k a b = ground arith

regressed_iff :
    (m m' b b' : ℕ)
    → ((ltb_ℤ (sub_ℕ m' m) (pos 0) || ltb_ℤ (sub_ℕ b' b) (pos 0)) ≡ false) ↔ ((m ≤ m') × (b ≤ b'))
regressed_iff m m' b b' = ground arith

threshold_iff : (k : ℕ) → (leb_ℤ (pos k) (pos 0) ≡ false) ↔ (0 < k)
threshold_iff k = ground arith

verdict : (r r' m m' b b' k : ℕ) → Option ClockAnomaly
verdict r r' m m' b b' k =
    ladder (leb_ℤ (pos k) (pos 0)) (ltb_ℤ (sub_ℕ m' m) (pos 0) || ltb_ℤ (sub_ℕ b' b) (pos 0))
      (beyond (pos k) (sub_ℕ (r' + m) (r + m'))) (beyond (pos k) (sub_ℕ (b' + m) (b + m')))

verdict_iff : (r r' m m' b b' k : ℕ) → (verdict r r' m m' b b' k ≡ none) ↔ IsSteady r r' m m' b b' k
unfolding verdict
verdict_iff r r' m m' b b' k = (
  λ h.
      let (p, q, u, v) = (ladder_iff _ _ _ _).0 h in
      let forward = (regressed_iff m m' b b').0 q in
      let walls = (beyond_iff k (r' + m) (r + m')).0 u in
      let boots = (beyond_iff k (b' + m) (b + m')).0 v in
      ((threshold_iff k).0 p, forward.0, forward.1, walls.0, walls.1, boots.0, boots.1),
  λ s. (ladder_iff _ _ _ _).1 (
    (threshold_iff k).1 s.0,
    (regressed_iff m m' b b').1 (s.1, s.2),
    (beyond_iff k (r' + m) (r + m')).1 (s.3, s.4),
    (beyond_iff k (b' + m) (b + m')).1 (s.5, s.6),
  ),
)

module _ (a b : HostObservation) (x : Reading a) (y : Reading b) (k : ℕ) where
  -- Two observations of the host raise no anomaly exactly where the threshold is positive, neither the
  -- monotonic nor the boot clock went back, and the wall clock and the boot clock each moved with the
  -- monotonic clock to within the threshold, for readings of the sizes that clocks have.
  pub compare_exact :
      (compare_observations a b (pos k) ≡ none)
      ↔ IsSteady x.wall y.wall x.mono y.mono x.boot y.boot k
  unfolding compare_observations verdict ladder
  compare_exact =
      rw
        (
          x.wall_is,
          x.mono_is,
          x.boot_is,
          y.wall_is,
          y.mono_is,
          y.boot_is,
          diff64 y.mono x.mono (omega (arith, y.mono_fits)) (omega (arith, x.mono_fits)),
          diff64 y.boot x.boot (omega (arith, y.boot_fits)) (omega (arith, x.boot_fits)),
          saturated_diff64 y.wall x.wall (omega (arith, y.wall_fits)) (omega (arith, x.wall_fits)),
          wrapped_gap x.wall y.wall x.mono y.mono x.wall_fits y.wall_fits x.mono_fits y.mono_fits,
          wrapped_gap x.boot y.boot x.mono y.mono x.boot_fits y.boot_fits x.mono_fits y.mono_fits,
        )
        (verdict_iff x.wall y.wall x.mono y.mono x.boot y.boot k)
