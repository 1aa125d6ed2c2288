-- ===== src/Scenario/Plan/Walk.antt =====
-- The variables of the loop over the steps in Scenario.Validate, and the two switches of its body.
pub mod Order
use epoch.Base.{
  String, Bool, true, false, not, ◌||◌, List, [], ◌∷◌, ltb, ℤ, pos, ◌+ℤ◌, wrap64, Result, ok, ◌>>=◌,
  ◌>>◌, guard, member, insert, delete, length,
}
use epoch.Scenario.{
  Op, clock_set, action_exec, service_start, service_stop, wait, Step, Refusal,
  live_clock_not_allowed, no_clock_barrier, service_already_running, too_many_services,
  service_not_started,
}

pub record Progress : Type 0 where
  pub steps : List (String × Step)
  pub services : List String
  pub clock_set : Bool
  pub waits : ℤ

unfoldable pub start : Progress
start = record { steps = []; services = []; clock_set = false; waits = pos 0 }

-- The first switch: the readiness barrier.
barrier : Op → Step → Progress → Result Refusal Progress
barrier clock_set s p = do
  guard (not (ltb 0 (length p.services)) || s.allow_live) live_clock_not_allowed
  ok (record p { clock_set = true })
barrier action_exec s p = do guard p.clock_set no_clock_barrier; ok p
barrier service_start s p = do guard p.clock_set no_clock_barrier; ok p
barrier _ s p = ok p

-- The second switch: the services that run, and the time that waits take.
resources : Op → Step → Progress → Result Refusal Progress
unfolding ◌+ℤ◌ wrap64
resources service_start s p = do
  guard (not (member s.service p.services)) service_already_running
  let services = insert s.service p.services
  guard (not (ltb 4 (length services))) too_many_services
  ok (record p { services = services })
resources service_stop s p = do
  guard (member s.service p.services) service_not_started
  ok (record p { services = delete s.service p.services })
resources wait s p = ok (record p { waits = wrap64 (p.waits +ℤ s.duration_ms) })
resources _ s p = ok p

unfoldable pub advance : Step → Progress → Result Refusal Progress
unfolding barrier resources
advance s p = do
  q ← barrier s.op s p
  r ← resources s.op s q
  ok (record r { steps = (s.id, s) ∷ r.steps })
