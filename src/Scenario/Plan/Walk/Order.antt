-- ===== src/Scenario/Plan/Walk/Order.antt =====
-- What a walk over the steps of a plan ensures (the two switches of Scenario.Validate in
-- internal/scenario/scenario.go).
use epoch.Base.{
  inl, inr, ◌⊎◌, pos, ◌<◌, false, ℕ, ◌+◌, ◌≤◌, String, Bool, true, false, ◌&&◌, ◌||◌, suc, List, [],
  ◌∷◌, ◌++◌, ◌≡◌, refl, sym, ap, subst, ◌∙◌, Bool-cases, str_eq, member, length, any, Result, ok,
  ◌>>=◌, >>=-eq-ok, arith, ok-injective, ◌⊎◌, inl, inr, member-insert, member-delete_self,
  member-delete_ne, length-delete, length-insert, member-nil, lookup, lookup-cons, none,
  length-delete-member, insert-IsDistinct, delete-IsDistinct, IsDistinct, eq_iff, pos,
}
use epoch.Scenario.{
  Op, clock_read, clock_set, action_exec, service_start, service_stop, wait, other_op, Step,
  Refusal,
}
use epoch.Scenario.Plan.Walk.{Progress, start, advance, barrier, resources}

-- The walk alone, on steps that are already checked.
abbrev pub advance_all : List Step → Progress → Result Refusal Progress
advance_all [] p = ok p
advance_all (s ∷ ss) p = advance s p >>= advance_all ss

pub advance_all-append :
    (xs ys : List Step) (p : Progress) {q : Progress}
    → advance_all (xs ++ ys) p ≡ ok q
    → (m : Progress) × (advance_all xs p ≡ ok m) × (advance_all ys m ≡ ok q)
advance_all-append [] ys p h = (p, refl, h)
advance_all-append (x ∷ xs) ys p h =
    let (m, here, there) = >>=-eq-ok (advance x p) _ h in
    let (n, first, later) = advance_all-append xs ys m there in
    (n, subst (λ r. (r >>= advance_all xs) ≡ ok n) (sym here) first, later)

abbrev pub is_set : Op → Bool
is_set clock_set = true
is_set _ = false

abbrev pub needs_barrier : Op → Bool
needs_barrier action_exec = true
needs_barrier service_start = true
needs_barrier _ = false

abbrev is_start : Op → Bool
is_start service_start = true
is_start _ = false

abbrev is_stop : Op → Bool
is_stop service_stop = true
is_stop _ = false

abbrev pub set_before : List Step → Bool
set_before = any (λ s. is_set s.op)

-- How often a list of steps starts, and how often it stops, the named service.
abbrev one_if : Bool → ℕ
one_if true = 1
one_if false = 0

abbrev pub starts : String → List Step → ℕ
starts name [] = 0
starts name (s ∷ ss) = one_if (is_start s.op && str_eq name s.service) + starts name ss

abbrev pub stops : String → List Step → ℕ
stops name [] = 0
stops name (s ∷ ss) = one_if (is_stop s.op && str_eq name s.service) + stops name ss

advance_op-set :
    (o : Op) (s : Step) (p q : Progress)
    → (barrier o s p >>= resources o s) ≡ ok q
    → q.clock_set ≡ (p.clock_set || is_set o)
unfolding barrier resources
advance_op-set clock_read s p q h = ground arith
advance_op-set clock_set s p q h = ground arith
advance_op-set action_exec s p q h = ground arith
advance_op-set service_start s p q h = ground arith
advance_op-set service_stop s p q h = ground arith
advance_op-set wait s p q h = ground arith
advance_op-set (other_op t) s p q h = ground arith

delta_op :
    (o : Op) (s : Step) (p q : Progress) (name : String)
    → (barrier o s p >>= resources o s) ≡ ok q
    → one_if (member name q.services) + one_if (is_stop o && str_eq name s.service)
      ≡ one_if (member name p.services) + one_if (is_start o && str_eq name s.service)
unfolding barrier resources
delta_op clock_read s p q name h = ground arith
delta_op clock_set s p q name h = ground arith
delta_op action_exec s p q name h = ground arith
delta_op service_start s p q name h =
    ground
      (arith, member-insert s.service name p.services, eq_iff s.service name, eq_iff name s.service)
delta_op service_stop s p q name h = elim (Bool-cases (str_eq s.service name)) [
  | inl e ↦
      ground (
        arith,
        member-delete_self s.service p.services,
        eq_iff s.service name,
        eq_iff name s.service,
      )
  | inr e ↦ ground (
    arith,
    member-delete_ne s.service name p.services e,
    eq_iff s.service name,
    eq_iff name s.service,
  )
]
delta_op wait s p q name h = ground arith
delta_op (other_op t) s p q name h = ground arith

room_op :
    (o : Op) (s : Step) (p q : Progress)
    → (barrier o s p >>= resources o s) ≡ ok q
    → length p.services ≤ 4
    → length q.services ≤ 4
unfolding barrier resources
room_op clock_read s p q h r = ground arith
room_op clock_set s p q h r = ground arith
room_op action_exec s p q h r = ground arith
room_op service_start s p q h r = ground arith
room_op service_stop s p q h r = ground (arith, length-delete s.service p.services)
room_op wait s p q h r = ground arith
room_op (other_op t) s p q h r = ground arith

advance-op :
    (s : Step) (p q : Progress)
    → advance s p ≡ ok q
    → (r : Progress) × ((barrier s.op s p >>= resources s.op s) ≡ ok r)
      × (q ≡ record r { steps = (s.id, s) ∷ r.steps })
unfolding advance
advance-op s p q h =
    let (m, here, there) = >>=-eq-ok (barrier s.op s p) _ h in
    let (r, later, done) = >>=-eq-ok (resources s.op s m) _ there in
    (r, subst (λ x. (x >>= resources s.op s) ≡ ok r) (sym here) later, sym (ok-injective done))

steps_op :
    (o : Op) (s : Step) (p q : Progress)
    → (barrier o s p >>= resources o s) ≡ ok q
    → q.steps ≡ p.steps
unfolding barrier resources
steps_op clock_read s p q h = ground arith
steps_op clock_set s p q h = ground arith
steps_op action_exec s p q h = ground arith
steps_op service_start s p q h = ground arith
steps_op service_stop s p q h = ground arith
steps_op wait s p q h = ground arith
steps_op (other_op t) s p q h = ground arith

-- A key that is not in the map behind a step is not the step's ID, and was not in the map before.
pub advance-new :
    (s : Step) (p q : Progress) (k : String)
    → advance s p ≡ ok q
    → lookup k q.steps ≡ none
    → (str_eq s.id k ≡ false) × (lookup k p.steps ≡ none)
advance-new s p q k h new =
    let (r, step, e) = advance-op s p q h in
    let (other, old) = lookup-cons k s.id s r.steps (ap (λ x. lookup k x.steps) (sym e) ∙ new) in
    (other, ap (lookup k) (sym (steps_op s.op s p r step)) ∙ old)

abbrev pub all_starts : List Step → ℕ
all_starts [] = 0
all_starts (s ∷ ss) = one_if (is_start s.op) + all_starts ss

abbrev pub all_stops : List Step → ℕ
all_stops [] = 0
all_stops (s ∷ ss) = one_if (is_stop s.op) + all_stops ss

size_op :
    (o : Op) (s : Step) (p q : Progress)
    → (barrier o s p >>= resources o s) ≡ ok q
    → IsDistinct p.services
    → IsDistinct q.services
      × (length q.services + one_if (is_stop o) ≡ length p.services + one_if (is_start o))
unfolding barrier resources
size_op clock_read s p q h d = ground (arith, d)
size_op clock_set s p q h d = ground (arith, d)
size_op action_exec s p q h d = ground (arith, d)
size_op service_start s p q h d =
    ground (arith, length-insert s.service p.services, insert-IsDistinct s.service p.services d)
size_op service_stop s p q h d =
    ground (
      arith,
      length-delete-member s.service p.services,
      delete-IsDistinct s.service p.services d,
      d,
    )
size_op wait s p q h d = ground (arith, d)
size_op (other_op t) s p q h d = ground (arith, d)

-- What holds between the progress before a list of steps and the progress behind it.
abbrev Counts : List Step → Progress → Progress → Type 0
Counts ss p q =
    (q.clock_set ≡ (p.clock_set || set_before ss))
    × ((name : String)
        → one_if (member name q.services) + stops name ss
          ≡ one_if (member name p.services) + starts name ss)
    × (length q.services + all_stops ss ≡ length p.services + all_starts ss)
    × (length q.services ≤ 4)
    × IsDistinct q.services

pub advance_all-Counts :
    (ss : List Step) (p q : Progress)
    → advance_all ss p ≡ ok q
    → length p.services ≤ 4
    → IsDistinct p.services
    → Counts ss p q
advance_all-Counts [] p q h room d =
    let e = ok-injective h in
    subst (λ x. Counts [] p x) e (ground arith, (λ name. omega arith), omega arith, room, d)
advance_all-Counts (s ∷ ss) p q h room d =
    let (m, here, later) = >>=-eq-ok (advance s p) _ h in
    let (r, step, e) = advance-op s p m here in
    let tail = subst (λ x. advance_all ss x ≡ ok q) e later in
    let (d', size) = size_op s.op s p r step d in
    let (set, each, total, fits, last) =
      advance_all-Counts ss (record r { steps = (s.id, s) ∷ r.steps }) q tail
        (room_op s.op s p r step room) d' in
    (
      ground (arith, set, advance_op-set s.op s p r step),
      (λ name. omega (arith, each name, delta_op s.op s p r name step)),
      omega (arith, total, size),
      fits,
      last,
    )

-- What must stand before a step, by the steps before it.
abbrev pub IsInOrder : List Step → Op → Step → Type 0
IsInOrder before action_exec s = set_before before ≡ true
IsInOrder before service_start s =
    (set_before before ≡ true)
    × (starts s.service before ≡ stops s.service before)
    × (all_starts before < all_stops before + 4)
IsInOrder before service_stop s = starts s.service before ≡ suc (stops s.service before)
IsInOrder before clock_set s = (s.allow_live ≡ true) ⊎ (all_starts before ≡ all_stops before)
IsInOrder before _ s = Unit

-- The start of a plan.
start-lem : start ≡ record { steps = []; services = []; clock_set = false; waits = pos 0 }
unfolding start
start-lem = refl

advance_op-IsInOrder :
    (before : List Step) (o : Op) (s : Step) (p q : Progress)
    → Counts before (record { steps = []; services = []; clock_set = false; waits = pos 0 }) p
    → (barrier o s p >>= resources o s) ≡ ok q
    → IsInOrder before o s
unfolding barrier resources
advance_op-IsInOrder before clock_read s p q (set, each, total, _, _) h = tt
advance_op-IsInOrder before clock_set s p q (set, each, total, _, _) h =
    elim (Bool-cases s.allow_live) [
      | inl live ↦ inl live
      | inr still ↦ inr (ground (arith, total, still))
    ]
advance_op-IsInOrder before action_exec s p q (set, each, total, _, _) h = ground (arith, set)
advance_op-IsInOrder before service_start s p q (set, each, total, _, _) h =
    ground
      (arith, set, each s.service, total, length-insert s.service p.services, member-nil s.service)
advance_op-IsInOrder before service_stop s p q (set, each, total, _, _) h =
    ground (arith, each s.service, member-nil s.service)
advance_op-IsInOrder before wait s p q (set, each, total, _, _) h = tt
advance_op-IsInOrder before (other_op t) s p q (set, each, total, _, _) h = tt

-- In a walk, each step has before it what its operation needs.
pub walk-IsInOrder :
    (before : List Step) (step : Step) (after : List Step) (q : Progress)
    → advance_all (before ++ step ∷ after) start ≡ ok q
    → IsInOrder before step.op step
walk-IsInOrder before step after q h =
    let (p, first, rest) = advance_all-append before (step ∷ after) start h in
    let (m, here, _) = >>=-eq-ok (advance step p) _ rest in
    let (r, done, _) = advance-op step p m here in
    let first = subst (λ x. advance_all before x ≡ ok p) start-lem first in
    advance_op-IsInOrder before step.op step p r
      (advance_all-Counts before _ p first (omega arith) tt) done
