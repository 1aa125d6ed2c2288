-- ===== src/Guest/Server/Safety.antt =====
-- The readiness barrier of Server.handle in internal/guestagent/server.go.
use epoch.Base.{
  String, true, false, Option, none, some, ◌≡◌, ◌≢◌, ◌⊎◌, inl, inr, refl, arith, Result-cases,
  subst, sym, ℤ,
}
use epoch.Scenario.StepRules.{TimeText}
use epoch.Guest.{ClockSetRequest, ClockSetResult, ServiceRequest}
use epoch.Guest.Identity.{Identity}
use epoch.Guest.Manifest.{Manifest}
use epoch.Guest.Clock.{Boundary, ClockError, set_clock}
use epoch.Guest.Server.{
  GuestOp, hello, clock_read, clock_set, action_exec, service_start, service_stop, shutdown,
  other_op, clock_not_ready, service_exited, Codec, Runner, Server, Outcome, handle, dispatch,
  after_health, handle_hello, handle_clock_read, handle_clock_set, handle_action,
  handle_service_start, handle_service_stop, handle_shutdown, after_clock_set, service_limit,
  decoded, as_unit, refuse,
}

-- A property of the workload processes that looking at them and stopping them keeps.
pub record IsQuiet {R : Type 0} (runner : Runner R) (Q : R → Type 0) : Type 0 where
  pub by_health : (r : R) → Q r → Q (runner.health r).1
  pub by_stop : (limit : ℤ) (req : ServiceRequest) (r : R) → Q r → Q (runner.stop limit req r).1
  pub by_stop_all : (r : R) → Q r → Q (runner.stop_all r).1

-- The clock control never reports a valid readback.
abbrev pub IsUnset : {S : Type 0} → TimeText → Boundary S → Type 0
IsUnset {S} time boundary =
    (req : ClockSetRequest) (c : S)
    → ((set_clock time boundary req c).0.1 ≢ none)
      ⊎ ((set_clock time boundary req c).0.0.readback_valid ≡ false)

module _ {P S R : Type 0} (codec : Codec P) (time : TimeText) (boundary : Boundary S)
    (runner : Runner R) (identity : Identity) (manifest : Manifest) where
  -- Before the first valid readback of a clock.set, an action and the start of a service are refused:
  -- the workload is not touched, but for the look at its health, and the clock is not touched.
  pub handle_unready :
      (op : GuestOp) (p : P) (s : Server S R)
      → (op ≡ action_exec) ⊎ (op ≡ service_start)
      → s.clock_ready ≡ false
      → ((handle codec time boundary runner identity manifest op p s).server
          ≡ record s { runner = (runner.health s.runner).1 })
        × (((handle codec time boundary runner identity manifest op p s).error
              ≡ some clock_not_ready)
            ⊎ ((handle codec time boundary runner identity manifest op p s).error
                ≡ some service_exited))
  unfolding handle
  handle_unready op p s which unready = ground arith

  module _ (Q : R → Type 0) (quiet : IsQuiet runner Q) where
    -- The clock is not ready, and the workload is as `Q` says.
    abbrev pub IsIdle : Outcome S R → Type 0
    IsIdle o = (o.server.clock_ready ≡ false) × Q o.server.runner

    abbrev Idle : Server S R → Type 0
    Idle s = (s.clock_ready ≡ false) × Q s.runner

    set-Idle :
        (r : (ClockSetResult × Option ClockError) × S) (s : Server S R)
        → (r.0.1 ≢ none) ⊎ (r.0.0.readback_valid ≡ false)
        → Idle s
        → IsIdle (after_clock_set codec time boundary runner identity manifest r s)
    unfolding after_clock_set
    set-Idle ((out, none), c) s (inl n) h = absurd (n refl)
    set-Idle ((out, none), c) s (inr f) h = (f, h.1)
    set-Idle ((out, some e), c) s _ h = (refl, h.1)

    IsIdle-of :
        (o : Outcome S R) (r : R)
        → o.server.clock_ready ≡ false
        → o.server.runner ≡ r
        → Q r
        → IsIdle o
    IsIdle-of o r unready e q = (unready, subst Q (sym e) q)

    hello-Idle :
        (p : P) (s : Server S R)
        → Idle s
        → IsIdle (handle_hello codec time boundary runner identity manifest p s)
    unfolding handle_hello
    hello-Idle p s h =
        IsIdle-of (handle_hello codec time boundary runner identity manifest p s) s.runner
          (ground arith) (ground arith) h.1

    read-Idle :
        (p : P) (s : Server S R)
        → Idle s
        → IsIdle (handle_clock_read codec time boundary runner identity manifest p s)
    unfolding handle_clock_read
    read-Idle p s h =
        IsIdle-of (handle_clock_read codec time boundary runner identity manifest p s) s.runner
          (ground arith) (ground arith) h.1

    action-Idle :
        (p : P) (s : Server S R)
        → Idle s
        → IsIdle (handle_action codec time boundary runner identity manifest p s)
    unfolding handle_action
    action-Idle p s h =
        IsIdle-of (handle_action codec time boundary runner identity manifest p s) s.runner
          (ground arith) (ground arith) h.1

    start-Idle :
        (p : P) (s : Server S R)
        → Idle s
        → IsIdle (handle_service_start codec time boundary runner identity manifest p s)
    unfolding handle_service_start
    start-Idle p s h =
        IsIdle-of (handle_service_start codec time boundary runner identity manifest p s) s.runner
          (ground arith) (ground arith) h.1

    stop-Idle :
        (p : P) (s : Server S R)
        → Idle s
        → IsIdle (handle_service_stop codec time boundary runner identity manifest p s)
    unfolding handle_service_stop
    stop-Idle p s h =
        elim (Result-cases (service_limit codec time boundary runner identity manifest true p)) [
          | inl (call, e) ↦
              IsIdle-of (handle_service_stop codec time boundary runner identity manifest p s)
                (runner.stop call.1 call.0 s.runner).1 (ground arith) (ground arith)
                (quiet.by_stop call.1 call.0 s.runner h.1)
          | inr (bad, e) ↦
              IsIdle-of (handle_service_stop codec time boundary runner identity manifest p s)
                s.runner (ground arith) (ground arith) h.1
        ]

    shutdown-Idle :
        (p : P) (s : Server S R)
        → Idle s
        → IsIdle (handle_shutdown codec time boundary runner identity manifest p s)
    unfolding handle_shutdown
    shutdown-Idle p s h =
        elim (Result-cases (
          decoded codec time boundary runner identity manifest p
            (as_unit codec time boundary runner identity manifest))) [
              | inl (u, e) ↦
                  IsIdle-of (handle_shutdown codec time boundary runner identity manifest p s)
                    (runner.stop_all (runner.health s.runner).1).1 (ground arith) (ground arith)
                    (quiet.by_stop_all _ (quiet.by_health s.runner h.1))
              | inr (bad, e) ↦
                  IsIdle-of (handle_shutdown codec time boundary runner identity manifest p s)
                    s.runner (ground arith) (ground arith) h.1
            ]

    clock_set-Idle :
        IsUnset time boundary
        → (p : P) (s : Server S R) → Idle s
        → IsIdle (handle_clock_set codec time boundary runner identity manifest p s)
    unfolding handle_clock_set after_clock_set
    clock_set-Idle unset p s h =
        elim (Result-cases
          (decoded codec time boundary runner identity manifest p codec.as_clock_set)) [
            | inl (req, e) ↦
                IsIdle-of (handle_clock_set codec time boundary runner identity manifest p s)
                  s.runner (ground (arith, unset req s.clock)) (ground arith) h.1
            | inr (bad, e) ↦
                IsIdle-of (handle_clock_set codec time boundary runner identity manifest p s)
                  s.runner (ground arith) (ground arith) h.1
          ]

    dispatch-Idle :
        IsUnset time boundary
        → (op : GuestOp) (p : P) (s : Server S R) → Idle s
        → IsIdle (dispatch codec time boundary runner identity manifest op p s)
    unfolding dispatch refuse
    dispatch-Idle unset hello p s h = hello-Idle p s h
    dispatch-Idle unset clock_read p s h = read-Idle p s h
    dispatch-Idle unset clock_set p s h = clock_set-Idle unset p s h
    dispatch-Idle unset action_exec p s h = action-Idle p s h
    dispatch-Idle unset service_start p s h = start-Idle p s h
    dispatch-Idle unset service_stop p s h = stop-Idle p s h
    dispatch-Idle unset shutdown p s h = shutdown-Idle p s h
    dispatch-Idle unset (other_op text) p s h = h

    after_health-IsIdle :
        IsUnset time boundary
        → (op : GuestOp) (p : P) (look : Option String × R) (s : Server S R) → s.clock_ready ≡ false
        → Q look.1
        → IsIdle (after_health codec time boundary runner identity manifest op p look s)
    unfolding after_health refuse
    after_health-IsIdle unset op p (none, r) s unready q =
        dispatch-Idle unset op p (record s { runner = r }) (unready, q)
    after_health-IsIdle unset op p (some e, r) s unready q = (unready, q)

    -- A request keeps a server idle.
    pub handle-IsIdle :
        IsUnset time boundary
        → (op : GuestOp) (p : P) (s : Server S R) → (s.clock_ready ≡ false) × Q s.runner
        → IsIdle (handle codec time boundary runner identity manifest op p s)
    unfolding handle
    handle-IsIdle unset shutdown p s h = dispatch-Idle unset shutdown p s h
    handle-IsIdle unset service_stop p s h = dispatch-Idle unset service_stop p s h
    handle-IsIdle unset hello p s h =
        after_health-IsIdle unset hello p (runner.health s.runner) s h.0
          (quiet.by_health s.runner h.1)
    handle-IsIdle unset clock_read p s h =
        after_health-IsIdle unset clock_read p (runner.health s.runner) s h.0
          (quiet.by_health s.runner h.1)
    handle-IsIdle unset clock_set p s h =
        after_health-IsIdle unset clock_set p (runner.health s.runner) s h.0
          (quiet.by_health s.runner h.1)
    handle-IsIdle unset action_exec p s h =
        after_health-IsIdle unset action_exec p (runner.health s.runner) s h.0
          (quiet.by_health s.runner h.1)
    handle-IsIdle unset service_start p s h =
        after_health-IsIdle unset service_start p (runner.health s.runner) s h.0
          (quiet.by_health s.runner h.1)
    handle-IsIdle unset (other_op text) p s h =
        after_health-IsIdle unset (other_op text) p (runner.health s.runner) s h.0
          (quiet.by_health s.runner h.1)
