-- ===== src/Guest/Server.antt =====
-- internal/guestagent/server.go: one request of the guest agent, and one session of requests.
pub mod Session
pub mod Safety
pub mod Limits
use epoch.Base.{
  ℕ, ◌*◌, String, Bool, true, false, not, ◌&&◌, ◌||◌, Option, none, some, List, [], ◌∷◌, ltb, ℤ,
  pos, leb_ℤ, eqb_ℤ, Result, ok, err, ◌>>=◌, ◌>>◌, guard, has_key, str_eq, if◌then◌else◌,
}
use epoch.Json.{Raw}
use epoch.Scenario.StepRules.{TimeText}
use epoch.Guest.{
  ClockObservation, ClockSetRequest, ClockSetResult, ActionRequest, ActionResult, ServiceRequest,
  ServiceResult,
}
use epoch.Guest.Identity.{Identity}
use epoch.Guest.Manifest.{Manifest}
use epoch.Guest.Clock.{no_observation, Boundary, ClockError, set_clock, read_clock}

-- Request.Op; `other_op` is every text that the switch does not name.
pub data GuestOp : Type 0 where
  hello clock_read clock_set action_exec service_start service_stop shutdown : GuestOp
  other_op : String → GuestOp

-- The typed errors of the wire, by their codes, and the untyped ones.
pub data GuestError : Type 0 where
  service_exited live_clock_denied clock_not_ready unsupported_operation : GuestError
  missing_payload invalid_payload undeclared input_quota stop_takes_no_input bad_timeout :
      GuestError
  clock_failed : ClockError → GuestError
  runner_failed : String → GuestError

-- What a handler returns beside its error.
pub data Reply : Type 0 where
  nothing empty : Reply
  hello_reply : Identity → Reply
  observation : ClockObservation → Reply
  clock_reply : ClockSetResult → Reply
  action_reply : ActionResult → Reply
  service_reply : ServiceResult → Reply

-- The decoder of request payloads: jsonutil.Decode into each request type. `missing` holds of an
-- absent or null payload.
pub record Codec (P : Type 0) : Type 0 where
  pub missing : P → Bool
  pub as_empty : P → Bool
  pub as_clock_set : P → Option ClockSetRequest
  pub as_action : P → Option ActionRequest
  pub as_service : P → Option ServiceRequest

-- Runner: the workload processes, over their state `R`. The first number is the time limit in ms.
pub record Runner (R : Type 0) : Type 0 where
  pub health : R → Option String × R
  pub active : R → ℕ
  pub action : ℤ → ActionRequest → R → (ActionResult × Option String) × R
  pub start : ℤ → ServiceRequest → R → (ServiceResult × Option String) × R
  pub stop : ℤ → ServiceRequest → R → (ServiceResult × Option String) × R
  pub stop_all : R → Option String × R

pub record Request (P : Type 0) : Type 0 where
  pub version : String
  pub id : String
  pub op : GuestOp
  pub run_id : String
  pub nonce : String
  pub payload : P

-- Server: its clockReady, and the machine that its Clock and Runner act on.
pub record Server (S R : Type 0) : Type 0 where
  pub clock_ready : Bool
  pub clock : S
  pub runner : R

pub record Outcome (S R : Type 0) : Type 0 where
  pub reply : Reply
  pub error : Option GuestError
  pub server : Server S R

-- requestTimeout
unfoldable pub request_timeout : ℤ → Result GuestError ℤ
request_timeout ms =
    let t = if eqb_ℤ ms (pos 0) then pos 5000 else ms in
    if leb_ℤ (pos 1) t && leb_ℤ t (pos 600000) then ok t else err bad_timeout

abbrev max_input : ℕ
max_input = 64 * 1024

-- len(p.Input) > protocol.MaxInput is refused
quota_rule : Option Raw → Result GuestError (Unit {0})
quota_rule none = ok tt
quota_rule (some raw) = guard (not (ltb max_input raw.size)) input_quota

decode_rule : Option Raw → Result GuestError (Unit {0})
decode_rule none = ok tt
decode_rule (some raw) = elim raw.decoded [ none ↦ err invalid_payload | some v ↦ ok tt ]

is_some {ℓ} : {A : Type ℓ} → Option A → Bool
is_some none = false
is_some (some _) = true

module _ {P S R : Type 0} (codec : Codec P) (time : TimeText) (boundary : Boundary S)
    (runner : Runner R) (identity : Identity) (manifest : Manifest) where
  refuse : GuestError → Server S R → Outcome S R
  refuse e s = record { reply = nothing; error = some e; server = s }

  answer : Reply → Server S R → Outcome S R
  answer r s = record { reply = r; error = none; server = s }

  -- decode(v), then the rest on the value
  decoded : {A : Type 0} → P → (P → Option A) → Result GuestError A
  decoded p read =
      if codec.missing p
      then err missing_payload
      else elim (read p) [ none ↦ err invalid_payload | some a ↦ ok a ]

  as_unit : P → Option (Unit {0})
  as_unit p = if codec.as_empty p then some tt else none

  handle_hello : P → Server S R → Outcome S R
  unfolding decoded as_unit answer refuse
  handle_hello p s = elim (decoded p as_unit) [
    | err e ↦ refuse e s
    | ok _ ↦ answer (hello_reply identity) s
  ]

  observed : Result ClockError ClockObservation × S → Server S R → Outcome S R
  unfolding answer
  observed (ok v, c) s = answer (observation v) (record s { clock = c })
  observed (err e, c) s = record {
    reply = observation no_observation;
    error = some (clock_failed e);
    server = record s { clock = c };
  }

  handle_clock_read : P → Server S R → Outcome S R
  unfolding decoded as_unit observed refuse read_clock
  handle_clock_read p s = elim (decoded p as_unit) [
    | err e ↦ refuse e s
    | ok _ ↦ observed (read_clock time boundary s.clock) s
  ]

  -- s.clockReady = err == nil && result.ReadbackValid
  after_clock_set : (ClockSetResult × Option ClockError) × S → Server S R → Outcome S R
  after_clock_set ((out, none), c) s = record {
    reply = clock_reply out;
    error = none;
    server = record s { clock_ready = out.readback_valid; clock = c };
  }
  after_clock_set ((out, some e), c) s = record {
    reply = clock_reply out;
    error = some (clock_failed e);
    server = record s { clock_ready = false; clock = c };
  }

  handle_clock_set : P → Server S R → Outcome S R
  unfolding decoded after_clock_set refuse
  handle_clock_set p s = elim (decoded p codec.as_clock_set) [
    | err e ↦ refuse e s
    | ok req ↦
        if ltb 0 (runner.active s.runner) && not req.allow_live
        then refuse live_clock_denied s
        else after_clock_set (set_clock time boundary req s.clock) s
  ]

  action_limit : P → Result GuestError (ActionRequest × ℤ)
  unfolding decoded quota_rule decode_rule request_timeout
  action_limit p = do
    req ← decoded p codec.as_action
    guard (has_key req.action manifest.actions) undeclared
    quota_rule req.input
    decode_rule req.input
    limit ← request_timeout req.timeout_ms
    ok (req, limit)

  after_action : (ActionResult × Option String) × R → Server S R → Outcome S R
  after_action ((v, none), r) s = record {
    reply = action_reply v;
    error = none;
    server = record s { runner = r };
  }
  after_action ((v, some e), r) s = record {
    reply = action_reply v;
    error = some (runner_failed e);
    server = record s { runner = r };
  }

  handle_action : P → Server S R → Outcome S R
  unfolding action_limit after_action refuse
  handle_action p s =
      if s.clock_ready
      then (elim (action_limit p) [
        | err e ↦ refuse e s
        | ok call ↦ after_action (runner.action call.1 call.0 s.runner) s
      ])
      else refuse clock_not_ready s

  -- `stopping` tells service.stop from service.start.
  service_limit : Bool → P → Result GuestError (ServiceRequest × ℤ)
  unfolding decoded quota_rule decode_rule request_timeout is_some
  service_limit stopping p = do
    req ← decoded p codec.as_service
    guard (has_key req.service manifest.services) undeclared
    quota_rule req.input
    guard (not (stopping && is_some req.input)) stop_takes_no_input
    decode_rule req.input
    limit ← request_timeout req.timeout_ms
    ok (req, limit)

  after_service : (ServiceResult × Option String) × R → Server S R → Outcome S R
  after_service ((v, none), r) s = record {
    reply = service_reply v;
    error = none;
    server = record s { runner = r };
  }
  after_service ((v, some e), r) s = record {
    reply = service_reply v;
    error = some (runner_failed e);
    server = record s { runner = r };
  }

  handle_service_start : P → Server S R → Outcome S R
  unfolding service_limit after_service refuse
  handle_service_start p s =
      if s.clock_ready
      then (elim (service_limit false p) [
        | err e ↦ refuse e s
        | ok call ↦ after_service (runner.start call.1 call.0 s.runner) s
      ])
      else refuse clock_not_ready s

  handle_service_stop : P → Server S R → Outcome S R
  unfolding service_limit after_service refuse
  handle_service_stop p s = elim (service_limit true p) [
    | err e ↦ refuse e s
    | ok call ↦ after_service (runner.stop call.1 call.0 s.runner) s
  ]

  -- errors.Join(Health(), StopAll()): both calls are made
  after_stop_all : Option String → Option String × R → Server S R → Outcome S R
  unfolding answer refuse
  after_stop_all none (none, r) s = answer empty (record s { runner = r })
  after_stop_all none (some e, r) s = refuse (runner_failed e) (record s { runner = r })
  after_stop_all (some e) (_, r) s = refuse (runner_failed e) (record s { runner = r })

  handle_shutdown : P → Server S R → Outcome S R
  unfolding decoded as_unit after_stop_all refuse
  handle_shutdown p s = elim (decoded p as_unit) [
    | err e ↦ refuse e s
    | ok _ ↦ let (bad, r) = runner.health s.runner in after_stop_all bad (runner.stop_all r) s
  ]

  -- The switch on the operation.
  dispatch : GuestOp → P → Server S R → Outcome S R
  unfolding handle_hello handle_clock_read handle_clock_set handle_action handle_service_start
      handle_service_stop handle_shutdown refuse
  dispatch hello p s = handle_hello p s
  dispatch clock_read p s = handle_clock_read p s
  dispatch clock_set p s = handle_clock_set p s
  dispatch action_exec p s = handle_action p s
  dispatch service_start p s = handle_service_start p s
  dispatch service_stop p s = handle_service_stop p s
  dispatch shutdown p s = handle_shutdown p s
  dispatch (other_op text) p s = refuse unsupported_operation s

  after_health : GuestOp → P → Option String × R → Server S R → Outcome S R
  unfolding dispatch refuse
  after_health op p (none, r) s = dispatch op p (record s { runner = r })
  after_health op p (some e, r) s = refuse service_exited (record s { runner = r })

  -- Server.handle: every operation but two is refused while a service has died.
  unfoldable pub handle : GuestOp → P → Server S R → Outcome S R
  unfolding after_health dispatch
  handle shutdown p s = dispatch shutdown p s
  handle service_stop p s = dispatch service_stop p s
  handle op p s = after_health op p (runner.health s.runner) s
