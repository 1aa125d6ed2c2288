-- ===== src/Guest.antt =====
-- The guest side: internal/guestclock, internal/guestagent/server.go and the wire types of
-- internal/protocol that they exchange.
pub mod Identity
pub mod Clock
pub mod Manifest
pub mod Frames
pub mod Workload
pub mod Server
use epoch.Base.{ℕ, ◌*◌, ◌^◌, String, Bool, Option, List, ℤ, pos, negsuc, ◌-◌}
use epoch.Json.{Raw}

-- Instants are nanoseconds of the Unix epoch. The zero time.Time is 0001-01-01.
abbrev pub zero_time : ℤ
zero_time = negsuc (62135596800 * 10 ^ 9 - 1)

-- protocol.ClockObservation
pub record ClockObservation : Type 0 where
  pub realtime : ℤ
  pub monotonic_ns : ℤ

-- protocol.ClockSetRequest
pub record ClockSetRequest : Type 0 where
  pub at : String
  pub tolerance_ms : ℤ
  pub allow_live : Bool

-- protocol.ClockSetResult
pub record ClockSetResult : Type 0 where
  pub target : ℤ
  pub before : ClockObservation
  pub after : ClockObservation
  pub elapsed_ns : ℤ
  pub tolerance_ms : ℤ
  pub readback_valid : Bool

-- protocol.ActionRequest
pub record ActionRequest : Type 0 where
  pub action : String
  pub input : Option Raw
  pub timeout_ms : ℤ

-- protocol.ActionResult
pub record ActionResult : Type 0 where
  pub exit_code : ℤ
  pub stdout_json : Option Raw
  pub stderr : String
  pub stdout_truncated : Bool
  pub stderr_truncated : Bool
  pub before : ClockObservation
  pub after : ClockObservation

-- protocol.ServiceRequest
pub record ServiceRequest : Type 0 where
  pub service : String
  pub timeout_ms : ℤ
  pub input : Option Raw

-- protocol.ServiceResult
pub record ServiceResult : Type 0 where
  pub service : String
  pub running : Bool
  pub before : ClockObservation
  pub after : ClockObservation
  pub stdout : String
  pub stderr : String
