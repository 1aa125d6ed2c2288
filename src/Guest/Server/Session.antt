-- ===== src/Guest/Server/Session.antt =====
-- serveConn of internal/guestagent/server.go: the loop over the frames of one connection.
pub mod Requests
pub mod Quiet
use epoch.Base.{
  ℕ, String, Bool, true, false, ◌&&◌, ◌||◌, Option, List, [], ◌∷◌, leb, length, str_eq, member,
  if◌then◌else◌,
}
use epoch.Scenario.Names.{is_workload_identifier}
use epoch.Scenario.StepRules.{TimeText}
use epoch.Guest.Identity.{Identity}
use epoch.Guest.Manifest.{Manifest}
use epoch.Guest.Clock.{Boundary}
use epoch.Guest.Server.{
  GuestOp, shutdown, GuestError, Reply, Codec, Runner, Request, Server, Outcome, handle,
}

abbrev pub protocol_version : String
protocol_version = "epoch-guest/v1"

abbrev pub max_requests : ℕ
max_requests = 1024

-- What the reader goroutine delivers: a frame that decodes to a request or does not, or an error.
pub data Incoming (P : Type 0) : Type 0 where
  request : Request P → Incoming P
  malformed : Incoming P
  read_error : Incoming P

pub record Response : Type 0 where
  pub id : String
  pub op : GuestOp
  pub run_id : String
  pub nonce : String
  pub reply : Reply
  pub error : Option GuestError

-- How the loop ends; `waiting` is a session whose frames are not all in yet.
pub data Ending : Type 0 where
  waiting shut_down : Ending
  connection_error invalid_request identity_mismatch request_quota write_error : Ending

pub record Trace (S R : Type 0) : Type 0 where
  pub responses : List Response
  pub ending : Ending
  pub server : Server S R

is_shutdown : GuestOp → Bool
is_shutdown shutdown = true
is_shutdown _ = false

unfoldable pub identified : {P : Type 0} → Identity → Request P → Bool
identified identity req =
    str_eq req.version protocol_version
    && (str_eq req.run_id identity.run_id
        && (str_eq req.nonce identity.nonce && is_workload_identifier req.id))

module _ {P S R : Type 0} (codec : Codec P) (time : TimeText) (boundary : Boundary S)
    (runner : Runner R) (identity : Identity) (manifest : Manifest)
    (writable : Response → Bool) where
  stop_with : Ending → Server S R → Trace S R
  stop_with e s = record { responses = []; ending = e; server = s }

  response_to : Request P → Outcome S R → Response
  response_to req o = record {
    id = req.id;
    op = req.op;
    run_id = req.run_id;
    nonce = req.nonce;
    reply = o.reply;
    error = o.error;
  }

  -- The end of a round: the response is written, and a shutdown ends the loop.
  after_write : Response → Server S R → Trace S R → Trace S R
  unfolding stop_with is_shutdown
  after_write resp s later =
      if writable resp
      then (if is_shutdown resp.op
          then record { responses = resp ∷ []; ending = shut_down; server = s }
          else record later { responses = resp ∷ later.responses })
      else stop_with write_error s

  -- The loop, with the request IDs that it has seen.
  unfoldable pub serve : List String → Server S R → List (Incoming P) → Trace S R
  unfolding stop_with identified response_to after_write
  serve seen s [] = stop_with waiting s
  serve seen s (malformed ∷ rest) = stop_with invalid_request s
  serve seen s (read_error ∷ rest) = stop_with connection_error s
  serve seen s (request req ∷ rest) =
      let o = handle codec time boundary runner identity manifest req.op req.payload s in
      let later = serve (req.id ∷ seen) o.server rest in
      if identified identity req
      then (if member req.id seen || leb max_requests (length seen)
          then stop_with request_quota s
          else after_write (response_to req o) o.server later)
      else stop_with identity_mismatch s
