-- ===== src/Client.antt =====
-- internal/guestclient/client.go: the host's end of the connection to a guest. Dial opens it.
pub mod Dial
pub mod Calls
use epoch.Base.{
  ℕ, suc, ◌%◌, ◌^◌, Bytes, String, Bool, true, false, not, ◌&&◌, Option, none, some, str_eq,
  if◌then◌else◌, Result, ok, err, ◌>>=◌, ◌>>◌, guard,
}
use epoch.Guest.Server.{
  GuestOp, hello, clock_read, clock_set, action_exec, service_start, service_stop, shutdown,
  other_op,
}
use epoch.Guest.Server.Session.{protocol_version}
use epoch.Guest.Frames.{FrameError, max_frame}

-- protocol.Request, as the client sends it
pub record ClientRequest : Type 0 where
  pub version : String
  pub id : String
  pub op : String
  pub run_id : String
  pub nonce : String
  pub payload : String

-- protocol.Error without its details
pub record ErrorEnvelope : Type 0 where
  pub code : String
  pub message : String

-- protocol.Response; an absent result is the empty text.
pub record ClientResponse : Type 0 where
  pub version : String
  pub id : String
  pub op : String
  pub run_id : String
  pub nonce : String
  pub result : String
  pub error : Option ErrorEnvelope

-- What is wrong with an exchange that was begun.
pub data ProtocolFailure : Type 0 where
  write_failed read_failed : FrameError → ProtocolFailure
  bad_response response_mismatch bad_shape null_result bad_envelope bad_result : ProtocolFailure

pub data CallError : Type 0 where
  unusable unsupported : CallError
  context_ended not_marshalled : String → CallError
  guest_error : ErrorEnvelope → CallError
  failed : ProtocolFailure → CallError
  outcome_unknown : ProtocolFailure → CallError

-- The connection in the state `C`: protocol.WriteFrame, protocol.ReadLine with a limit, Close, and
-- jsonutil.Decode into a Response.
pub record Transport (C : Type 0) : Type 0 where
  pub send : ClientRequest → C → Result FrameError (Unit {0}) × C
  pub receive : ℕ → C → Result FrameError Bytes × C
  pub close : C → C
  pub decode : Bytes → Option ClientResponse

-- Client, with its connection. `next` is a uint64.
pub record Client (C : Type 0) : Type 0 where
  pub run_id : String
  pub nonce : String
  pub next : ℕ
  pub broken : Bool
  pub conn : C

unfoldable pub op_name : GuestOp → String
op_name hello = "hello"
op_name clock_read = "clock.read"
op_name clock_set = "clock.set"
op_name action_exec = "action.exec"
op_name service_start = "service.start"
op_name service_stop = "service.stop"
op_name shutdown = "shutdown"
op_name (other_op text) = text

-- The switch of Call.
unfoldable pub supported : GuestOp → Bool
supported (other_op text) = false
supported _ = true

-- op != "hello" && op != "clock.read"
unfoldable pub changes_state : GuestOp → Bool
changes_state hello = false
changes_state clock_read = false
changes_state _ = true

-- resp.Version == protocol.Version and so on
unfoldable pub matches : ClientRequest → ClientResponse → Bool
matches req resp =
    str_eq resp.version protocol_version
    && (str_eq resp.id req.id
        && (str_eq resp.op req.op
            && (str_eq resp.run_id req.run_id && str_eq resp.nonce req.nonce)))

-- (resp.Error == nil) != (len(resp.Result) == 0)
unfoldable pub has_one_part : ClientResponse → Bool
has_one_part resp = elim resp.error [
  | none ↦ not (str_eq resp.result "")
  | some e ↦ str_eq resp.result ""
]

unfoldable pub is_envelope : ErrorEnvelope → Bool
is_envelope e = not (str_eq e.code "") && not (str_eq e.message "")

-- `A` is what the caller reads from a result.
module _ {A : Type 0} (read : String → Option A) where
  read_result : String → Result ProtocolFailure (Result CallError A)
  read_result text = elim (read text) [ none ↦ err bad_result | some a ↦ ok (ok a) ]

  -- The value of a response, or the error that the guest answered.
  answered : Option ErrorEnvelope → String → Result ProtocolFailure (Result CallError A)
  unfolding read_result is_envelope
  answered (some e) text = do guard (is_envelope e) bad_envelope; ok (err (guest_error e))
  answered none text = read_result text

  -- What Call checks on a response, in its order.
  unfoldable pub check_response :
      ClientRequest → ClientResponse → Result ProtocolFailure (Result CallError A)
  unfolding matches has_one_part answered
  check_response req resp = do
    guard (matches req resp) response_mismatch
    guard (has_one_part resp) bad_shape
    guard (not (str_eq resp.result "null")) null_result
    answered resp.error resp.result

  module _ {C : Type 0} (transport : Transport C) (format_uint : ℕ → String) where
    received :
        ClientRequest
        → Result FrameError Bytes × C
        → Result ProtocolFailure (Result CallError A) × C
    unfolding check_response
    received req (err e, c) = (err (read_failed e), c)
    received req (ok frame, c) = elim (transport.decode frame) [
      | none ↦ (err bad_response, c)
      | some resp ↦ (check_response req resp, c)
    ]

    sent :
        ClientRequest
        → Result FrameError (Unit {0}) × C
        → Result ProtocolFailure (Result CallError A) × C
    unfolding received
    sent req (err e, c) = (err (write_failed e), c)
    sent req (ok done, c) = received req (transport.receive max_frame c)

    -- `fail`, and the return of an exchange that went through
    conclude :
        GuestOp
        → Result ProtocolFailure (Result CallError A) × C
        → Client C
        → Result CallError A × Client C
    unfolding changes_state
    conclude op (err p, c) client = (
      err (if changes_state op then outcome_unknown p else failed p),
      record client { broken = true; conn = transport.close c },
    )
    conclude op (ok r, c) client = (r, record client { conn = c })

    -- The request of a call, with the number that the client comes to.
    unfoldable pub request_of : GuestOp → String → Client C → ClientRequest
    unfolding op_name
    request_of op payload client = record {
      version = protocol_version;
      id = format_uint client.next;
      op = op_name op;
      run_id = client.run_id;
      nonce = client.nonce;
      payload = payload;
    }

    unfoldable pub numbered : Client C → Client C
    numbered client = record client { next = suc client.next % 2 ^ 64 }

    pub exchange : GuestOp → String → Client C → Result CallError A × Client C
    unfolding sent conclude request_of
    exchange op payload client =
        conclude op
          (sent (request_of op payload client)
            (transport.send (request_of op payload client) client.conn))
          client

    -- Call, for a context with the error `ended`, on what json.Marshal gives for the payload ("{}" for a
    -- nil one).
    unfoldable pub call :
        Option String → GuestOp → Result String String → Client C → Result CallError A × Client C
    unfolding exchange supported numbered
    call ended op payload client = if client.broken then (err unusable, client) else elim ended [
      | some e ↦ (err (context_ended e), client)
      | none ↦ if not (supported op) then (err unsupported, client) else elim payload [
        | err e ↦ (err (not_marshalled e), client)
        | ok b ↦ exchange op b (numbered client)
      ]
    ]
