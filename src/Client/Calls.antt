-- ===== src/Client/Calls.antt =====
-- What a call of internal/guestclient/client.go can come to, and sequences of calls.
pub mod Responses
pub mod Fresh
use epoch.Base.{
  ℕ, Bytes, String, Bool, true, false, Option, none, some, if◌then◌else◌, Result, ok, err,
  Result-cases, Option-cases, Bool-cases, ok-injective, ok-ne-err, subst, ap, sym, ◌∙◌, ◌≡◌, ◌⊎◌,
  inl, inr, refl, arith,
}
use epoch.Guest.Server.{
  GuestOp, hello, clock_read, clock_set, action_exec, service_start, service_stop, shutdown,
  other_op,
}
use epoch.Guest.Frames.{FrameError, max_frame}
use epoch.Client.{
  ClientRequest, ClientResponse, ProtocolFailure, CallError, unusable, unsupported, context_ended,
  failed, outcome_unknown, bad_response, Transport, Client, supported, changes_state,
  check_response, received, sent, conclude, request_of, numbered, exchange, call,
}
use Responses.{IsReply, check_response-IsReply, IsReply-check_response}

-- Nothing was sent and the client is as it was: it was broken, its context had ended or the operation is
-- not one of the protocol.
abbrev pub DidNothing :
    {A C : Type 0} → Option String → GuestOp → Client C → Result CallError A × Client C → Type 0
DidNothing ended op client (r, client') =
    (client' ≡ client)
    × (((client.broken ≡ true) × (r ≡ err unusable))
        ⊎ (((e : String) × (ended ≡ some e) × (r ≡ err (context_ended e)))
            ⊎ ((text : String) × (op ≡ other_op text) × (r ≡ err unsupported))))

unsupported_is_other :
    (op : GuestOp) → supported op ≡ false → (text : String) × (op ≡ other_op text)
unfolding supported
unsupported_is_other hello h = cc
unsupported_is_other clock_read h = cc
unsupported_is_other clock_set h = cc
unsupported_is_other action_exec h = cc
unsupported_is_other service_start h = cc
unsupported_is_other service_stop h = cc
unsupported_is_other shutdown h = cc
unsupported_is_other (other_op text) h = (text, refl)

module _ {A : Type 0} (read : String → Option A) {C : Type 0} (transport : Transport C)
    (format_uint : ℕ → String) where
  -- The frame that comes behind a request that was sent.
  abbrev pub frame_behind : Result FrameError (Unit {0}) × C → Result FrameError Bytes × C
  frame_behind out = transport.receive max_frame out.1

  -- The request was sent, the frame that was read behind it decodes to a reply to it, and the call is
  -- what that reply says. The client goes on with the connection.
  abbrev pub WasAnswered : ClientRequest → C → Result CallError A × Client C → Type 0
  WasAnswered req c (r, client') =
      (frame : Bytes) × (resp : ClientResponse) × ((transport.send req c).0 ≡ ok tt)
      × ((frame_behind (transport.send req c)).0 ≡ ok frame)
      × (transport.decode frame ≡ some resp)
      × IsReply read req resp r
      × (client'.broken ≡ false)
      × (client'.conn ≡ (frame_behind (transport.send req c)).1)

  -- No reply to the request was read.
  abbrev pub WasMissed : ClientRequest → Result FrameError (Unit {0}) × C → Type 0
  WasMissed req out =
      (frame : Bytes) (resp : ClientResponse) (r : Result CallError A)
      → out.0 ≡ ok tt
      → (frame_behind out).0 ≡ ok frame
      → transport.decode frame ≡ some resp
      → IsReply read req resp r
      → ⊥

  -- No reply to the request was read: the client is broken and its connection closed, and the outcome
  -- is unknown where it may matter.
  abbrev pub HasFailed : GuestOp → ClientRequest → C → Result CallError A × Client C → Type 0
  HasFailed op req c (r, client') =
      (p : ProtocolFailure) × (last : C) × (r
        ≡ err (if changes_state op then outcome_unknown p else failed p))
      × (client'.broken ≡ true)
      × (client'.conn ≡ transport.close last)
      × WasMissed req (transport.send req c)

  -- What sending a request and reading behind it comes to.
  abbrev SentHow :
      ClientRequest
      → Result FrameError (Unit {0}) × C
      → Result ProtocolFailure (Result CallError A) × C
      → Type 0
  SentHow req out (err p, c) = WasMissed req out
  SentHow req out (ok r, c) =
      (frame : Bytes) × (resp : ClientResponse) × (out.0 ≡ ok tt)
      × ((frame_behind out).0 ≡ ok frame)
      × (transport.decode frame ≡ some resp)
      × IsReply read req resp r
      × (c ≡ (frame_behind out).1)

  -- The response that is read is the only one.
  same_response :
      (c : C) (frame frame' : Bytes) (resp resp' : ClientResponse)
      → (transport.receive max_frame c).0 ≡ ok frame
      → transport.decode frame ≡ some resp
      → (transport.receive max_frame c).0 ≡ ok frame'
      → transport.decode frame' ≡ some resp'
      → resp' ≡ resp
  same_response c frame frame' resp resp' here decoded also found =
      ground (arith, here, decoded, also, found)

  checked_how :
      (req : ClientRequest) (c : C) (frame : Bytes) (resp : ClientResponse)
      (checked : Result ProtocolFailure (Result CallError A))
      → (transport.receive max_frame c).0 ≡ ok frame
      → transport.decode frame ≡ some resp
      → check_response read req resp ≡ checked
      → SentHow req (ok tt, c) (checked, (transport.receive max_frame c).1)
  checked_how req c frame resp (ok r) here decoded e =
      (frame, resp, refl, here, decoded, check_response-IsReply read req resp r e, refl)
  checked_how req c frame resp (err p) here decoded e = λ frame' resp' r done also found reply.
      ok-ne-err (
        sym (IsReply-check_response read req resp' r reply)
        ∙ ap (check_response read req)
            (same_response c frame frame' resp resp' here decoded also found)
        ∙ e)

  received_how :
      (req : ClientRequest) (c : C) (got : Result FrameError Bytes × C)
      → transport.receive max_frame c ≡ got
      → SentHow req (ok tt, c) (received read transport format_uint req got)
  unfolding received
  received_how req c (err e, c') at =
      λ frame resp r done also found reply. ok-ne-err (sym also ∙ ap (λ g. g.0) at)
  received_how req c (ok frame, c') at = elim (Option-cases (transport.decode frame)) [
    | inl nothing ↦
        subst (SentHow req (ok tt, c)) {x = (err bad_response, c')} (ground (arith, nothing))
          (λ frame' resp' r done also found reply. ground (arith, at, nothing, also, found))
    | inr (resp, found) ↦
        subst (SentHow req (ok tt, c)) {x = (check_response read req resp, c')}
          (ground (arith, found))
          (subst (λ d. SentHow req (ok tt, c) (check_response read req resp, d)) (ap (λ g. g.1) at)
            (checked_how req c frame resp (check_response read req resp) (ap (λ g. g.0) at) found
              refl))
  ]

  sent_how :
      (req : ClientRequest) (out : Result FrameError (Unit {0}) × C)
      → SentHow req out (sent read transport format_uint req out)
  unfolding sent
  sent_how req (err e, c) = λ frame resp r done also found reply. ok-ne-err (sym done)
  sent_how req (ok u, c) = received_how req c (transport.receive max_frame c) refl

  conclude_outcome :
      (op : GuestOp) (req : ClientRequest) (c : C)
      (got : Result ProtocolFailure (Result CallError A) × C) (client : Client C)
      → client.broken ≡ false
      → SentHow req (transport.send req c) got
      → WasAnswered req c (conclude read transport format_uint op got client)
        ⊎ HasFailed op req c (conclude read transport format_uint op got client)
  unfolding conclude
  conclude_outcome op req c (err p, last) client fine missed =
      inr (p, last, refl, refl, refl, missed)
  conclude_outcome op req c (ok r, last) client fine
        (frame, resp, done, here, decoded, reply, end) =
      inl (frame, resp, done, here, decoded, reply, fine, end)

  exchange_outcome :
      (op : GuestOp) (b : String) (client : Client C)
      → client.broken ≡ false
      → WasAnswered
          (request_of read transport format_uint op b client)
          client.conn
          (exchange read transport format_uint op b client)
        ⊎ HasFailed op
            (request_of read transport format_uint op b client)
            client.conn
            (exchange read transport format_uint op b client)
  unfolding exchange
  exchange_outcome op b client fine =
      let req = request_of read transport format_uint op b client in
      conclude_outcome op req client.conn
        (sent read transport format_uint req (transport.send req client.conn)) client fine
        (sent_how req (transport.send req client.conn))

  ran :
      (op : GuestOp) (b : String) (client : Client C) (ended : Option String)
      → client.broken ≡ false
      → ended ≡ none
      → supported op ≡ true
      → exchange read transport format_uint op b (numbered read transport format_uint client)
        ≡ call read transport format_uint ended op (ok b) client
  unfolding call
  ran op b client ended fine live known = ground arith

  -- A call whose payload can be marshalled does one of three things. It sends nothing and leaves the
  -- client as it was, because the client is broken, the context has ended or the operation is not one of
  -- the protocol, as it says. Or the request was sent with the next number, and the frame that was read
  -- behind it decodes to a response with the version, the number, the operation, the run and the nonce of
  -- that request: then the call gives the value that is read from its result, or the error that it holds,
  -- complete and without a result, and the client goes on. Or no such response was read: then the client
  -- is broken for good, its connection closed, and the failure is reported as an unknown outcome exactly
  -- for the operations that change the guest.
  pub call_outcome :
      (ended : Option String) (op : GuestOp) (b : String) (client : Client C)
      → DidNothing ended op client (call read transport format_uint ended op (ok b) client)
        ⊎ (WasAnswered
              (request_of read transport format_uint op b
                (numbered read transport format_uint client))
              client.conn
              (call read transport format_uint ended op (ok b) client)
            ⊎ HasFailed op
                (request_of read transport format_uint op b
                  (numbered read transport format_uint client))
                client.conn
                (call read transport format_uint ended op (ok b) client))
  unfolding call numbered
  call_outcome ended op b client = elim (Bool-cases client.broken) [
    | inl broken ↦ inl (ground (arith, broken), inl (broken, ground (arith, broken)))
    | inr fine ↦ elim (Option-cases ended) [
      | inr (e, over) ↦
          inl (ground (arith, fine, over), inr (inl (e, over, ground (arith, fine, over))))
      | inl live ↦ elim (Bool-cases (supported op)) [
        | inr unknown ↦
            let (text, other) = unsupported_is_other op unknown in
            inl (
              ground (arith, fine, live, unknown),
              inr (inr (text, other, ground (arith, fine, live, unknown))),
            )
        | inl known ↦
            let req =
              request_of read transport format_uint op b
                (numbered read transport format_uint client) in
            subst
              (λ (out : Result CallError A × Client C).
                DidNothing ended op client out
                ⊎ (WasAnswered req client.conn out ⊎ HasFailed op req client.conn out))
              (ran op b client ended fine live known)
              (inr (exchange_outcome op b (numbered read transport format_uint client) fine))
      ]
    ]
  ]
