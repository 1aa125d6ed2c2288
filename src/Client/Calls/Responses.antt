-- ===== src/Client/Calls/Responses.antt =====
-- What a response says to the client of internal/guestclient/client.go that sent a request.
use epoch.Base.{
  String, true, false, not, Option, none, some, Result, ok, err, >>-eq-ok, guard-eq-ok,
  ok-injective, subst, str_eq, eq_iff, Option-cases, guard, ◌≡◌, ◌≢◌, ◌⊎◌, inl, inr, refl, sym,
  arith,
}
use epoch.Guest.Server.Session.{protocol_version}
use epoch.Client.{
  ClientRequest, ClientResponse, ErrorEnvelope, ProtocolFailure, CallError, guest_error, matches,
  has_one_part, is_envelope, check_response, read_result, answered,
}

-- The response bears the version and the identity of the request.
abbrev pub IsResponseTo : ClientRequest → ClientResponse → Type 0
IsResponseTo req resp =
    (resp.version ≡ protocol_version)
    × (resp.id ≡ req.id)
    × (resp.op ≡ req.op)
    × (resp.run_id ≡ req.run_id)
    × (resp.nonce ≡ req.nonce)

-- The response has a result and no error, and the caller's value is read from the result.
abbrev pub GivesValue :
    {A : Type 0} → (String → Option A) → ClientResponse → Result CallError A → Type 0
GivesValue {A} read resp r =
    (a : A) × (resp.error ≡ none)
    × (resp.result ≢ "")
    × (resp.result ≢ "null")
    × (read resp.result ≡ some a)
    × (r ≡ ok a)

-- The response has no result and an error with a code and a message.
abbrev pub GivesError : {A : Type 0} → ClientResponse → Result CallError A → Type 0
GivesError resp r =
    (e : ErrorEnvelope) × (resp.error ≡ some e)
    × (resp.result ≡ "")
    × (e.code ≢ "")
    × (e.message ≢ "")
    × (r ≡ err (guest_error e))

-- The response is to the request, and says this.
abbrev pub IsReply :
    {A : Type 0}
    → (String → Option A)
    → ClientRequest
    → ClientResponse
    → Result CallError A
    → Type 0
IsReply read req resp r = IsResponseTo req resp × (GivesValue read resp r ⊎ GivesError resp r)

matches-IsResponseTo :
    (req : ClientRequest) (resp : ClientResponse) → matches req resp ≡ true → IsResponseTo req resp
unfolding matches
matches-IsResponseTo req resp h = (
  (eq_iff resp.version protocol_version).0 (ground (arith, h)),
  (eq_iff resp.id req.id).0 (ground (arith, h)),
  (eq_iff resp.op req.op).0 (ground (arith, h)),
  (eq_iff resp.run_id req.run_id).0 (ground (arith, h)),
  (eq_iff resp.nonce req.nonce).0 (ground (arith, h)),
)

IsResponseTo-matches :
    (req : ClientRequest) (resp : ClientResponse) → IsResponseTo req resp → matches req resp ≡ true
unfolding matches
IsResponseTo-matches req resp (version, id, op, run, nonce) = ground (
  arith,
  (eq_iff resp.version protocol_version).1 version,
  (eq_iff resp.id req.id).1 id,
  (eq_iff resp.op req.op).1 op,
  (eq_iff resp.run_id req.run_id).1 run,
  (eq_iff resp.nonce req.nonce).1 nonce,
)

module _ {A : Type 0} (read : String → Option A) where
  said :
      (resp : ClientResponse) (e : Option ErrorEnvelope) (r : Result CallError A)
      → resp.error ≡ e
      → has_one_part resp ≡ true
      → str_eq resp.result "null" ≡ false
      → answered read e resp.result ≡ ok r
      → GivesValue read resp r ⊎ GivesError resp r
  unfolding has_one_part answered read_result is_envelope
  said resp none r none_there one null h = elim (Option-cases (read resp.result)) [
    | inl nothing ↦ absurd (ground (arith, nothing, h))
    | inr (a, found) ↦ inl (
      a,
      none_there,
      (λ empty. absurd (ground (arith, none_there, one, (eq_iff resp.result "").1 empty))),
      (λ is_null. absurd (ground (arith, null, (eq_iff resp.result "null").1 is_null))),
      found,
      sym (ok-injective {E = ProtocolFailure} {a = ok a} (ground (arith, found, h))),
    )
  ]
  said resp (some e) r there one null h =
      let parts = >>-eq-ok (guard (is_envelope e) ProtocolFailure.bad_envelope) _ h in
      let whole = guard-eq-ok (is_envelope e) ProtocolFailure.bad_envelope parts.0 in
      inr (
        e,
        there,
        (eq_iff resp.result "").0 (ground (arith, there, one)),
        (λ empty. absurd (ground (arith, whole, (eq_iff e.code "").1 empty))),
        (λ empty. absurd (ground (arith, whole, (eq_iff e.message "").1 empty))),
        sym (ok-injective parts.1),
      )

  pub check_response-IsReply :
      (req : ClientRequest) (resp : ClientResponse) (r : Result CallError A)
      → check_response read req resp ≡ ok r
      → IsReply read req resp r
  unfolding check_response
  check_response-IsReply req resp r h =
      let one = >>-eq-ok (guard (matches req resp) ProtocolFailure.response_mismatch) _ h in
      let two = >>-eq-ok (guard (has_one_part resp) ProtocolFailure.bad_shape) _ one.1 in
      let three =
        >>-eq-ok (guard (not (str_eq resp.result "null")) ProtocolFailure.null_result) _ two.1 in
      (
        matches-IsResponseTo req resp (guard-eq-ok (matches req resp) _ one.0),
        said resp resp.error r refl (guard-eq-ok (has_one_part resp) _ two.0)
            (ground (arith, guard-eq-ok (not (str_eq resp.result "null")) _ three.0)) three.1,
      )

  pub IsReply-check_response :
      (req : ClientRequest) (resp : ClientResponse) (r : Result CallError A)
      → IsReply read req resp r
      → check_response read req resp ≡ ok r
  unfolding check_response has_one_part answered read_result is_envelope
  IsReply-check_response req resp r (to, inl (a, plain, some_text, real, value, e)) = ground (
    arith,
    IsResponseTo-matches req resp to,
    plain,
    some_text,
    real,
    value,
    e,
    eq_iff resp.result "",
    eq_iff resp.result "null",
  )
  IsReply-check_response req resp r (to, inr (e, bad, empty, code, message, is)) = ground (
    arith,
    IsResponseTo-matches req resp to,
    bad,
    code,
    message,
    is,
    (eq_iff resp.result "").1 empty,
    subst (λ t. str_eq t "null" ≡ false) (sym empty) refl,
    eq_iff e.code "",
    eq_iff e.message "",
  )
