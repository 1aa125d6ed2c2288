-- ===== src/Client/Calls/Fresh.antt =====
-- Sequences of calls of internal/guestclient/client.go: the numbers of their requests, and what follows a
-- failure.
use epoch.Base.{
  ℕ, suc, ◌+◌, ◌≤◌, ◌<◌, ◌%◌, ◌^◌, String, true, false, Option, List, [], ◌∷◌, map, length, member,
  IsDistinct, Result, ok, err, Result-cases, Option-cases, Bool-cases, ◌≡◌, ◌⊎◌, inl, inr, refl,
  sym, ap, ◌∙◌, subst, arith, eq_iff,
}
use epoch.Guest.Server.{GuestOp}
use epoch.Guest.Frames.{FrameError, max_frame}
use epoch.Client.{
  ClientRequest, ProtocolFailure, CallError, unusable, outcome_unknown, Transport, Client,
  supported, received, sent, conclude, request_of, numbered, exchange, call,
}
use epoch.Client.Calls.{call_outcome}

-- What a caller passes to Call.
pub record CallItem : Type 0 where
  pub ended : Option String
  pub op : GuestOp
  pub payload : Result String String

-- A log of the requests that a connection was given, the last one first.
pub record IsLogged {C : Type 0} (transport : Transport C) (log : C → List ClientRequest)
    : Type 0 where
  pub by_send : (req : ClientRequest) (c : C) → log (transport.send req c).1 ≡ req ∷ log c
  pub by_receive : (n : ℕ) (c : C) → log (transport.receive n c).1 ≡ log c
  pub by_close : (c : C) → log (transport.close c) ≡ log c

module _ {A : Type 0} (read : String → Option A) {C : Type 0} (transport : Transport C)
    (format_uint : ℕ → String) where
  unfoldable pub run_calls : List CallItem → Client C → List (Result CallError A) × Client C
  unfolding call
  run_calls [] client = ([], client)
  run_calls (x ∷ xs) client =
      let (r, client') = call read transport format_uint x.ended x.op x.payload client in
      let (rs, last) = run_calls xs client' in (r ∷ rs, last)

  run_calls_broken :
      (xs : List CallItem) (client : Client C)
      → client.broken ≡ true
      → run_calls xs client ≡ (map (λ x. err unusable) xs, client)
  unfolding run_calls call
  run_calls_broken [] client broken = refl
  run_calls_broken (x ∷ xs) client broken = ground (arith, run_calls_broken xs client broken)

  call_unknown_broken :
      (ended : Option String) (op : GuestOp) (b : String) (client : Client C) (p : ProtocolFailure)
      → (call read transport format_uint ended op (ok b) client).0 ≡ err (outcome_unknown p)
      → (call read transport format_uint ended op (ok b) client).1.broken ≡ true
  call_unknown_broken ended op b client p unknown =
      elim (call_outcome read transport format_uint ended op b client) [
        | inl (same, inl (broken, r)) ↦ absurd (ground (arith, r, unknown))
        | inl (same, inr (inl (e, over, r))) ↦ absurd (ground (arith, r, unknown))
        | inl (same, inr (inr (text, other, r))) ↦ absurd (ground (arith, r, unknown))
        | inr (inl (frame, resp, done, here, decoded, reply, fine, end)) ↦ elim (reply.1) [
          | inl (a, plain, some_text, real, value, r) ↦ absurd (ground (arith, r, unknown))
          | inr (e, bad, empty, code, message, r) ↦ absurd (ground (arith, r, unknown))
        ]
        | inr (inr (q, last, r, broken, end, missed)) ↦ broken
      ]

  -- Once a call has come back with an unknown outcome, no later call of the client sends anything or
  -- touches the connection: each comes back as unusable. So what may have run is not sent again.
  pub unknown_not_retried :
      (ended : Option String) (op : GuestOp) (b : String) (client : Client C) (p : ProtocolFailure)
      (later : List CallItem)
      → (call read transport format_uint ended op (ok b) client).0 ≡ err (outcome_unknown p)
      → run_calls later (call read transport format_uint ended op (ok b) client).1 ≡ (
        map (λ x. err unusable) later,
        (call read transport format_uint ended op (ok b) client).1,
      )
  unknown_not_retried ended op b client p later unknown =
      run_calls_broken later (call read transport format_uint ended op (ok b) client).1
        (call_unknown_broken ended op b client p unknown)

  module _ (log : C → List ClientRequest) (logged : IsLogged transport log) where
    sent_log :
        (req : ClientRequest) (got : Result FrameError (Unit {0}) × C)
        → log (sent read transport format_uint req got).1 ≡ log got.1
    unfolding sent received
    sent_log req (err e, c) = refl
    sent_log req (ok u, c) = ground (arith, logged.by_receive max_frame c)

    conclude_log :
        (op : GuestOp) (out : Result ProtocolFailure (Result CallError A) × C) (client : Client C)
        → (log (conclude read transport format_uint op out client).1.conn ≡ log out.1)
          × ((conclude read transport format_uint op out client).1.next ≡ client.next)
    unfolding conclude
    conclude_log op (err p, c) client = (logged.by_close c, refl)
    conclude_log op (ok r, c) client = (refl, refl)

    exchange_log :
        (op : GuestOp) (b : String) (client : Client C)
        → (log (exchange read transport format_uint op b client).1.conn
            ≡ request_of read transport format_uint op b client ∷ log client.conn)
          × ((exchange read transport format_uint op b client).1.next ≡ client.next)
    unfolding exchange
    exchange_log op b client =
        let req = request_of read transport format_uint op b client in
        let out = transport.send req client.conn in
        let last = conclude_log op (sent read transport format_uint req out) client in
        (last.0 ∙ sent_log req out ∙ logged.by_send req client.conn, last.1)

    -- Requests that bear the numbers `suc k` of falling `k` below `n`.
    abbrev pub AreNumbered : ℕ → List ClientRequest → Type 0
    AreNumbered n [] = Unit
    AreNumbered n (req ∷ rest) =
        (k : ℕ) × (k < n) × (req.id ≡ format_uint (suc k)) × AreNumbered k rest

    numbered_later :
        (m n : ℕ) (reqs : List ClientRequest) → m ≤ n → AreNumbered m reqs → AreNumbered n reqs
    numbered_later m n [] le h = tt
    numbered_later m n (req ∷ rest) le (k, below, named, h) = (k, omega arith, named, h)

    -- The client's number, and its log, after one more call.
    abbrev Advanced : ℕ → Client C → Type 0
    Advanced n client = (client.next ≤ suc n) × AreNumbered client.next (log client.conn)

    exchange-Advanced :
        (op : GuestOp) (b : String) (client : Client C)
        → suc client.next < 2 ^ 64
        → AreNumbered client.next (log client.conn)
        → Advanced client.next
            (exchange read transport format_uint op b
              (numbered read transport format_uint client)).1
    unfolding numbered request_of
    exchange-Advanced op b client room h =
        let next = numbered read transport format_uint client in
        let logged_it = exchange_log op b next in
        let small : suc client.next % 2 ^ 64 ≡ suc client.next = omega arith in
        (
          omega (arith, logged_it.1, small),
          subst
              (λ (n : ℕ).
                AreNumbered n (log (exchange read transport format_uint op b next).1.conn))
              (sym (logged_it.1 ∙ small))
              (subst (AreNumbered (suc client.next)) (sym logged_it.0)
                (client.next, omega arith, ap format_uint small, h)),
        )

    -- A call leaves the client as it was or makes an exchange.
    call_either :
        (ended : Option String) (op : GuestOp) (payload : Result String String) (client : Client C)
        → ((call read transport format_uint ended op payload client).1 ≡ client)
          ⊎ ((b : String) × (exchange read transport format_uint op b
                  (numbered read transport format_uint client)
                ≡ call read transport format_uint ended op payload client))
    unfolding call
    call_either ended op payload client = elim (Bool-cases client.broken) [
      | inl broken ↦ inl (ground arith)
      | inr fine ↦ elim (Option-cases ended) [
        | inr (e, over) ↦ inl (ground arith)
        | inl live ↦ elim (Bool-cases (supported op)) [
          | inr unknown ↦ inl (ground arith)
          | inl known ↦ elim (Result-cases payload) [
            | inr (e, bad) ↦ inl (ground arith)
            | inl (b, good) ↦ inr (b, ground (arith, fine, live, known, good))
          ]
        ]
      ]
    ]

    call-Advanced :
        (x : CallItem) (client : Client C)
        → suc client.next < 2 ^ 64
        → AreNumbered client.next (log client.conn)
        → Advanced client.next (call read transport format_uint x.ended x.op x.payload client).1
    call-Advanced x client room h = elim (call_either x.ended x.op x.payload client) [
      | inl same ↦ subst (Advanced client.next) (sym same) (omega arith, h)
      | inr (b, made) ↦
          subst (λ (out : Result CallError A × Client C). Advanced client.next out.1) made
            (exchange-Advanced x.op b client room h)
    ]

    run_calls-AreNumbered :
        (xs : List CallItem) (client : Client C)
        → client.next + length xs < 2 ^ 64
        → AreNumbered client.next (log client.conn)
        → AreNumbered (run_calls xs client).1.next (log (run_calls xs client).1.conn)
          × ((run_calls xs client).1.next ≤ client.next + length xs)
    unfolding run_calls
    run_calls-AreNumbered [] client room h = (h, omega arith)
    run_calls-AreNumbered (x ∷ xs) client room h =
        let one = call-Advanced x client (omega arith) h in
        let rest =
          run_calls-AreNumbered xs (call read transport format_uint x.ended x.op x.payload client).1
            (omega (arith, one.0)) one.1 in
        (rest.0, omega (arith, rest.1, one.0))

    module _
        (injective : (m n : ℕ)
          → m < 2 ^ 64
          → n < 2 ^ 64
          → format_uint m ≡ format_uint n
          → m ≡ n) where
      number-fresh :
          (n k : ℕ) (reqs : List ClientRequest)
          → n ≤ k
          → suc k < 2 ^ 64
          → AreNumbered n reqs
          → member (format_uint (suc k)) (map (λ req. req.id) reqs) ≡ false
      unfolding member
      number-fresh n k [] le room h = refl
      number-fresh n k (req ∷ rest) le room (j, below, named, h) = ground (
        arith,
        eq_iff req.id (format_uint (suc k)),
        named,
        injective (suc j) (suc k) (omega arith) room,
        number-fresh j k rest (omega arith) room h,
      )

      IsDistinct-numbered :
          (n : ℕ) (reqs : List ClientRequest)
          → n < 2 ^ 64
          → AreNumbered n reqs
          → IsDistinct (map (λ req. req.id) reqs)
      IsDistinct-numbered n [] room h = tt
      IsDistinct-numbered n (req ∷ rest) room (k, below, named, h) = (
        subst (λ (s : String). member s (map (λ req. req.id) rest) ≡ false) (sym named)
            (number-fresh k k rest (omega arith) (omega arith) h),
        IsDistinct-numbered k rest (omega arith) h,
      )

      -- Over any sequence of fewer than 2 ^ 64 calls of a fresh client on a connection that was given no
      -- request before, whatever the connection answers, no two requests that are sent bear one ID.
      pub run_calls-IsDistinct :
          (xs : List CallItem) (client : Client C)
          → client.next ≡ 0
          → log client.conn ≡ []
          → length xs < 2 ^ 64
          → IsDistinct (map (λ req. req.id) (log (run_calls xs client).1.conn))
      run_calls-IsDistinct xs client fresh silent few =
          let all_numbered =
            run_calls-AreNumbered xs client (omega (arith, fresh))
              (subst (AreNumbered client.next) (sym silent) tt) in
          IsDistinct-numbered (run_calls xs client).1.next (log (run_calls xs client).1.conn)
            (omega (arith, all_numbered.1, fresh)) all_numbered.0
