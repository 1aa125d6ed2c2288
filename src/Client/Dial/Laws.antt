-- ===== src/Client/Dial/Laws.antt =====
-- What Dial of internal/guestclient/client.go returns.
use epoch.Base.{
  ℕ, ◌≤◌, ◌<◌, ◌^◌, String, codes, true, false, Option, none, some, List, [], ◌∷◌, all, ltb, str_eq,
  eq_iff, byte_length, Result, ok, err, ok-ne-err, ok-injective, Option-cases, Bool-cases, ◌≡◌, inl,
  inr, refl, sym, ap, ◌∙◌, subst, arith,
}
use epoch.Json.Number.{parse_uint, decimal_digits}
use epoch.Scenario.Names.{is_workload_identifier, is_digit}
use epoch.Guest.Frames.{FrameError}
use epoch.Client.{Client}
use epoch.Client.Dial.{
  DialError, greeting_failed, Socket, assigned_port, handshake_parts, parse_handshake, closing,
  opened, answered, greeted, connected, dial, split_space,
}

parse_uint-lt : (bits : ℕ) (s : String) {n : ℕ} → parse_uint bits s ≡ some n → n < 2 ^ bits
unfolding parse_uint
parse_uint-lt bits s {n} h = elim (Option-cases (decimal_digits s)) [
  | inl nothing ↦ absurd (ground (arith, nothing))
  | inr (k, found) ↦ elim (Bool-cases (ltb k (2 ^ bits))) [
    | inl small ↦ ground (arith, found, small)
    | inr large ↦ absurd (ground (arith, found, large))
  ]
]

-- The answer of the proxy: "OK" and a port of digits between 1 and 2 ^ 32 - 1, with one space between.
abbrev pub IsHandshake : String → ℕ → Type 0
IsHandshake line port =
    (text : String) × (split_space line ≡ ("OK", text ∷ []))
    × (all is_digit (codes text) ≡ true)
    × (parse_uint 32 text ≡ some port)
    × (0 < port)
    × (port < 2 ^ 32)

assigned_port-eq-ok :
    (text : String) (n : ℕ)
    → assigned_port text ≡ ok n
    → (all is_digit (codes text) ≡ true) × (parse_uint 32 text ≡ some n) × (0 < n) × (n < 2 ^ 32)
unfolding assigned_port
assigned_port-eq-ok text n h = elim (Option-cases (parse_uint 32 text)) [
  | inl nothing ↦ absurd (ground (arith, nothing))
  | inr (k, found) ↦ ground (arith, found, parse_uint-lt 32 text found)
]

handshake_parts-eq-ok :
    (parts : String × List String) (n : ℕ)
    → handshake_parts parts ≡ ok n
    → (text : String) × (parts ≡ ("OK", text ∷ [])) × (assigned_port text ≡ ok n)
unfolding handshake_parts
handshake_parts-eq-ok (first, []) n h = absurd (ground (arith, h))
handshake_parts-eq-ok (first, port ∷ []) n h = elim (Bool-cases (str_eq first "OK")) [
  | inl greeting ↦ (
    port,
    ap (λ (w : String). (w, port ∷ [])) ((eq_iff first "OK").0 greeting),
    ground (arith, greeting, h),
  )
  | inr other ↦ absurd (ground (arith, other, h))
]
handshake_parts-eq-ok (first, port ∷ (more ∷ rest)) n h = absurd (ground (arith, h))

parse_handshake-IsHandshake :
    (line : String) (n : ℕ) → parse_handshake line ≡ ok n → IsHandshake line n
unfolding parse_handshake
parse_handshake-IsHandshake line n h =
    let (text, parts, port) = handshake_parts-eq-ok (split_space line) n h in
    let (digits, parsed, low, high) = assigned_port-eq-ok text n port in
    (text, parts, digits, parsed, low, high)

IsHandshake-parse_handshake :
    (line : String) (n : ℕ) → IsHandshake line n → parse_handshake line ≡ ok n
unfolding parse_handshake handshake_parts assigned_port
IsHandshake-parse_handshake line n (text, parts, digits, parsed, low, high) =
    ap handshake_parts parts ∙ ground (arith, digits, parsed, low)

module _ {C : Type 0} (socket : Socket C) (run_id nonce : String) where
  -- What comes of the answer `got`: a fresh client on the connection that the answer left, where it is a
  -- handshake, and else a refusal, after which that connection is closed.
  abbrev pub IsAccepted : Result FrameError String × C → Result DialError (Client C) × C → Type 0
  IsAccepted got (ok client, c) =
      (line : String) × (port : ℕ) × (got.0 ≡ ok line)
      × IsHandshake line port
      × (client ≡ record { run_id = run_id; nonce = nonce; next = 0; broken = false; conn = got.1 })
      × (c ≡ got.1)
  IsAccepted got (err e, c) =
      (c ≡ socket.close got.1)
      × ((line : String) (port : ℕ) → got.0 ≡ ok line → IsHandshake line port → ⊥)

  -- What comes of the greeting `sent`: a refusal and a closed connection where it failed, and else what
  -- comes of the answer that is read.
  abbrev pub IsOpened : Option String × C → Result DialError (Client C) × C → Type 0
  IsOpened (some e, c) out = (out.0 ≡ err (greeting_failed e)) × (out.1 ≡ socket.close c)
  IsOpened (none, c) out = IsAccepted (socket.read_line 128 c) out

  opened-IsAccepted :
      (line : String) (r : Result DialError ℕ) (c : C)
      → parse_handshake line ≡ r
      → IsAccepted (ok line, c) (opened socket run_id nonce r c)
  unfolding opened closing
  opened-IsAccepted line (err e) c h = (
    refl,
    λ said port same good. ok-ne-err (
        sym (IsHandshake-parse_handshake said port good)
        ∙ ap parse_handshake (sym (ok-injective same))
        ∙ h),
  )
  opened-IsAccepted line (ok port) c h =
      (line, port, refl, parse_handshake-IsHandshake line port h, refl, refl)

  answered-IsAccepted :
      (got : Result FrameError String × C) → IsAccepted got (answered socket run_id nonce got)
  unfolding answered closing
  answered-IsAccepted (err e, c) = (refl, λ line port same good. ok-ne-err (sym same))
  answered-IsAccepted (ok line, c) = opened-IsAccepted line (parse_handshake line) c refl

  greeted-IsOpened : (sent : Option String × C) → IsOpened sent (greeted socket run_id nonce sent)
  unfolding greeted closing
  greeted-IsOpened (some e, c) = (refl, refl)
  greeted-IsOpened (none, c) = answered-IsAccepted (socket.read_line 128 c)

  through :
      (port : ℕ) (c : C)
      → is_workload_identifier run_id ≡ true
      → 32 ≤ byte_length nonce
      → 0 < port
      → (socket.connect c).0 ≡ none
      → greeted socket run_id nonce (socket.greet port (socket.connect c).1)
        ≡ dial socket run_id nonce port c
  unfolding dial connected
  through port c valid long nonzero live = ground arith

  -- With a valid run ID, a nonce of 32 bytes or more and a port, once the socket is connected: where the
  -- greeting fails, Dial returns its error with the connection closed. Else it reads one line of at most
  -- 128 bytes. It returns a client exactly where such a line was read and is a
  -- handshake, "OK" and a port of digits between 1 and 2 ^ 32 - 1: the fresh one for the run and the nonce,
  -- on the connection behind the line. Else it returns an error, with the connection closed.
  pub dial-IsOpened :
      (port : ℕ) (c : C)
      → is_workload_identifier run_id ≡ true
      → 32 ≤ byte_length nonce
      → 0 < port
      → (socket.connect c).0 ≡ none
      → IsOpened (socket.greet port (socket.connect c).1) (dial socket run_id nonce port c)
  dial-IsOpened port c valid long nonzero live =
      let sent = socket.greet port (socket.connect c).1 in
      subst (IsOpened sent) (through port c valid long nonzero live) (greeted-IsOpened sent)
