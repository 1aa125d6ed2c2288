-- ===== src/Client/Dial.antt =====
-- Dial of internal/guestclient/client.go: the handshake with Firecracker's vsock proxy.
pub mod Laws
use Prim.Native.String.{[], ◌∷◌}
use epoch.Base.{
  ℕ, code, codes, String, Bool, true, false, not, ◌&&◌, ◌||◌, Option, none, some, List, all, ltb,
  ◌==◌, str_eq, byte_length, if◌then◌else◌, Result, ok, err,
}
use epoch.Json.Number.{parse_uint}
use epoch.Scenario.Names.{is_workload_identifier, is_digit}
use epoch.Guest.Frames.{FrameError}
use epoch.Client.{Client}

pub data DialError : Type 0 where
  invalid_arguments invalid_handshake invalid_port : DialError
  connection_failed greeting_failed : String → DialError
  answer_failed : FrameError → DialError

-- The socket, whose state is `C`: DialContext, the write of "CONNECT" with a port, protocol.ReadLine with
-- a limit, and Close.
pub record Socket (C : Type 0) : Type 0 where
  pub connect : C → Option String × C
  pub greet : ℕ → C → Option String × C
  pub read_line : ℕ → C → Result FrameError String × C
  pub close : C → C

-- strings.Split(s, " "): its first part, and the others.
unfoldable pub split_space : String → String × List String
split_space [] = ([], List.[])
split_space (c ∷ rest) =
    let (w, ws) = split_space rest in if code c == 32 then ([], List.◌∷◌ w ws) else (c ∷ w, ws)

-- ParseUint of the assigned port, which must be digits and not 0.
unfoldable pub assigned_port : String → Result DialError ℕ
unfolding is_digit parse_uint
assigned_port text = elim (parse_uint 32 text) [
  | none ↦ err invalid_port
  | some n ↦ if not (all is_digit (codes text)) || n == 0 then err invalid_port else ok n
]

handshake_parts : String × List String → Result DialError ℕ
unfolding assigned_port
handshake_parts (first, List.◌∷◌ port List.[]) =
    if str_eq first "OK" then assigned_port port else err invalid_handshake
handshake_parts (first, _) = err invalid_handshake

-- What Dial reads in the line that answers.
unfoldable pub parse_handshake : String → Result DialError ℕ
unfolding split_space handshake_parts
parse_handshake line = handshake_parts (split_space line)

module _ {C : Type 0} (socket : Socket C) (run_id nonce : String) where
  closing : DialError → C → Result DialError (Client C) × C
  closing e c = (err e, socket.close c)

  opened : Result DialError ℕ → C → Result DialError (Client C) × C
  unfolding closing
  opened (err e) c = closing e c
  opened (ok port) c =
      (ok (record { run_id = run_id; nonce = nonce; next = 0; broken = false; conn = c }), c)

  answered : Result FrameError String × C → Result DialError (Client C) × C
  unfolding opened closing parse_handshake
  answered (err e, c) = closing (answer_failed e) c
  answered (ok line, c) = opened (parse_handshake line) c

  greeted : Option String × C → Result DialError (Client C) × C
  unfolding answered closing
  greeted (some e, c) = closing (greeting_failed e) c
  greeted (none, c) = answered (socket.read_line 128 c)

  connected : ℕ → Option String × C → Result DialError (Client C) × C
  unfolding greeted
  connected port (some e, c) = (err (connection_failed e), c)
  connected port (none, c) = greeted (socket.greet port c)

  unfoldable pub dial : ℕ → C → Result DialError (Client C) × C
  unfolding connected
  dial port c =
      if not (is_workload_identifier run_id) || ltb (byte_length nonce) 32 || port == 0
      then (err invalid_arguments, c)
      else connected port (socket.connect c)
