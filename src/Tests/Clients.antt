-- ===== src/Tests/Clients.antt =====
-- The theorems on the host's client, for a guest that answers the first request and then is gone.
use epoch.Base.{
  ℕ, zero, suc, codes, sym, ap, ◌∙◌, byte_length, ◌^◌, ◌<◌, String, false, none, some, Option, List,
  [], ◌∷◌, map, length, IsDistinct, ok, err, ◌≡◌, ◌⊎◌, refl, arith,
}
use epoch.Scenario.Names.{is_workload_identifier}
use epoch.Guest.Server.{hello, action_exec}
use epoch.Guest.Frames.{end_of_input}
use epoch.Client.{
  ClientRequest, unusable, Transport, Client, call, numbered, request_of, read_failed,
}
use epoch.Client.Calls.{DidNothing, WasAnswered, HasFailed, call_outcome}
use epoch.Client.Calls.Fresh.{
  CallItem, run_calls, unknown_not_retried, run_calls-IsDistinct, IsLogged,
}
use epoch.Client.Dial.{Socket, dial}
use epoch.Client.Dial.Laws.{IsOpened, dial-IsOpened}

-- The state is the requests that were sent. No answer ever comes.
abbrev silent_guest : Transport (List ClientRequest)
silent_guest = record {
  send = λ req c. (ok tt, req ∷ c);
  receive = λ n c. (err end_of_input, c);
  close = λ c. c;
  decode = λ b. none;
}

-- A number as so many strokes.
unfoldable pub tally : ℕ → String
tally zero = ""
tally (suc n) = String.◌∷◌ "1" (tally n)

length-codes-tally : (n : ℕ) → length (codes (tally n)) ≡ n
unfolding tally
length-codes-tally zero = refl
length-codes-tally (suc n) = ap suc (length-codes-tally n)

tally-injective : (m n : ℕ) → m < 2 ^ 64 → n < 2 ^ 64 → tally m ≡ tally n → m ≡ n
tally-injective m n hm hn e =
    sym (length-codes-tally m) ∙ ap (λ (s : String). length (codes s)) e ∙ length-codes-tally n

abbrev client : Client (List ClientRequest)
client = record { run_id = "r"; nonce = "n"; next = 0; broken = false; conn = [] }

abbrev read : String → Option ℕ
read text = some 0

abbrev item : CallItem
item = record { ended = none; op = hello; payload = ok "{}" }

call_outcome_example :
    DidNothing none action_exec client
      (call read silent_guest tally none action_exec (ok "{}") client)
    ⊎ (WasAnswered read silent_guest tally
          (request_of read silent_guest tally action_exec "{}"
            (numbered read silent_guest tally client))
          []
          (call read silent_guest tally none action_exec (ok "{}") client)
        ⊎ HasFailed read silent_guest tally action_exec
            (request_of read silent_guest tally action_exec "{}"
              (numbered read silent_guest tally client))
            []
            (call read silent_guest tally none action_exec (ok "{}") client))
call_outcome_example = call_outcome read silent_guest tally none action_exec "{}" client

unknown_not_retried_example :
    run_calls read silent_guest tally
      (item ∷ [])
      (call read silent_guest tally none action_exec (ok "{}") client).1
    ≡ (
      map (λ x. err unusable) (item ∷ []),
      (call read silent_guest tally none action_exec (ok "{}") client).1,
    )
unfolding call
unknown_not_retried_example =
    unknown_not_retried read silent_guest tally none action_exec "{}" client
      (read_failed end_of_input) (item ∷ []) refl

logged : IsLogged silent_guest (λ c. c)
logged = record { by_send = λ req c. refl; by_receive = λ n c. refl; by_close = λ c. refl }

run_calls-IsDistinct_example :
    IsDistinct
      (map (λ req. req.id) (run_calls read silent_guest tally (item ∷ item ∷ []) client).1.conn)
run_calls-IsDistinct_example =
    run_calls-IsDistinct read silent_guest tally (λ c. c) logged tally-injective (item ∷ item ∷ [])
      client refl refl (omega arith)

-- A proxy that accepts at once.
abbrev proxy : Socket ℕ
proxy = record {
  connect = λ c. (none, c);
  greet = λ port c. (none, c);
  read_line = λ n c. (ok "OK 1073741824", c);
  close = λ c. suc c;
}

dial-IsOpened_example :
    IsOpened proxy "00112233445566778899aabbccddeeff" "0123456789abcdef0123456789abcdef"
      (none, 0)
      (dial proxy "00112233445566778899aabbccddeeff" "0123456789abcdef0123456789abcdef" 7000 0)
unfolding is_workload_identifier byte_length
dial-IsOpened_example =
    dial-IsOpened proxy "00112233445566778899aabbccddeeff" "0123456789abcdef0123456789abcdef" 7000 0
      refl (omega arith) (omega arith) refl
