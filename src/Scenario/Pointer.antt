-- ===== src/Scenario/Pointer.antt =====
-- JSON Pointers (RFC 6901) of internal/scenario/assertions.go: tokens, resolution in an observation,
-- and the observations that each operation offers. A text is walked by characters; the bytes that
-- the walk looks for are ASCII.
pub mod RoundTrip
use epoch.Base.{
  ℕ, zero, suc, Char, code, codes, String, len, Bool, true, false, not, ◌&&◌, ◌||◌, Option, none,
  some, List, [], ◌∷◌, ltb, byte_length, ◌==◌, if◌then◌else◌, Result, ok, err, ◌>>=◌, ◌>>◌, guard,
  str_eq, member, all,
}
use epoch.Json.{Json, arr, obj, Items, nil, cons, Fields, end, field}
use epoch.Json.Number.{parse_uint}
use epoch.Scenario.{
  Op, clock_read, clock_set, action_exec, service_start, service_stop, Refusal, bad_pointer,
  bad_array_index, unavailable_pointer,
}
use epoch.Scenario.Names.{is_digit}

abbrev tilde : Char
tilde = "~"

abbrev slash : Char
slash = "/"

prepend : Char → Result Refusal String → Result Refusal String
prepend c (ok s) = ok (String.◌∷◌ c s)
prepend c (err e) = err e

-- The loop over the bytes of one token.
unfoldable pub unescape : String → Result Refusal String
unfolding prepend
unescape String.[] = ok String.[]
unescape (String.◌∷◌ c String.[]) =
    if code c == b'~' then err bad_pointer else ok (String.◌∷◌ c String.[])
unescape (String.◌∷◌ c (String.◌∷◌ d rest)) =
    let plain = prepend c (unescape (String.◌∷◌ d rest)) in
    let escaped = unescape rest in
    if code c == b'~'
    then (if code d == b'0'
        then prepend tilde escaped
        else if code d == b'1'
        then prepend slash escaped
        else err bad_pointer)
    else plain

-- The first token and what strings.Split leaves behind it.
add_char : Char → List String → List String
add_char c [] = String.◌∷◌ c String.[] ∷ []
add_char c (t ∷ ts) = String.◌∷◌ c t ∷ ts

-- strings.Split(s, "/")
unfoldable pub split_slash : String → List String
unfolding add_char
split_slash String.[] = String.[] ∷ []
split_slash (String.◌∷◌ c rest) =
    let later = split_slash rest in if code c == b'/' then String.[] ∷ later else add_char c later

unescape_all : List String → Result Refusal (List String)
unescape_all [] = ok []
unescape_all (t ∷ ts) = do u ← unescape t; us ← unescape_all ts; ok (u ∷ us)

tokens_of : String → Result Refusal (List String)
unfolding unescape_all unescape split_slash
tokens_of String.[] = ok []
tokens_of (String.◌∷◌ c rest) = do
  guard (code c == b'/') bad_pointer
  unescape_all (split_slash rest)

unfoldable pub pointer_tokens : String → Result Refusal (List String)
unfolding tokens_of byte_length
pointer_tokens pointer =
    if ltb 4096 (byte_length pointer) then err bad_pointer else tokens_of pointer

unfoldable pub find_field : String → Fields → Option Json
find_field k end = none
find_field k (field j v rest) = if str_eq j k then some v else find_field k rest

unfoldable pub item_at : ℕ → Items → Option Json
item_at n nil = none
item_at zero (cons v rest) = some v
item_at (suc n) (cons v rest) = item_at n rest

unfoldable pub items_length : Items → ℕ
items_length nil = 0
items_length (cons v rest) = suc (items_length rest)

starts_with_zero : String → Bool
starts_with_zero String.[] = false
starts_with_zero (String.◌∷◌ c rest) = code c == b'0'

-- A token that is empty, has a leading zero or a character other than a digit is no array index.
well_formed_index : String → Bool
unfolding starts_with_zero is_digit
well_formed_index token =
    not (str_eq token "")
    && (not (ltb 1 (len token) && starts_with_zero token) && all is_digit (codes token))

index_of : String → Items → Option Json
unfolding item_at parse_uint
index_of token items = elim (parse_uint 64 token) [ none ↦ none | some n ↦ item_at n items ]

-- One token at an array: `-` and an index past the end are absent.
array_step : String → Items → Result Refusal (Option Json)
unfolding well_formed_index index_of
array_step token items =
    if str_eq token "-"
    then ok none
    else if well_formed_index token
    then ok (index_of token items)
    else err bad_array_index

unfoldable pub pointer_step : String → Json → Result Refusal (Option Json)
unfolding array_step find_field
pointer_step token (obj fields) = ok (find_field token fields)
pointer_step token (arr items) = array_step token items
pointer_step token _ = ok none

-- The loop of resolvePointer: `none` where the pointer names nothing.
unfoldable pub resolve_tokens : List String → Json → Result Refusal (Option Json)
unfolding pointer_step
resolve_tokens [] v = ok (some v)
resolve_tokens (t ∷ ts) v = do
  next ← pointer_step t v
  elim next [ none ↦ ok none | some w ↦ resolve_tokens ts w ]

unfoldable pub resolve_pointer : Json → String → Result Refusal (Option Json)
unfolding pointer_tokens resolve_tokens
resolve_pointer v pointer = do tokens ← pointer_tokens pointer; resolve_tokens tokens v

-- The first tokens that an operation's observation has.
unfoldable pub observations_of : Op → List String
observations_of clock_read = "realtime" ∷ "monotonic_ns" ∷ []
observations_of clock_set =
    "target" ∷ "before" ∷ "after" ∷ "elapsed_ns" ∷ "tolerance_ms" ∷ "readback_valid" ∷ []
observations_of action_exec =
    "exit_code" ∷ "stdout_json" ∷ "stderr" ∷ "stdout_truncated" ∷ "stderr_truncated" ∷ "before"
    ∷ "after" ∷ []
observations_of service_start =
    "service" ∷ "running" ∷ "before" ∷ "after" ∷ "stdout" ∷ "stderr" ∷ []
observations_of service_stop = "service" ∷ "running" ∷ "before" ∷ "after" ∷ "stdout" ∷ "stderr" ∷ []
observations_of _ = []

-- Below a first token other than stdout_json, only the two fields of a clock observation.
clock_field : String → List String → Bool
clock_field first (second ∷ []) =
    (str_eq first "before" || str_eq first "after")
    && (str_eq second "realtime" || str_eq second "monotonic_ns")
clock_field first _ = false

available_tokens : Op → List String → Bool
unfolding observations_of clock_field
available_tokens op [] = true
available_tokens op (t ∷ []) = member t (observations_of op)
available_tokens op (t ∷ u ∷ rest) =
    member t (observations_of op) && (str_eq t "stdout_json" || clock_field t (u ∷ rest))

unfoldable pub available_pointer : Op → String → Result Refusal (Unit {0})
unfolding pointer_tokens available_tokens
available_pointer op pointer = do
  tokens ← pointer_tokens pointer
  guard (available_tokens op tokens) unavailable_pointer
