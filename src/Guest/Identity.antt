-- ===== src/Guest/Identity.antt =====
-- ParseIdentity of internal/guestclock/clock.go: the boot markers that a guest must carry before its
-- clock may be set.
pub mod Control
use epoch.Base.{
  ℕ, String, Char, code, codes, Bool, true, false, ◌&&◌, ◌||◌, Option, none, some, List, [], ◌∷◌,
  leb, ◌==◌, length, all, lookup, Result, ok, err, ◌>>=◌, ◌>>◌, guard, if◌then◌else◌,
}
use epoch.Json.Number.{parse_uint}
use epoch.Scenario.Names.{is_workload_identifier, is_digit}

pub record Identity : Type 0 where
  pub run_id : String
  pub nonce : String
  pub cid : ℕ

pub data IdentityError : Type 0 where
  malformed_marker duplicate_marker invalid_identity : IdentityError

abbrev pub guest_cid : ℕ
guest_cid = 3

-- unicode.IsSpace
is_space : ℕ → Bool
is_space c =
    (leb 9 c && leb c 13)
    || c == 32
    || c == 0x85
    || c == 0xA0
    || c == 0x1680
    || (leb 0x2000 c && leb c 0x200A)
    || c == 0x2028
    || c == 0x2029
    || c == 0x202F
    || c == 0x205F
    || c == 0x3000

non_empty : String → List String → List String
non_empty String.[] ws = ws
non_empty (String.◌∷◌ c w) ws = String.◌∷◌ c w ∷ ws

-- The word that is open at the left end, and the words behind it.
words : String → String × List String
unfolding is_space non_empty
words String.[] = (String.[], [])
words (String.◌∷◌ c rest) =
    let (w, ws) = words rest in
    if is_space (code c) then (String.[], non_empty w ws) else (String.◌∷◌ c w, ws)

-- strings.Fields
unfoldable pub fields : String → List String
unfolding words non_empty
fields s = let (w, ws) = words s in non_empty w ws

put_before : Char → Option (String × String) → Option (String × String)
put_before c none = none
put_before c (some (k, v)) = some (String.◌∷◌ c k, v)

-- strings.Cut at "="; `none` where there is none
cut : String → Option (String × String)
unfolding put_before
cut String.[] = none
cut (String.◌∷◌ c rest) =
    let later = put_before c (cut rest) in if code c == b'=' then some (String.[], rest) else later

has_prefix : List ℕ → List ℕ → Bool
has_prefix [] cs = true
has_prefix (p ∷ ps) [] = false
has_prefix (p ∷ ps) (c ∷ cs) = c == p && has_prefix ps cs

is_marker : String → Bool
unfolding has_prefix
is_marker k = has_prefix (codes "epoch.") (codes k)

-- A part of the command line, with the values so far: the body of the loop.
marker :
    String
    → Option (String × String)
    → List (String × String)
    → Result IdentityError (List (String × String))
unfolding is_marker
marker part none values = if is_marker part then err malformed_marker else ok values
marker part (some (k, v)) values =
    if is_marker k
    then (elim (lookup k values) [ none ↦ ok ((k, v) ∷ values) | some _ ↦ err duplicate_marker ])
    else ok values

unfoldable pub markers :
    List (String × String) → List String → Result IdentityError (List (String × String))
unfolding marker cut
markers values [] = ok values
markers values (part ∷ rest) = do next ← marker part (cut part) values; markers next rest

-- values[k], which is empty for a missing key
value_of : String → List (String × String) → String
value_of k m = elim (lookup k m) [ none ↦ "" | some v ↦ v ]

is_hex : ℕ → Bool
unfolding is_digit
is_hex c = is_digit c || (leb b'a' c && leb c b'f') || (leb b'A' c && leb c b'F')

-- hex.DecodeString succeeds with 32 bytes
unfoldable pub is_nonce : String → Bool
unfolding is_hex
is_nonce s = length (codes s) == 64 && all is_hex (codes s)

unfoldable pub identity_of : String → String → Option ℕ → Result IdentityError Identity
unfolding is_nonce
identity_of run nonce none = err invalid_identity
identity_of run nonce (some cid) = do
  guard (cid == guest_cid && (is_workload_identifier run && is_nonce nonce)) invalid_identity
  ok (record { run_id = run; nonce = nonce; cid = cid })

unfoldable pub parse_identity : String → Result IdentityError Identity
unfolding fields markers value_of
parse_identity cmdline = do
  values ← markers [] (fields cmdline)
  identity_of (value_of "epoch.run" values) (value_of "epoch.nonce" values)
      (parse_uint 32 (value_of "epoch.cid" values))
