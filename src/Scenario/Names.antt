-- ===== src/Scenario/Names.antt =====
-- The regular expressions of internal/scenario/scenario.go, internal/protocol/protocol.go and
-- internal/engine/recover.go, as tests on code points.
use epoch.Base.{
  ℕ, ◌+◌, ◌*◌, String, code, codes, List, Bool, true, false, ◌&&◌, ◌||◌, leb, ltb, ◌==◌, length,
  all, if◌then◌else◌, [], ◌∷◌, zero, suc,
}

unfoldable pub is_digit : ℕ → Bool
is_digit c = leb b'0' c && leb c b'9'

unfoldable pub is_alnum : ℕ → Bool
unfolding is_digit
is_alnum c = is_digit c || (leb b'a' c && leb c b'z') || (leb b'A' c && leb c b'Z')

-- A first character of [a-zA-Z0-9] and at most 63 of `tail`.
named : (ℕ → Bool) → String → Bool
unfolding is_alnum
named tail String.[] = false
named tail (String.◌∷◌ c rest) =
    is_alnum (code c) && all tail (codes rest) && leb (length (codes rest)) 63

-- ^[a-zA-Z0-9][a-zA-Z0-9._-]{0,63}$
unfoldable pub is_identifier : String → Bool
unfolding named is_alnum
is_identifier = named (λ c. is_alnum c || c == b'.' || c == b'_' || c == b'-')

-- ^[a-zA-Z0-9][a-zA-Z0-9_-]{0,63}$
unfoldable pub is_workload_identifier : String → Bool
unfolding named is_alnum
is_workload_identifier = named (λ c. is_alnum c || c == b'_' || c == b'-')

-- ^[0-9a-f]{32}$
unfoldable pub is_run_id : String → Bool
unfolding is_digit
is_run_id s =
    (length (codes s) == 32) && all (λ c. is_digit c || (leb b'a' c && leb c b'f')) (codes s)

-- The characters of the first nineteen places of a timestamp: `d` for a digit, else itself.
shape_of : ℕ → ℕ → Bool
unfolding is_digit
shape_of p c = if p == b'd' then is_digit c else c == p

matches_shape : List ℕ → List ℕ → Bool
unfolding shape_of
matches_shape [] [] = true
matches_shape (p ∷ ps) (c ∷ cs) = shape_of p c && matches_shape ps cs
matches_shape _ _ = false

-- Z, or [+-]hh:mm with hh below 24 and mm below 60
is_zone : List ℕ → Bool
unfolding is_digit matches_shape
is_zone (c ∷ []) = c == b'Z'
is_zone (s ∷ h ∷ g ∷ m ∷ n ∷ o ∷ []) =
    (s == b'+' || s == b'-')
    && is_digit h
    && is_digit g
    && ltb (h * 10 + g) (b'2' * 10 + b'4')
    && m == b':'
    && leb b'0' n
    && leb n b'5'
    && is_digit o
is_zone _ = false

-- [0-9]{0,room}, then the zone; `some_seen` tells that a digit was read
fraction : ℕ → Bool → List ℕ → Bool
unfolding is_digit is_zone
fraction room some_seen [] = false
fraction zero some_seen (c ∷ cs) = is_zone (c ∷ cs)
fraction (suc room) some_seen (c ∷ cs) =
    let more = fraction room true cs in if is_digit c then more else some_seen && is_zone (c ∷ cs)

-- (\.[0-9]{1,9})? and the zone
seconds_tail : List ℕ → Bool
unfolding fraction is_zone
seconds_tail [] = false
seconds_tail (c ∷ cs) = if c == b'.' then fraction 9 false cs else is_zone (c ∷ cs)

timestamp_from : List ℕ → List ℕ → Bool
unfolding seconds_tail shape_of
timestamp_from [] cs = seconds_tail cs
timestamp_from (p ∷ ps) [] = false
timestamp_from (p ∷ ps) (c ∷ cs) = shape_of p c && timestamp_from ps cs

unfoldable pub is_timestamp : String → Bool
unfolding timestamp_from
is_timestamp s = timestamp_from (codes "dddd-dd-ddTdd:dd:dd") (codes s)
