-- ===== src/Engine/Privileges.antt =====
-- parsePrivileges of internal/hostcheck/hostcheck.go: what /proc/self/status may say of the host's process.
pub mod Lines
pub mod Refusals
use epoch.Base.{
  ℕ, suc, ◌+◌, ◌-◌, ◌*◌, ◌/◌, ◌%◌, ◌^◌, String, codes, Bool, true, false, not, ◌&&◌, Option, none,
  some, List, [], ◌∷◌, leb, ltb, ◌==◌, length, all, str_eq, member, Result, ok, err, ◌>>=◌, ◌>>◌,
  guard, if◌then◌else◌,
}
use epoch.Json.Number.{parse_uint}
use epoch.Guest.Identity.{fields}

pub data PrivilegeError : Type 0 where
  invalid_uid root_uid invalid_capability bad_capability sys_time incomplete : PrivilegeError
  scan_failed : String → PrivilegeError

-- The value of a hexadecimal digit.
hex_digit : ℕ → Option ℕ
hex_digit c =
    if leb b'0' c && leb c b'9'
    then some (c - b'0')
    else if leb b'a' c && leb c b'f'
    then some (10 + (c - b'a'))
    else if leb b'A' c && leb c b'F'
    then some (10 + (c - b'A'))
    else none

hex_from : ℕ → List ℕ → Option ℕ
unfolding hex_digit
hex_from n [] = some n
hex_from n (c ∷ cs) = elim (hex_digit c) [
  | none ↦ none
  | some d ↦ let rest = hex_from (16 * n + d) cs in if ltb (16 * n + d) (2 ^ 64) then rest else none
]

-- strconv.ParseUint(s, 16, 64)
unfoldable pub parse_hex : String → Option ℕ
unfolding hex_from
parse_hex String.[] = none
parse_hex (String.◌∷◌ c s) = hex_from 0 (codes (String.◌∷◌ c s))

-- A user ID that is a uint32 and not 0.
unfoldable pub is_user : String → Bool
is_user v = elim (parse_uint 32 v) [ none ↦ false | some n ↦ not (n == 0) ]

-- n & (1 << 25) != 0, for CAP_SYS_TIME
unfoldable pub may_set_time : ℕ → Bool
may_set_time n = n / 2 ^ 25 % 2 == 1

unfoldable pub capability_tags : List String
capability_tags = "CapPrm:" ∷ "CapEff:" ∷ "CapAmb:" ∷ []

capability : List String → Result PrivilegeError (Unit {0})
unfolding may_set_time
capability (v ∷ []) = elim (parse_hex v) [
  | none ↦ err bad_capability
  | some n ↦ guard (not (may_set_time n)) sys_time
]
capability _ = err invalid_capability

-- The two cases of the switch, behind the test on what was seen.
user_ids : List String → Result PrivilegeError (Unit {0})
unfolding is_user
user_ids values = do guard (length values == 4) invalid_uid; guard (all is_user values) root_uid

-- A line's fields, with the tags that were seen.
unfoldable pub status_line : List String → List String → Result PrivilegeError (List String)
unfolding user_ids capability capability_tags
status_line [] seen = ok seen
status_line (tag ∷ values) seen =
    if str_eq tag "Uid:"
    then (do guard (not (member tag seen)) invalid_uid; user_ids values; ok (tag ∷ seen))
    else if member tag capability_tags
    then (do guard (not (member tag seen)) invalid_capability; capability values; ok (tag ∷ seen))
    else ok seen

unfoldable pub status_lines : List String → List String → Result PrivilegeError (List String)
unfolding status_line
status_lines [] seen = ok seen
status_lines (line ∷ rest) seen = do next ← status_line (fields line) seen; status_lines rest next

scanned : Option String → List String → Result PrivilegeError (Unit {0})
scanned (some e) seen = err (scan_failed e)
scanned none seen = guard (length seen == 4) incomplete

-- parsePrivileges, on the lines that a bufio.Scanner gives and the error that it ends with
unfoldable pub parse_privileges : List String → Option String → Result PrivilegeError (Unit {0})
unfolding status_lines scanned
parse_privileges lines failure = do seen ← status_lines lines []; scanned failure seen
