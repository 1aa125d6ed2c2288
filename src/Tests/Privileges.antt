-- ===== src/Tests/Privileges.antt =====
-- The theorem on the privileges of the host's process, for a user without capabilities.
use epoch.Base.{String, List, [], ◌∷◌, Option, none, All, map, ◌≡◌, refl, member}
use epoch.Guest.Identity.{fields}
use epoch.Json.Number.{parse_uint}
use epoch.Engine.Privileges.{parse_hex, parse_privileges}
use epoch.Engine.Privileges.Lines.{IsSafeLine}
use epoch.Engine.Privileges.Refusals.{tag_count, parse_privileges-IsSafeLine}

abbrev status : List String
status =
    "Name: epoch" ∷ "Uid: 1000 1000 1000 1000" ∷ "CapPrm: 0000000000000400" ∷ "CapEff: 00"
    ∷ "CapAmb: 0" ∷ []

parse_privileges-IsSafeLine_example :
    (◌≡◌ {A = Option String} none none)
    × All (λ line. IsSafeLine (fields line)) status
    × (tag_count "Uid:" (map fields status) ≡ 1)
    × (tag_count "CapPrm:" (map fields status) ≡ 1)
    × (tag_count "CapEff:" (map fields status) ≡ 1)
    × (tag_count "CapAmb:" (map fields status) ≡ 1)
unfolding parse_privileges fields member parse_uint parse_hex
parse_privileges-IsSafeLine_example = parse_privileges-IsSafeLine status none refl
