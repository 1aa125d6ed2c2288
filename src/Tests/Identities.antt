-- ===== src/Tests/Identities.antt =====
-- The theorem on the control of the clock, for a guest that boots with valid markers.
use epoch.Base.{ℕ, String, some, Option, lookup, ok, ◌≡◌, refl}
use epoch.Json.Number.{parse_uint}
use epoch.Scenario.Names.{is_workload_identifier}
use epoch.Guest.Identity.{Identity, guest_cid, identity_of, parse_identity}
use epoch.Guest.Identity.Control.{new, boot_markers, IsGuestIdentity, new-IsGuestIdentity}

abbrev booted : Identity
booted = record {
  run_id = "run-7";
  nonce = "00112233445566778899aabbccddeeff00112233445566778899aabbccddeeff";
  cid = 3;
}

-- It prints the one CID that is passed here.
abbrev format_uint : ℕ → String
format_uint n = "3"

new-IsGuestIdentity_example :
    (◌≡◌ {A = Option ℕ} (some 5) (some 5))
    × (3 ≡ guest_cid)
    × ((parsed : Identity) × (parse_identity (boot_markers format_uint booted) ≡ ok parsed)
        × IsGuestIdentity parsed)
unfolding new parse_identity lookup identity_of parse_uint is_workload_identifier
new-IsGuestIdentity_example = new-IsGuestIdentity format_uint {B = ℕ} booted 3 (some 5) {b = 5} refl
