-- ===== src/Guest/Identity/Control.antt =====
-- Identity.Verify and New of internal/guestclock/clock.go: who is given the control of the clock.
use Prim.Native.String.{◌++◌}
use epoch.Base.{
  ℕ, String, true, not, ◌||◌, ◌&&◌, Option, none, some, leb, ◌==◌, Result, ok, err, ◌>>◌, [], guard,
  >>=-eq-ok, >>-eq-ok, guard-eq-ok, ok-injective, Result-cases, Option-cases, ◌≡◌, inl, inr, ap,
  ◌∙◌, subst, arith,
}
use epoch.Json.Number.{parse_uint}
use epoch.Scenario.Names.{is_workload_identifier}
use epoch.Guest.Identity.{
  Identity, IdentityError, invalid_identity, guest_cid, identity_of, is_nonce, markers,
  parse_identity, fields, value_of,
}

pub data ControlError : Type 0 where
  refused : IdentityError → ControlError
  other_cid no_boundary : ControlError

-- fmt.Sprintf prints a uint32 by `format_uint`.
module _ (format_uint : ℕ → String) where
  unfoldable pub boot_markers : Identity → String
  boot_markers i =
      "epoch.run=" ++ i.run_id ++ " epoch.nonce=" ++ i.nonce ++ " epoch.cid=" ++ format_uint i.cid

  unfoldable pub verify : Identity → ℕ → Result ControlError (Unit {0})
  unfolding boot_markers
  verify i observed = elim (parse_identity (boot_markers i)) [
    | err e ↦ err (refused e)
    | ok parsed ↦ guard (not (leb observed 2 || not (observed == parsed.cid))) other_cid
  ]

  -- New: a controller is its boundary.
  unfoldable pub new : {B : Type 0} → Identity → ℕ → Option B → Result ControlError B
  unfolding verify
  new i observed boundary = do
    verify i observed
    elim boundary [ none ↦ err no_boundary | some b ↦ ok b ]

-- The identity of a guest: the CID of a guest, a valid run and a nonce of 32 bytes.
abbrev pub IsGuestIdentity : Identity → Type 0
IsGuestIdentity i =
    (i.cid ≡ guest_cid) × (is_workload_identifier i.run_id ≡ true) × (is_nonce i.nonce ≡ true)

identity_of-IsGuestIdentity :
    (run nonce : String) (cid : Option ℕ) {i : Identity}
    → identity_of run nonce cid ≡ ok i
    → IsGuestIdentity i
unfolding identity_of
identity_of-IsGuestIdentity run nonce none h = absurd (ground (arith, h))
identity_of-IsGuestIdentity run nonce (some cid) h =
    let is_valid = cid == guest_cid && (is_workload_identifier run && is_nonce nonce) in
    let parts = >>-eq-ok (guard is_valid invalid_identity) _ h in
    let checks = guard-eq-ok is_valid invalid_identity parts.0 in
    subst IsGuestIdentity {x = record { run_id = run; nonce = nonce; cid = cid }}
      (ok-injective parts.1)
      (ground (arith, checks), ground (arith, checks), ground (arith, checks))

parse_identity-IsGuestIdentity :
    (cmdline : String) {i : Identity} → parse_identity cmdline ≡ ok i → IsGuestIdentity i
unfolding parse_identity
parse_identity-IsGuestIdentity cmdline h =
    let (values, found, read) =
      >>=-eq-ok (markers [] (fields cmdline))
        (λ values.
          identity_of (value_of "epoch.run" values) (value_of "epoch.nonce" values)
            (parse_uint 32 (value_of "epoch.cid" values)))
        h in
    identity_of-IsGuestIdentity (value_of "epoch.run" values) (value_of "epoch.nonce" values)
      (parse_uint 32 (value_of "epoch.cid" values)) read

module _ (format_uint : ℕ → String) where
  verify-eq-ok :
      (i : Identity) (observed : ℕ)
      → verify format_uint i observed ≡ ok tt
      → (observed ≡ guest_cid)
        × ((parsed : Identity) × (parse_identity (boot_markers format_uint i) ≡ ok parsed)
            × IsGuestIdentity parsed)
  unfolding verify
  verify-eq-ok i observed h = elim (Result-cases (parse_identity (boot_markers format_uint i))) [
    | inl (parsed, found) ↦
        let good = parse_identity-IsGuestIdentity _ found in
        (ground (arith, found, h, good.0), (parsed, found, good))
    | inr (e, bad) ↦ absurd (ground (arith, bad, h))
  ]

  -- The control of the clock is given out only where the CID that was observed is the one of a guest, and the
  -- identity, printed as boot markers, reads back as one with that CID, a valid run and a nonce of 32
  -- bytes. What is given out is then the boundary that was passed.
  pub new-IsGuestIdentity :
      {B : Type 0} (i : Identity) (observed : ℕ) (boundary : Option B) {b : B}
      → new format_uint i observed boundary ≡ ok b
      → (boundary ≡ some b)
        × (observed ≡ guest_cid)
        × ((parsed : Identity) × (parse_identity (boot_markers format_uint i) ≡ ok parsed)
            × IsGuestIdentity parsed)
  unfolding new
  new-IsGuestIdentity i observed boundary h =
      let parts = >>-eq-ok (verify format_uint i observed) _ h in
      let good = verify-eq-ok i observed parts.0 in
      elim (Option-cases boundary) [
        | inl nothing ↦ absurd (ground (arith, nothing, parts.1))
        | inr (b, given) ↦ (
          given ∙ ap some (ok-injective {E = ControlError} (ground (arith, given, parts.1))),
          good.0,
          good.1,
        )
      ]
