-- ===== src/Guest/Server/Session/Requests.antt =====
-- Which requests a session answers (serveConn of internal/guestagent/server.go).
use epoch.Base.{
  ◌+◌, ◌≤◌, ◌<◌, String, Bool, true, false, ◌||◌, List, [], ◌∷◌, ◌≡◌, leb, length, member, arith,
  if-elim, eq_iff,
}
use epoch.Scenario.StepRules.{TimeText}
use epoch.Guest.Identity.{Identity}
use epoch.Guest.Manifest.{Manifest}
use epoch.Guest.Clock.{Boundary}
use epoch.Guest.Server.{Codec, Runner, Request, Server, handle}
use epoch.Guest.Server.Session.{
  Incoming, request, malformed, read_error, Response, Trace, max_requests, identified, after_write,
  serve, is_shutdown,
}

-- Responses that carry the session's identity, to requests with IDs that were not seen before.
abbrev pub AreFresh : Identity → List String → List Response → Type 0
AreFresh identity seen [] = Unit
AreFresh identity seen (r ∷ rs) =
    (member r.id seen ≡ false)
    × (r.run_id ≡ identity.run_id)
    × (r.nonce ≡ identity.nonce)
    × AreFresh identity (r.id ∷ seen) rs

identified_lem :
    {P : Type 0} (identity : Identity) (req : Request P)
    → identified identity req ≡ true
    → (req.run_id ≡ identity.run_id) × (req.nonce ≡ identity.nonce)
unfolding identified
identified_lem identity req h =
    ground (arith, eq_iff req.run_id identity.run_id, eq_iff req.nonce identity.nonce)

admissible :
    (id : String) (seen : List String)
    → (member id seen || leb max_requests (length seen)) ≡ false
    → (member id seen ≡ false) × (length seen < max_requests)
admissible id seen h = ground arith

module _ {P S R : Type 0} (codec : Codec P) (time : TimeText) (boundary : Boundary S)
    (runner : Runner R) (identity : Identity) (manifest : Manifest)
    (writable : Response → Bool) where
  abbrev IsBounded : List String → Trace S R → Type 0
  IsBounded seen t =
      AreFresh identity seen t.responses × (length t.responses + length seen ≤ max_requests)

  write-IsBounded :
      (seen : List String) (resp : Response) (s : Server S R) (later : Trace S R)
      → member resp.id seen ≡ false
      → resp.run_id ≡ identity.run_id
      → resp.nonce ≡ identity.nonce
      → length seen < max_requests
      → IsBounded (resp.id ∷ seen) later
      → IsBounded seen
          (after_write codec time boundary runner identity manifest writable resp s later)
  unfolding after_write
  write-IsBounded seen resp s later new run nonce room h =
      if-elim (IsBounded seen) (writable resp) _ _
        (λ _.
          if-elim (IsBounded seen) (is_shutdown resp.op) _ _
            (λ _. ((new, run, nonce, tt), omega arith))
            (λ _. ((new, run, nonce, h.0), omega (arith, h.1))))
        (λ _. (tt, omega arith))

  -- A session answers at most 1024 requests less those seen before, never two with one ID nor one with
  -- an ID seen before, and each answer carries the run ID and the nonce of the guest.
  pub serve_fresh :
      (seen : List String) (s : Server S R) (frames : List (Incoming P))
      → length seen ≤ max_requests
      → AreFresh identity seen
          (serve codec time boundary runner identity manifest writable seen s frames).responses
        × (length
                (serve codec time boundary runner identity manifest writable seen s
                  frames).responses
              + length seen
            ≤ max_requests)
  unfolding serve
  serve_fresh seen s [] h = (tt, omega arith)
  serve_fresh seen s (malformed ∷ rest) h = (tt, omega arith)
  serve_fresh seen s (read_error ∷ rest) h = (tt, omega arith)
  serve_fresh seen s (request req ∷ rest) h =
      let o = handle codec time boundary runner identity manifest req.op req.payload s in
      let later = serve_fresh (req.id ∷ seen) o.server rest in
      if-elim (IsBounded seen) (identified identity req) _ _
        (λ known.
          if-elim (IsBounded seen) (member req.id seen || leb max_requests (length seen)) _ _
            (λ _. (tt, omega arith))
            (λ new.
              let (fresh, room) = admissible req.id seen new in
              let (run, nonce) = identified_lem identity req known in
              write-IsBounded seen _ o.server _ fresh run nonce room (later (omega (arith, room)))))
        (λ _. (tt, omega arith))
