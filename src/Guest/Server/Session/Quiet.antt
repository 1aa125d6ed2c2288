-- ===== src/Guest/Server/Session/Quiet.antt =====
-- What a session can do to the workload before the clock is set (serveConn of
-- internal/guestagent/server.go).
use epoch.Base.{String, Bool, false, ◌||◌, List, [], ◌∷◌, ◌≡◌, leb, length, member, if-elim}
use epoch.Scenario.StepRules.{TimeText}
use epoch.Guest.Identity.{Identity}
use epoch.Guest.Manifest.{Manifest}
use epoch.Guest.Clock.{Boundary}
use epoch.Guest.Server.{Codec, Runner, Server, handle}
use epoch.Guest.Server.Safety.{IsQuiet, IsUnset, handle-IsIdle}
use epoch.Guest.Server.Session.{
  Incoming, request, malformed, read_error, Response, Trace, max_requests, identified, after_write,
  serve, is_shutdown,
}

module _ {P S R : Type 0} (codec : Codec P) (time : TimeText) (boundary : Boundary S)
    (runner : Runner R) (identity : Identity) (manifest : Manifest) (writable : Response → Bool)
    (Q : R → Type 0) (quiet : IsQuiet runner Q) where
  abbrev IsLeft : Trace S R → Type 0
  IsLeft t = (t.server.clock_ready ≡ false) × Q t.server.runner

  write-IsLeft :
      (resp : Response) (s : Server S R) (later : Trace S R)
      → (s.clock_ready ≡ false) × Q s.runner
      → IsLeft later
      → IsLeft (after_write codec time boundary runner identity manifest writable resp s later)
  unfolding after_write
  write-IsLeft resp s later here there =
      if-elim IsLeft (writable resp) _ _
        (λ _. if-elim IsLeft (is_shutdown resp.op) _ _ (λ _. here) (λ _. there)) (λ _. here)

  -- While the clock control gives no valid readback, whatever frames a session receives, its server stays
  -- unready, and the workload keeps every property that health checks and stops keep: no action runs and
  -- no service starts.
  pub serve_quiet :
      IsUnset time boundary
      → (seen : List String) (s : Server S R) (frames : List (Incoming P)) → s.clock_ready ≡ false
      → Q s.runner
      → ((serve codec time boundary runner identity manifest writable seen s
            frames).server.clock_ready
          ≡ false)
        × Q
            (serve codec time boundary runner identity manifest writable seen s
              frames).server.runner
  unfolding serve
  serve_quiet unset seen s [] unready q = (unready, q)
  serve_quiet unset seen s (malformed ∷ rest) unready q = (unready, q)
  serve_quiet unset seen s (read_error ∷ rest) unready q = (unready, q)
  serve_quiet unset seen s (request req ∷ rest) unready q =
      let o = handle codec time boundary runner identity manifest req.op req.payload s in
      let here =
        handle-IsIdle codec time boundary runner identity manifest Q quiet unset req.op req.payload
          s (unready, q) in
      let later = serve_quiet unset (req.id ∷ seen) o.server rest here.0 here.1 in
      if-elim IsLeft (identified identity req) _ _
        (λ _.
          if-elim IsLeft (member req.id seen || leb max_requests (length seen)) _ _
            (λ _. (unready, q)) (λ _. write-IsLeft _ o.server _ here later))
        (λ _. (unready, q))
