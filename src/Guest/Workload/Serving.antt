-- ===== src/Guest/Workload/Serving.antt =====
-- The manager of internal/guestagent/process_linux.go as the Runner of internal/guestagent/server.go.
use epoch.Base.{ℕ, suc, String, Bool, false, Option, none, some, List, [], ◌∷◌, ◌≡◌, ℤ}
use epoch.Scenario.StepRules.{TimeText}
use epoch.Guest.{ServiceRequest, ServiceResult}
use epoch.Guest.Identity.{Identity}
use epoch.Guest.Manifest.{Manifest}
use epoch.Guest.Clock.{Boundary}
use epoch.Guest.Server.{Codec, Runner, Server}
use epoch.Guest.Server.Safety.{IsQuiet, IsUnset}
use epoch.Guest.Server.Session.{Incoming, Response, serve}
use epoch.Guest.Server.Session.Quiet.{serve_quiet}
use epoch.Guest.Workload.{Machine, Manager, WorkloadError, context_ended, health, active}
use epoch.Guest.Workload.Frame.{IsKept}
use epoch.Guest.Workload.Actions.{Answer, action}
use epoch.Guest.Workload.Services.{blank_service, stop, stop_all}
use epoch.Guest.Workload.Services.Kept.{stop-kept, stop_all-kept}
use epoch.Guest.Workload.Starts.{start}

-- `within` gives the calls of the machine a context that ends after so many milliseconds, `left` counts the
-- pauses before it ends, and `describe` is Error of joined errors.
module _ {W : Type 0} (machine : Machine W) (manifest : Manifest) (within : ℤ → W → W)
    (left : W → ℕ) (describe : List WorkloadError → String) where
  joined_error : List WorkloadError → Option String
  joined_error [] = none
  joined_error (e ∷ es) = some (describe (e ∷ es))

  health_error : Option WorkloadError → Option String
  health_error none = none
  health_error (some e) = some (describe (e ∷ []))

  told : {A : Type 0} → Answer A × Manager W → (A × Option String) × Manager W
  told ((a, es), m) = ((a, joined_error es), m)

  limited : ℤ → Manager W → Manager W
  limited ms m = record m { world = within ms m.world }

  -- A start that ran out of rounds has passed its deadline.
  started :
      ServiceRequest
      → Manager W
      → Option (Answer ServiceResult × Manager W)
      → (ServiceResult × Option String) × Manager W
  unfolding told joined_error
  started req m none = ((blank_service req.service, joined_error (context_ended "" ∷ [])), m)
  started req m (some out) = told out

  -- Each Runner method under the context of its request.
  unfoldable pub manager_runner : Runner (Manager W)
  unfolding health_error told started limited
  manager_runner = record {
    health = λ m. (health_error (health machine m), m);
    active = active;
    action = λ ms req m. told (action machine manifest req (limited ms m));
    start = λ ms req m.
        started req m (start machine manifest (suc (left (limited ms m).world)) req (limited ms m));
    stop = λ ms req m. told (stop machine req (limited ms m));
    stop_all = λ m. let (es, m') = stop_all machine m in (joined_error es, m');
  }

  module _ (Q : W → Type 0) (kept : IsKept machine Q)
      (timeless : (ms : ℤ) (w : W) → Q w → Q (within ms w)) where
    manager_quiet : IsQuiet manager_runner (λ m. Q m.world)
    unfolding manager_runner limited told
    manager_quiet = record {
      by_health = λ m q. q;
      by_stop = λ ms req m q.
          stop-kept machine Q kept req (record m { world = within ms m.world })
            (timeless ms m.world q);
      by_stop_all = λ m q. stop_all-kept machine Q kept m q;
    }

    module _ {P S : Type 0} (codec : Codec P) (time : TimeText) (boundary : Boundary S)
        (identity : Identity) (writable : Response → Bool) where
      -- A guest agent whose clock cannot be set launches nothing: over any sequence of frames its system keeps
      -- whatever looks at the clock and signals to process groups keep, and its server stays unready.
      pub serve_launches_nothing :
          IsUnset time boundary
          → (s : Server S (Manager W)) (frames : List (Incoming P)) → s.clock_ready ≡ false
          → Q s.runner.world
          → ((serve codec time boundary manager_runner identity manifest writable [] s
                frames).server.clock_ready
              ≡ false)
            × Q
                (serve codec time boundary manager_runner identity manifest writable [] s
                  frames).server.runner.world
      serve_launches_nothing unset s frames unready q =
          serve_quiet codec time boundary manager_runner identity manifest writable (λ m. Q m.world)
            manager_quiet unset [] s frames unready q
