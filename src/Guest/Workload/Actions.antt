-- ===== src/Guest/Workload/Actions.antt =====
-- Action of internal/guestagent/process_linux.go. Deferred calls are made where the
-- function returns: first the end of the process, then the second look at the clock.
pub mod Kept
use epoch.Base.{
  ℕ, String, false, not, ◌||◌, Option, none, some, List, [], ◌∷◌, ◌++◌, leb_ℤ, pos, has_key,
  if◌then◌else◌, Result, ok, err,
}
use epoch.Guest.{ClockObservation, ActionRequest, ActionResult}
use epoch.Guest.Clock.{no_observation}
use epoch.Guest.Manifest.{Manifest}
use epoch.Guest.Workload.{
  Look, process_done, wake_stdout_quota, wake_stderr_quota, context_done, Watch, wakes, tick,
  Machine, Owned, Manager, WorkloadError, undeclared_action, output_quota, terminated_by_signal,
  requires_json, clock_failed, launch_failed, wait_failed, context_ended, health_of, terminate,
}

-- A result with the errors that were joined; there is none on success.
abbrev pub Answer : Type 0 → Type 0
Answer A = A × List WorkloadError

abbrev blank_action : ActionResult
blank_action = record {
  exit_code = pos 0;
  stdout_json = none;
  stderr = "";
  stdout_truncated = false;
  stderr_truncated = false;
  before = no_observation;
  after = no_observation;
}

errors_of : Option WorkloadError → List WorkloadError
errors_of none = []
errors_of (some e) = e ∷ []

-- What Action makes of a process that has ended: the exit code and the output, or an error.
judged : Look → ActionResult → Answer ActionResult
judged l r =
    let seen = record r {
      stderr = l.stderr;
      stdout_truncated = l.stdout_quota;
      stderr_truncated = l.stderr_quota;
    } in
    if l.stdout_quota || l.stderr_quota then (seen, output_quota ∷ []) else elim l.wait_error [
      | some e ↦ (seen, wait_failed e ∷ [])
      | none ↦
          let coded = record seen { exit_code = l.exit_code } in
          if not (leb_ℤ (pos 0) l.exit_code)
          then (coded, terminated_by_signal ∷ [])
          else elim l.output.decoded [
            | none ↦ (coded, requires_json ∷ [])
            | some v ↦ (record coded { stdout_json = some l.output }, [])
          ]
    ]

module _ {W : Type 0} (machine : Machine W) (manifest : Manifest) where
  -- What the loop of Action waits for: the end of the process, or an error.
  awaited : List (String × Owned) → Watch W → Option WorkloadError × W
  awaited services (wakes process_done w) = (none, w)
  awaited services (wakes (context_done e) w) = (some (context_ended e), w)
  awaited services (wakes wake_stdout_quota w) = (some output_quota, w)
  awaited services (wakes wake_stderr_quota w) = (some output_quota, w)
  awaited services (tick w later) =
      let rest = awaited services later in
      elim (health_of machine services w) [ some e ↦ (some e, w) | none ↦ rest ]

  -- The deferred look at the clock of an action.
  action_seen : Answer ActionResult → Result String ClockObservation × W → Answer ActionResult × W
  action_seen (r, es) (ok v, w) = ((record r { after = v }, es), w)
  action_seen (r, es) (err e, w) =
      ((record r { after = no_observation }, es ++ clock_failed e ∷ []), w)

  -- The deferred end of its process.
  action_ended : ℕ → Answer ActionResult → Option WorkloadError × W → Answer ActionResult × W
  unfolding action_seen errors_of
  action_ended p (r, es) (e, w) =
      let l = machine.look p w in
      action_seen
        (
          record r {
            stderr = l.stderr;
            stdout_truncated = l.stdout_quota;
            stderr_truncated = l.stderr_quota;
          },
          es ++ errors_of e,
        )
        (machine.read_clock w)

  action_watched : ℕ → ActionResult → Option WorkloadError × W → Answer ActionResult × W
  unfolding action_ended judged
  action_watched p r (some e, w) = action_ended p (r, e ∷ []) (terminate machine p w)
  action_watched p r (none, w) =
      action_ended p (judged (machine.look p w) r) (terminate machine p w)

  action_launched :
      List (String × Owned) → ActionResult → Result String ℕ × W → Answer ActionResult × W
  unfolding action_seen action_watched awaited
  action_launched services r (err e, w) =
      action_seen (r, launch_failed e ∷ []) (machine.read_clock w)
  action_launched services r (ok p, w) = action_watched p r (awaited services (machine.watch p w))

  action_begun :
      ActionRequest
      → List (String × Owned)
      → Result String ClockObservation × W
      → Answer ActionResult × W
  unfolding action_launched
  action_begun req services (err e, w) = ((blank_action, clock_failed e ∷ []), w)
  action_begun req services (ok v, w) =
      action_launched services (record blank_action { before = v })
        (machine.launch "action" req.action req.input w)

  -- Action: it changes no entry of the services.
  unfoldable pub action : ActionRequest → Manager W → Answer ActionResult × Manager W
  unfolding action_begun
  action req m =
      if not (has_key req.action manifest.actions)
      then ((blank_action, undeclared_action ∷ []), m)
      else (let (out, w) = action_begun req m.services (machine.read_clock m.world) in
          (out, record m { world = w }))
