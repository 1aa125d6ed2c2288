-- ===== src/Guest/Workload.antt =====
-- internal/guestagent/process_linux.go: the manager of the workload's processes in a guest. Its state, the
-- look at its health and the end of a process; Actions, Services and Starts have its methods.
pub mod Capture
pub mod Frame
pub mod Reaping
pub mod Actions
pub mod Services
pub mod Starts
pub mod ServiceSet
pub mod Reached
pub mod Serving
use epoch.Base.{
  ℕ, String, Bool, true, false, Option, none, some, List, [], ◌∷◌, length, ℤ, pos, insert, str_eq,
  if◌then◌else◌, Result, ok, err,
}
use epoch.Json.{Raw}
use epoch.Guest.{ClockObservation}

pub data Signal : Type 0 where
  term kill : Signal

-- What syscall.Kill on a process group comes to.
pub data Killed : Type 0 where
  delivered no_such_process : Killed
  kill_failed : String → Killed

-- What can be seen of an owned process: its channels `done` and the two `quota`, and what it left. `output`
-- is the captured standard output, trimmed, with what jsonutil.Decode makes of it.
pub record Look : Type 0 where
  pub done : Bool
  pub stdout_quota : Bool
  pub stderr_quota : Bool
  pub output : Raw
  pub stdout : String
  pub stderr : String
  pub wait_error : Option String
  pub exit_code : ℤ
  pub cleanup_error : Option String
  pub reaping : Bool

pub data Wake : Type 0 where
  process_done wake_stdout_quota wake_stderr_quota : Wake
  context_done : String → Wake

-- What the select of Action receives until something else than the ticker: the deadline of its context
-- makes that finite.
pub data Watch (W : Type 0) : Type 0 where
  wakes : Wake → W → Watch W
  tick : W → Watch W → Watch W

-- The system under the manager, in the state `W`; a process is known by a number. `grace` waits for `done`
-- (true), a timer or the context; `reap` waits for `done` or the context, whose error it returns;
-- `pause` waits for a timer or the context.
pub record Machine (W : Type 0) : Type 0 where
  pub read_clock : W → Result String ClockObservation × W
  pub launch : String → String → Option Raw → W → Result String ℕ × W
  pub look : ℕ → W → Look
  pub kill_group : Signal → ℕ → W → Killed × W
  pub grace : ℕ → W → Bool × W
  pub reap : ℕ → W → Option String × W
  pub watch : ℕ → W → Watch W
  pub pause : W → Option String × W

-- An entry of Manager.services: the process, and its field `expected`.
pub record Owned : Type 0 where
  pub process : ℕ
  pub expected : Bool

pub record Manager (W : Type 0) : Type 0 where
  pub services : List (String × Owned)
  pub world : W

pub data WorkloadError : Type 0 where
  undeclared_action undeclared_service start_refused not_running readiness_failed : WorkloadError
  output_quota terminated_by_signal requires_json exited_before_stop service_quota : WorkloadError
  clock_failed launch_failed wait_failed signal_failed cleanup_failed context_ended reap_failed :
      String → WorkloadError
  stdout_exceeded stderr_exceeded exited_unexpectedly : String → WorkloadError

-- Active
unfoldable pub active : {W : Type 0} → Manager W → ℕ
active m = length m.services

module _ {W : Type 0} (machine : Machine W) where
  -- The select of Health on one service: its three cases in their order.
  unhealthy : String → Look → Option WorkloadError
  unhealthy name l =
      if l.stdout_quota
      then some (stdout_exceeded name)
      else if l.stderr_quota
      then some (stderr_exceeded name)
      else if l.done
      then some (exited_unexpectedly name)
      else none

  -- The loop of Health, over the services in some order.
  unfoldable pub health_of : List (String × Owned) → W → Option WorkloadError
  unfolding unhealthy
  health_of [] w = none
  health_of ((name, p) ∷ rest) w =
      let later = health_of rest w in
      if p.expected
      then later
      else elim (unhealthy name (machine.look p.process w)) [ none ↦ later | some e ↦ some e ]

  unfoldable pub health : Manager W → Option WorkloadError
  unfolding health_of
  health m = health_of m.services m.world

  killed : Killed × W → Option WorkloadError × W
  killed (delivered, w) = (none, w)
  killed (no_such_process, w) = (none, w)
  killed (kill_failed e, w) = (some (signal_failed e), w)

  -- signalGroup
  unfoldable pub signal_group : Signal → ℕ → W → Option WorkloadError × W
  unfolding killed
  signal_group s p w =
      if (machine.look p w).reaping then (none, w) else killed (machine.kill_group s p w)

  -- p.cleanupErr, after `done` was received
  cleaned : ℕ → W → Option WorkloadError × W
  cleaned p w = elim (machine.look p w).cleanup_error [
    | none ↦ (none, w)
    | some e ↦ (some (cleanup_failed e), w)
  ]

  after_reap : ℕ → Option String × W → Option WorkloadError × W
  unfolding cleaned
  after_reap p (none, w) = cleaned p w
  after_reap p (some e, w) = (some (reap_failed e), w)

  after_kill : ℕ → Option WorkloadError × W → Option WorkloadError × W
  unfolding after_reap
  after_kill p (some e, w) = (some e, w)
  after_kill p (none, w) = after_reap p (machine.reap p w)

  after_grace : ℕ → Bool × W → Option WorkloadError × W
  unfolding cleaned after_kill signal_group
  after_grace p (true, w) = cleaned p w
  after_grace p (false, w) = after_kill p (signal_group kill p w)

  after_term : ℕ → Option WorkloadError × W → Option WorkloadError × W
  unfolding after_grace
  after_term p (some e, w) = (some e, w)
  after_term p (none, w) = after_grace p (machine.grace p w)

  unfoldable pub terminate : ℕ → W → Option WorkloadError × W
  unfolding cleaned after_term signal_group
  terminate p w =
      if (machine.look p w).done then cleaned p w else after_term p (signal_group term p w)
