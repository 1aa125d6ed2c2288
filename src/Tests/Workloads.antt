-- ===== src/Tests/Workloads.antt =====
-- The theorems on the workload's processes, for a machine on which each process ends when it is told to.
use epoch.Base.{
  ℕ, zero, suc, ◌<◌, String, true, false, none, some, [], ◌∷◌, lookup, member, has_key, pos, ok,
  ◌≡◌, ◌≢◌, ◌⊎◌, inl, inr, refl, arith, ◌==◌, Option, Bool, ◌||◌, str_eq, if◌then◌else◌, Bool-cases,
  Bool,
}
use epoch.Json.{null}
use epoch.Guest.{ServiceRequest, ServiceResult}
use epoch.Guest.Workload.{Machine, Manager, wakes, process_done, delivered, terminate}
use epoch.Guest.Workload.Capture.{write_each, new_capture, captured, concat, write_each-captured}
use epoch.Guest.Workload.Frame.{IsKept}
use epoch.Guest.Workload.Reaping.{IsDone, IsReaping}
use epoch.Guest.Workload.Actions.{Answer}
use epoch.Guest.Workload.Services.{stop, stop_all}
use epoch.Guest.Workload.Services.Names.{names}
use epoch.Guest.Workload.Services.Reaped.{IsTracked, stop_forgets_nothing}
use epoch.Guest.Workload.Starts.{start}
use epoch.Guest.Workload.Starts.Ends.{IsTimed, start_ends}
use epoch.Guest.Workload.Reached.{begun, after, started, AreInOrder, Reached-AreInOrder}
use epoch.Guest.Workload.ServiceSet.{add_service, drop_service, Implements}
use epoch.Guest.Workload.Starts.Refines.{is_declared, manager_refines}
use epoch.Guest.Workload.Serving.{manager_runner, serve_launches_nothing}
use epoch.Guest.Server.{Server}
use epoch.Guest.Server.Session.{serve}
use epoch.Tests.Plans.{one_time}
use epoch.Tests.Sessions.{
  guest_manifest, moment, codec, broken_clock, identity, writable, frames, never_set,
}

write_each-captured_example :
    write_each ((104 ∷ 105 ∷ []) ∷ (10 ∷ []) ∷ []) new_capture
    ≡ captured (concat ((104 ∷ 105 ∷ []) ∷ (10 ∷ []) ∷ []))
write_each-captured_example = write_each-captured ((104 ∷ 105 ∷ []) ∷ (10 ∷ []) ∷ [])

-- The state: how many pauses are left, and whether the service was told to end. Process 0 is an action,
-- which has ended when it is looked at; process 1 is the service.
abbrev State : Type 0
State = ℕ × Bool

paused : State → Option String × State
paused (zero, told) = (some "deadline", (zero, told))
paused (suc n, told) = (none, (n, told))

abbrev machine : Machine State
machine = record {
  read_clock = λ w. (ok moment, w);
  launch = λ kind id i w. (ok (if str_eq kind "service" then 1 else 0), w);
  look = λ p w. record {
    done = p == 0 || w.1;
    stdout_quota = false;
    stderr_quota = false;
    output = record { size = 2; decoded = some null };
    stdout = "{}";
    stderr = "";
    wait_error = none;
    exit_code = pos 0;
    cleanup_error = none;
    reaping = false;
  };
  kill_group = λ s p w. (delivered, (w.0, w.1 || p == 1));
  grace = λ p w. (p == 0 || w.1, w);
  reap = λ p w. ((if p == 0 || w.1 then none else some "deadline"), w);
  watch = λ p w. wakes process_done w;
  pause = paused;
}

paused_once : (w : State) → ((paused w).0 ≢ none) ⊎ ((paused w).1.0 < w.0)
unfolding paused
paused_once (zero, told) = inl (λ p. ground (arith, p))
paused_once (suc n, told) = inr (omega arith)

timed : IsTimed machine (λ w. w.0)
timed = record {
  by_pause = paused_once;
  by_runs = λ n. record {
    kept = record {
      by_clock = λ w h. h;
      by_kill = λ s p w h. h;
      by_grace = λ p w h. h;
      by_reap = λ p w h. h;
    };
    by_launch = λ kind id i w h. h;
    by_watch = λ p w h. h;
  };
}

abbrev web : ServiceRequest
web = record { service = "web"; timeout_ms = pos 0; input = none }

abbrev empty_manager : Manager State
empty_manager = record { services = []; world = (3, false) }

abbrev running : Manager State
running = record {
  services = ("web", record { process = 1; expected = false }) ∷ [];
  world = (3, false);
}

start_ends_example : start machine guest_manifest 4 web empty_manager ≢ none
start_ends_example =
    start_ends machine guest_manifest (λ w. w.0) timed 4 web empty_manager (omega arith)

IsDone-kept : (p : ℕ) → IsKept machine (IsDone machine p)
IsDone-kept p = record {
  by_clock = λ w h. h;
  by_kill = λ s q w h. ground (arith, h);
  by_grace = λ q w h. h;
  by_reap = λ q w h. h;
}

by_grace : (p : ℕ) (w : State) → ((p == 0 || w.1) ≡ false) ⊎ ((p == 0 || w.1) ≡ true)
by_grace p w = elim (Bool-cases (p == 0 || w.1)) [ inl h ↦ inr h | inr h ↦ inl h ]

by_reap :
    (p : ℕ) (w : State)
    → ((e : String) × ((machine.reap p w).0 ≡ some e)) ⊎ IsDone machine p (machine.reap p w).1
by_reap p w = elim (Bool-cases (p == 0 || w.1)) [
  | inl h ↦ inr h
  | inr h ↦ inl ("deadline", ground (arith, h))
]

reaping : IsReaping machine
reaping = record { persists = IsDone-kept; by_grace = by_grace; by_reap = by_reap }

stop_forgets_nothing_example :
    IsTracked machine reaping "web" 1
      (stop machine web running).1.services
      (stop machine web running).1.world
    × IsTracked machine reaping "web" 1
        (stop_all machine running).1.services
        (stop_all machine running).1.world
unfolding lookup member
stop_forgets_nothing_example =
    stop_forgets_nothing machine reaping "web" (record { process = 1; expected = false }) web
      running refl (ground arith)

abbrev started_web : Answer ServiceResult
started_web = (
  record {
    service = "web";
    running = true;
    before = moment;
    after = moment;
    stdout = "";
    stderr = "";
  },
  [],
)

Reached-AreInOrder_example : AreInOrder machine guest_manifest (names running.services)
unfolding start lookup has_key terminate
Reached-AreInOrder_example =
    Reached-AreInOrder machine guest_manifest empty_manager running refl
      (after empty_manager running begun (started 4 web started_web refl))

-- A machine that counts what it launched.
abbrev counting : Machine ℕ
counting = record {
  read_clock = λ w. (ok moment, w);
  launch = λ kind id i w. (ok w, suc w);
  look = λ p w. (machine.look p (0, true));
  kill_group = λ s p w. (delivered, w);
  grace = λ p w. (true, w);
  reap = λ p w. (none, w);
  watch = λ p w. wakes process_done w;
  pause = λ w. (some "deadline", w);
}

abbrev unready : Server ℕ (Manager ℕ)
unready = record { clock_ready = false; clock = 0; runner = record { services = []; world = 0 } }

counting_kept : IsKept counting (λ w. w ≡ 0)
counting_kept = record {
  by_clock = λ w h. h;
  by_kill = λ s p w h. h;
  by_grace = λ p w h. h;
  by_reap = λ p w h. h;
}

serve_launches_nothing_example :
    ((serve codec one_time broken_clock
        (manager_runner counting guest_manifest (λ ms w. w) (λ w. 0) (λ es. ""))
        identity
        guest_manifest
        writable
        []
        unready
        frames).server.clock_ready
      ≡ false)
    × ((serve codec one_time broken_clock
          (manager_runner counting guest_manifest (λ ms w. w) (λ w. 0) (λ es. ""))
          identity
          guest_manifest
          writable
          []
          unready
          frames).server.runner.world
        ≡ 0)
serve_launches_nothing_example =
    serve_launches_nothing counting guest_manifest (λ ms w. w) (λ w. 0) (λ es. "") (λ w. w ≡ 0)
      counting_kept (λ ms w h. h) codec one_time broken_clock identity writable never_set unready
      frames refl refl

manager_refines_example :
    Implements
      (add_service
        (is_declared machine guest_manifest (lookup "web" guest_manifest.services))
        "web"
        [])
      []
      (started_web, running)
    × Implements (drop_service "web" []) [] (stop machine web empty_manager)
unfolding start lookup has_key terminate
manager_refines_example =
    manager_refines machine guest_manifest 4 web empty_manager (started_web, running) refl
