-- ===== src/Tests/Sessions.antt =====
-- The theorems on the guest's server, for a guest whose clock cannot be set, and for one session.
use epoch.Base.{
  ℕ, suc, ◌+◌, ◌≤◌, String, Bool, true, false, none, some, List, [], ◌∷◌, ◌≡◌, inl, refl, ok, err,
  pos, length, arith,
}
use epoch.Guest.{ClockObservation, ActionResult, ServiceResult}
use epoch.Guest.Identity.{Identity}
use epoch.Guest.Manifest.{Manifest}
use epoch.Guest.Clock.{Boundary, set_failed, set_clock}
use epoch.Guest.Server.{GuestOp, hello, clock_set, action_exec, shutdown, Codec, Runner, Server}
use epoch.Guest.Server.Safety.{IsQuiet, IsUnset}
use epoch.Guest.Server.Session.{Incoming, request, Response, serve}
use epoch.Guest.Server.Session.Requests.{AreFresh, serve_fresh}
use epoch.Guest.Server.Session.Quiet.{serve_quiet}
use epoch.Tests.Plans.{one_time, stamp}

abbrev pub moment : ClockObservation
moment = record { realtime = pos 1000; monotonic_ns = pos 7 }

-- A payload stands for one request of each operation.
abbrev pub codec : Codec ℕ
codec = record {
  missing = λ p. false;
  as_empty = λ p. true;
  as_clock_set = λ p. some (record { at = stamp; tolerance_ms = pos 0; allow_live = false });
  as_action = λ p. some (record { action = "probe"; input = none; timeout_ms = pos 0 });
  as_service = λ p. some (record { service = "web"; timeout_ms = pos 0; input = none });
}

abbrev pub broken_clock : Boundary ℕ
broken_clock = record { sample = λ c. (ok moment, c); set = λ t c. (err set_failed, c) }

abbrev service_answer : ServiceResult
service_answer = record {
  service = "web";
  running = true;
  before = moment;
  after = moment;
  stdout = "";
  stderr = "";
}

abbrev action_answer : ActionResult
action_answer = record {
  exit_code = pos 0;
  stdout_json = none;
  stderr = "";
  stdout_truncated = false;
  stderr_truncated = false;
  before = moment;
  after = moment;
}

-- A workload that counts what was run.
abbrev pub workload : Runner ℕ
workload = record {
  health = λ r. (none, r);
  active = λ r. r;
  action = λ limit req r. ((action_answer, none), suc r);
  start = λ limit req r. ((service_answer, none), suc r);
  stop = λ limit req r. ((service_answer, none), r);
  stop_all = λ r. (none, r);
}

abbrev pub identity : Identity
identity = record { run_id = "00112233445566778899aabbccddeeff"; nonce = "n"; cid = 3 }

abbrev pub guest_manifest : Manifest
guest_manifest = record {
  api_version = "epoch-workload/v1";
  id = "clock";
  version = "1";
  uid = 1000;
  gid = 1000;
  working_dir = "/work";
  environment = [];
  actions = ("probe", "/bin/probe" ∷ []) ∷ [];
  services = ("web", record { argv = "/bin/web" ∷ []; readiness_action = "probe" }) ∷ [];
}

abbrev call : GuestOp → String → Incoming ℕ
call op id = request (record {
  version = "epoch-guest/v1";
  id = id;
  op = op;
  run_id = identity.run_id;
  nonce = "n";
  payload = 0;
})

abbrev pub frames : List (Incoming ℕ)
frames =
    call hello "r1"
    ∷ call clock_set "r2"
    ∷ call action_exec "r3"
    ∷ call action_exec "r3"
    ∷ call shutdown "r4"
    ∷ []

abbrev pub writable : Response → Bool
writable r = true

abbrev fresh_server : Server ℕ ℕ
fresh_server = record { clock_ready = false; clock = 0; runner = 0 }

pub never_set : IsUnset one_time broken_clock
unfolding set_clock
never_set req c = inl (λ e. ground (arith, e))

quiet : IsQuiet workload (λ r. r ≡ 0)
quiet = record { by_health = λ r h. h; by_stop = λ limit req r h. h; by_stop_all = λ r h. h }

serve_quiet_example :
    ((serve codec one_time broken_clock workload identity guest_manifest writable [] fresh_server
        frames).server.clock_ready
      ≡ false)
    × ((serve codec one_time broken_clock workload identity guest_manifest writable [] fresh_server
          frames).server.runner
        ≡ 0)
serve_quiet_example =
    serve_quiet codec one_time broken_clock workload identity guest_manifest writable (λ r. r ≡ 0)
      quiet never_set [] fresh_server frames refl refl

serve_fresh_example :
    AreFresh identity []
      (serve codec one_time broken_clock workload identity guest_manifest writable [] fresh_server
        frames).responses
    × (length
            (serve codec one_time broken_clock workload identity guest_manifest writable []
              fresh_server frames).responses
          + 0
        ≤ 1024)
serve_fresh_example =
    serve_fresh codec one_time broken_clock workload identity guest_manifest writable []
      fresh_server frames (omega arith)
