-- ===== src/Lib.antt =====
-- Epoch runs a temporal experiment in a disposable virtual machine: a scenario declares steps (reading and
-- setting the guest's clock, actions, services, waits) and assertions on what they observe; the host boots a
-- guest, walks the plan, checks every answer independently, evaluates the assertions, cleans up, and saves a
-- report. A guest agent serves the steps over a framed connection. What a crashed run leaves behind is
-- inspected and recovered from its persisted manifest.
--
-- Files, and the code that they model (paths from the root of the repository):
--
--   Base                 library names, Boolean tests, lists and texts over the native numbers, 64-bit
--                        signed integers, the result type, and Exec, a state that survives an error
--   Json, Json.Number    the values and number literals of internal/jsonutil/decode.go
--   Scenario             internal/scenario/scenario.go: the declarations; Names holds its regular
--                        expressions, StepRules is Step.validate, Plan is Scenario.Validate, with Plan.Walk
--                        for the variables of its loop (steps, services, clockSet, waits)
--   Scenario.Pointer     pointerTokens, resolvePointer, availablePointer of internal/scenario/assertions.go
--   Scenario.Assertions  equal, compareNumbers (Rationals for big.Rat) and Evaluate of the same file;
--                        Decisions says what its comparisons mean, with Orders for numbers
--   Guest                the messages of internal/protocol/protocol.go; Manifest is its
--                        WorkloadManifest.Validate, with Paths for the package path
--   Guest.Identity       ParseIdentity of internal/guestclock/clock.go; Control is Verify and New
--   Guest.Clock          Controller.Set and Read of internal/guestclock/clock.go, over its Boundary
--   Guest.Server         Server.handle and requestTimeout of internal/guestagent/server.go over its Runner;
--                        Session is the loop of serveConn over the frames that it receives
--   Guest.Frames         ReadLine and WriteFrame of internal/protocol/protocol.go
--   Guest.Workload       the process manager of internal/guestagent/process_linux.go over a Machine: Capture is
--                        boundedCapture, Actions is Action, Services Stop and StopAll, Starts Start; Frame
--                        and Kept carry what calls keep, Reaping what the end of a process means,
--                        ServiceSet is its abstract view, and Serving makes it the Runner of Guest.Server
--   Client               internal/guestclient/client.go: Call over a Transport, with its laws in Calls; Dial
--                        is the handshake
--   Config               internal/config: Load and Validate; Bounded is ReadBounded of read.go
--   Artifact             Load and VerifyFile of internal/artifact/artifact.go; Copy is copyContext
--   Engine.Preparation   Validate of internal/engine/plan.go
--   Evidence             internal/evidence: the sections of the recorder that hold its lock; Records has its
--                        methods, Partial is ReadPartial
--   Engine.HostClock     Compare of internal/hostcheck/hostcheck.go
--   Engine.Privileges    parsePrivileges of the same file
--   Engine.StepCall      executeStep, validClock, validInterval of internal/engine/steps.go
--   Engine.Outcome       the report, ExitCode (internal/engine/types.go), validOutcomes (recover.go) and
--                        addCause (run.go)
--   Engine.Runtime       the manifest of a run and removeOwnedRuntime (internal/engine/recover.go)
--   Engine.Recovery      loadManifest, ReadReport and admit (internal/engine/recover.go); Apply is Recover, with
--                        what it leaves behind in Complete
--   Engine.Run           run of internal/engine/run.go: Boot is its closures stage and observe with execute
--                        down to the running guest, Steps the loop over the steps, Finish the outcome, the
--                        cleanup and the final report; Frame and the Keeps files hold framed invariants
--   Tests                concrete plans, worlds, sessions and readings
--
-- How the parts meet: Engine.Preparation admits a scenario against Config and an image of Artifact.
-- Scenario.Plan hands a plan with its defaults to Engine.Run, whose steps go through
-- Engine.StepCall through a Client to a guest; Guest.Server is what answers there, over Guest.Workload. What
-- a run records goes to Evidence. Engine.Run evaluates the observation of
-- each step by Scenario.Assertions and removes files by Engine.Runtime, as Engine.Recovery does.
--
-- Conventions. Text tags that the code switches on (operations, comparisons, statuses, stages) are
-- enumerations, with a constructor for other texts where a switch has a default. Instants are nanoseconds
-- of the Unix epoch; arithmetic on int64 wraps (wrap64) and time.Time.Sub saturates (saturate64). Lengths
-- of strings are bytes of UTF-8. Maps are association lists. A raw JSON message is its length with what
-- jsonutil.Decode makes of it. time.Parse and Format are the interface TimeText, with the law that a
-- printed instant of the supported interval parses to itself. Error texts are refusals by kind, without the
-- prefixes that callers wrap around them.
--
-- State. A run is a function on Run.State, the variables of run; each call that reaches the evidence
-- recorder, the file system, the VMM or the guest is put to a World, which answers it and changes as it
-- likes, so that every failure and every interleaving with the outside is a World. The guest's server is a
-- function of its state and a request; a session is a function of the list of its incoming frames. The
-- recorder and the workload manager are functions of their state and of the system under them, and
-- concurrent callers of the recorder are an order of its sections. Loops are structural recursion on the
-- plan, the frames, the fragments or the directory entries, but for two that take fuel: the writes of a
-- frame, bounded by its length, and the rounds of Start, bounded by the pauses before its deadline.
--
-- Not modelled: the doctor report and admission above the evidence recorder of a run, the goroutine that cancels a run
-- when its VMM exits (a World answers as one whose context has ended), elapsed and finished times in the
-- report, deadlines of connections, the token-level JSON decoder, the launch of a workload process and the
-- scan of /proc for its descendants, the copy of an artifact, system calls, commands and the
-- demonstration programs.
pub mod Base
pub mod Json
pub mod Scenario
pub mod Config
pub mod Artifact
pub mod Guest
pub mod Client
pub mod Engine
pub mod Evidence
pub mod Tests
