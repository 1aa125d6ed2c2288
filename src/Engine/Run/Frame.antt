-- ===== src/Engine/Run/Frame.antt =====
-- Framed invariants of the closures of `run` in internal/engine/run.go: those that the single writes
-- of `execute` keep.
use epoch.Base.{ℕ, String, true, Option, some, List, Result, ok, err}
use epoch.Base.Exec.{resume, raise, ◌>>=◌, ◌>>◌}
use epoch.Scenario.{Step}
use epoch.Scenario.Assertions.{AssertionResult}
use epoch.Engine.HostClock.{HostObservation}
use epoch.Engine.Outcome.{Stage, StepResult}
use epoch.Engine.StepCall.{execute_step}
use epoch.Engine.Run.{Call, World, State, Run}

-- `m` keeps `I`, whether it returns or fails.
pub record Keeps {W A : Type 0} (I : State W → Type 0) (m : Run W A) : Type 0 where
  pub at : (s : State W) → I s → I (m s).1

-- The single writes of a call, `stage` and `observe`.
pub record IsCalm {W : Type 0} (world : World W) (I : State W → Type 0) : Type 0 where
  pub by_call :
      (c : Call) (s : State W) → I s → I (record s { world = (world.perform c s.world).1 })
  pub by_sample : (s : State W) → I s → I (record s { world = (world.observe s.world).1 })
  pub by_stage :
      (g : Stage) (s : State W)
      → I s
      → I (record s {
        report = record s.report { stage = g };
        manifest = record s.manifest { stage = g };
      })
  pub by_host : (o : Option HostObservation) (s : State W) → I s → I (record s { last_host = o })

-- The single writes of `execute`.
pub record IsFramed {W : Type 0} (world : World W) (I : State W → Type 0) : Type 0 where
  pub calm : IsCalm world I
  pub by_step :
      (x : Step) (s : State W)
      → I s
      → I (record s { world = (execute_step world.time world.guest x s.world).1 })
  pub by_vmm :
      (s : State W)
      → I s
      → I (record s {
        has_vmm = true;
        manifest = record s.manifest { process = some (world.process s.world) };
      })
  pub by_guest : (s : State W) → I s → I (record s { has_guest = true })
  pub by_result :
      (rs : List StepResult) (s : State W)
      → I s
      → I (record s { report = record s.report { steps = rs } })
  pub by_verdict :
      (rs : List AssertionResult) (s : State W)
      → I s
      → I (record s { report = record s.report { assertions = rs } })
  pub by_bytes : (n : ℕ) (s : State W) → I s → I (record s { bytes = n })

module _ {W A B : Type 0} (I : State W → Type 0) where
  pub Keeps-then : (m : Run W A) (n : Run W B) → Keeps I m → Keeps I n → Keeps I (m >> n)
  Keeps-then m n km kn = record { at = λ s h. let (r, s') = m s in go r s' (km.at s h) }
    where
      go : (r : Result String A) (s : State W) → I s → I (resume r (λ _. n) s).1
      go (ok a) s h = kn.at s h
      go (err e) s h = h

  pub Keeps-bind :
      (m : Run W A) (f : A → Run W B) → Keeps I m → ((a : A) → Keeps I (f a)) → Keeps I (m >>= f)
  Keeps-bind m f km kf = record { at = λ s h. let (r, s') = m s in go r s' (km.at s h) }
    where
      go : (r : Result String A) (s : State W) → I s → I (resume r f s).1
      go (ok a) s h = (kf a).at s h
      go (err e) s h = h

module _ {W A : Type 0} (I : State W → Type 0) where
  pub Keeps-raise : (e : String) → Keeps {A = A} I (raise e)
  Keeps-raise e = record { at = λ s h. h }

pub ruleset keeps_rules = (Keeps-then, Keeps-bind, Keeps-raise)
