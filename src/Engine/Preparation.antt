-- ===== src/Engine/Preparation.antt =====
-- Validate of internal/engine/plan.go: a scenario is admitted against the operator's policy and the image.
pub mod Sound
use epoch.Base.{
  Bytes, String, Bool, true, not, ◌&&◌, ◌||◌, Option, none, some, List, [], ◌∷◌, ltb_ℤ, has_key,
  str_eq, Result, ok, err, ◌>>=◌, ◌>>◌, guard,
}
use epoch.Config
use epoch.Config.{Paths, ConfigError}
use epoch.Config.Bounded.{Reading, ReadError, read_bounded}
use epoch.Artifact
use epoch.Artifact.{Store, Prepared, ArtifactError}
use epoch.Scenario.{
  Step, Scenario, Op, clock_read, clock_set, action_exec, service_start, service_stop, wait,
  other_op, Refusal,
}
use epoch.Guest.Manifest.{Manifest}

-- What Validate returns.
pub record Plan : Type 0 where
  pub scenario : Scenario
  pub input : Bytes
  pub image : Prepared

pub data PlanError : Type 0 where
  exceeds_policy other_workload : PlanError
  undeclared_action undeclared_service : String → PlanError
  config_error : ConfigError → PlanError
  read_error : ReadError → PlanError
  scenario_error : Refusal → PlanError
  artifact_error : ArtifactError → PlanError

-- The switch on the operation of a step.
declared : Manifest → Step → Op → Result PlanError (Unit {0})
declared m step action_exec = guard (has_key step.action m.actions) (undeclared_action step.id)
declared m step service_start = guard (has_key step.service m.services) (undeclared_service step.id)
declared m step service_stop = guard (has_key step.service m.services) (undeclared_service step.id)
declared m step _ = ok tt

unfoldable pub all_declared : Manifest → List Step → Result PlanError (Unit {0})
unfolding declared
all_declared m [] = ok tt
all_declared m (step ∷ rest) = do declared m step step.op; all_declared m rest

unfoldable pub within_policy : Config.Policy → Scenario → Bool
within_policy p s = not (
    ltb_ℤ p.max_vcpus s.resources.vcpu_count
    || ltb_ℤ p.max_memory_mib s.resources.memory_mib
    || ltb_ℤ p.max_timeout_ms s.timeout_ms)

from_config : Result ConfigError (Unit {0}) → Result PlanError (Unit {0})
from_config (ok u) = ok u
from_config (err e) = err (config_error e)

from_read : Result ReadError Bytes → Result PlanError Bytes
from_read (ok b) = ok b
from_read (err e) = err (read_error e)

from_scenario : Result Refusal Scenario → Result PlanError Scenario
from_scenario (ok s) = ok s
from_scenario (err e) = err (scenario_error e)

from_artifact : Result ArtifactError Prepared → Result PlanError Prepared
from_artifact (ok a) = ok a
from_artifact (err e) = err (artifact_error e)

-- `decode` is scenario.Decode, and `image_path` the path of an image's manifest in the artifact directory.
module _ (store : Store) (decode : Bytes → Result Refusal Scenario)
    (image_path : String → String → String) where
  unfoldable pub prepare : Config.Config → String → Result PlanError Plan
  unfolding from_config from_read from_scenario from_artifact within_policy all_declared
      Artifact.load Config.validate read_bounded
  prepare c path = do
    from_config (Config.validate store.paths c)
    b ← from_read (read_bounded store.reading path 1048576)
    s ← from_scenario (decode b)
    guard (within_policy c.policy s) exceeds_policy
    a ←
        from_artifact
          (Artifact.load store (image_path c.artifact_dir s.image) s.image c.policy.max_disk_bytes)
    guard (str_eq s.workload a.workload.id) other_workload
    all_declared a.workload s.steps
    ok (record { scenario = s; input = b; image = a })
