-- ===== src/Engine/Preparation/Sound.antt =====
-- What a plan that Validate of internal/engine/plan.go admits has.
use epoch.Base.{
  Bytes, String, true, false, not, ◌&&◌, ◌||◌, List, [], ◌∷◌, All, ◌==◌, ◌≤ℤ◌, pos, has_key, str_eq,
  Result, ok, err, guard, >>=-eq-ok, >>-eq-ok, guard-eq-ok, ok-injective, ◌≡◌, refl, subst, arith,
  eq_iff,
}
use epoch.Config
use epoch.Config.{ConfigError, policy_within, config_version, within}
use epoch.Config.Bounded.{read_bounded}
use epoch.Artifact
use epoch.Artifact.{Store, Prepared, ArtifactError}
use epoch.Artifact.Verified.{IsTrusted, load-IsTrusted}
use epoch.Scenario.{
  Step, Scenario, Op, clock_read, clock_set, action_exec, service_start, service_stop, wait,
  other_op, Refusal,
}
use epoch.Guest.Manifest.{Manifest}
use epoch.Engine.Preparation.{
  Plan, exceeds_policy, other_workload, undeclared_action, undeclared_service, declared,
  all_declared, within_policy, from_config, from_read, from_scenario, from_artifact, prepare,
}

-- The manifest declares what a step names.
abbrev pub DeclaresFor : Manifest → Step → Op → Type 0
DeclaresFor m s action_exec = has_key s.action m.actions ≡ true
DeclaresFor m s service_start = has_key s.service m.services ≡ true
DeclaresFor m s service_stop = has_key s.service m.services ≡ true
DeclaresFor m s _ = Unit

declared-eq-ok : (m : Manifest) (s : Step) (op : Op) → declared m s op ≡ ok tt → DeclaresFor m s op
unfolding declared
declared-eq-ok m s action_exec h =
    guard-eq-ok (has_key s.action m.actions) (undeclared_action s.id) h
declared-eq-ok m s service_start h =
    guard-eq-ok (has_key s.service m.services) (undeclared_service s.id) h
declared-eq-ok m s service_stop h =
    guard-eq-ok (has_key s.service m.services) (undeclared_service s.id) h
declared-eq-ok m s clock_read h = tt
declared-eq-ok m s clock_set h = tt
declared-eq-ok m s wait h = tt
declared-eq-ok m s (other_op text) h = tt

all_declared-eq-ok :
    (m : Manifest) (steps : List Step)
    → all_declared m steps ≡ ok tt
    → All (λ s. DeclaresFor m s s.op) steps
unfolding all_declared
all_declared-eq-ok m [] h = tt
all_declared-eq-ok m (s ∷ rest) h =
    let one = >>-eq-ok (declared m s s.op) (all_declared m rest) h in
    (declared-eq-ok m s s.op one.0, all_declared-eq-ok m rest one.1)

from_config-eq-ok : (r : Result ConfigError (Unit {0})) → from_config r ≡ ok tt → r ≡ ok tt
unfolding from_config
from_config-eq-ok (ok u) h = refl
from_config-eq-ok (err e) h = absurd (ground (arith, h))

from_artifact-eq-ok :
    (r : Result ArtifactError Prepared) {a : Prepared} → from_artifact r ≡ ok a → r ≡ ok a
unfolding from_artifact
from_artifact-eq-ok (ok a) h = ground (arith, h)
from_artifact-eq-ok (err e) h = ground (arith, h)

module _ (store : Store) where
  -- One root is not the other and lies not in it.
  abbrev pub AreSeparate : String → String → Type 0
  AreSeparate a b =
      (str_eq a b ≡ false) × (within store.paths a b ≡ false) × (within store.paths b a ≡ false)

  validate-eq-ok :
      (c : Config.Config)
      → Config.validate store.paths c ≡ ok tt
      → (policy_within c.policy ≡ true) × AreSeparate c.runtime_root c.evidence_dir
  unfolding Config.validate
  validate-eq-ok c h =
      let one =
        >>-eq-ok (guard (str_eq c.api_version config_version) ConfigError.unsupported_version) _
          h in
      let two =
        >>-eq-ok (guard (c.guest_cid == 3 && c.guest_port == 7000) ConfigError.wrong_profile) _
          one.1 in
      let three =
        >>-eq-ok (guard (policy_within c.policy) ConfigError.policy_outside_limits) _ two.1 in
      let nested = not (
        str_eq c.runtime_root c.evidence_dir
        || within store.paths c.runtime_root c.evidence_dir
        || within store.paths c.evidence_dir c.runtime_root) in
      let four = >>-eq-ok (guard nested ConfigError.roots_not_separate) _ three.1 in
      let apart = guard-eq-ok nested ConfigError.roots_not_separate four.0 in
      (
        guard-eq-ok (policy_within c.policy) ConfigError.policy_outside_limits three.0,
        (ground (arith, apart), ground (arith, apart), ground (arith, apart)),
      )

  -- The plan is within the fixed limits of the host, its image is verified within them, its roots are
  -- separate, and the workload of the image declares every action and service that a step names.
  pub record IsAdmitted (c : Config.Config) (p : Plan) : Type 0 where
    pub vcpus : p.scenario.resources.vcpu_count ≤ℤ pos 2
    pub memory : p.scenario.resources.memory_mib ≤ℤ pos 2048
    pub timeout : p.scenario.timeout_ms ≤ℤ pos 600000
    pub trusted : IsTrusted store c.policy.max_disk_bytes p.image
    pub disk : c.policy.max_disk_bytes ≤ℤ pos 4294967296
    pub separate : AreSeparate c.runtime_root c.evidence_dir
    pub workload : p.scenario.workload ≡ p.image.workload.id
    pub declares : All (λ s. DeclaresFor p.image.workload s s.op) p.scenario.steps

  within_limits :
      (p : Config.Policy) (s : Scenario)
      → policy_within p ≡ true
      → within_policy p s ≡ true
      → (s.resources.vcpu_count ≤ℤ pos 2)
        × (s.resources.memory_mib ≤ℤ pos 2048)
        × (s.timeout_ms ≤ℤ pos 600000)
        × (p.max_disk_bytes ≤ℤ pos 4294967296)
  unfolding policy_within within_policy
  within_limits p s h k =
      (ground (arith, h, k), ground (arith, h, k), ground (arith, h, k), ground (arith, h))

  module _ (decode : Bytes → Result Refusal Scenario) (image_path : String → String → String) where
    -- A plan that Validate of the engine admits asks for at most two processors, 2 GiB of memory and 600 s,
    -- whatever the policy of the operator; its kernel and its disk have the sizes and digests of the image's
    -- manifest, with a disk of at most the policy's size and so of at most 4 GiB; its workload manifest is
    -- valid, is the one of the image and of the scenario, and declares every action and service that a step
    -- names; and the runtime root and the evidence lie apart.
    pub prepare-IsAdmitted :
        (c : Config.Config) (path : String) {p : Plan}
        → prepare store decode image_path c path ≡ ok p
        → IsAdmitted c p
    unfolding prepare
    prepare-IsAdmitted c path h =
        let one = >>-eq-ok (from_config (Config.validate store.paths c)) _ h in
        let two = >>=-eq-ok (from_read (read_bounded store.reading path 1048576)) _ one.1 in
        let three = >>=-eq-ok (from_scenario (decode two.0)) _ two.2 in
        let s = three.0 in
        let four = >>-eq-ok (guard (within_policy c.policy s) exceeds_policy) _ three.2 in
        let image =
          Artifact.load store (image_path c.artifact_dir s.image) s.image c.policy.max_disk_bytes in
        let five = >>=-eq-ok (from_artifact image) _ four.1 in
        let a = five.0 in
        let six = >>-eq-ok (guard (str_eq s.workload a.workload.id) other_workload) _ five.2 in
        let seven = >>-eq-ok (all_declared a.workload s.steps) _ six.1 in
        let valid = validate-eq-ok c (from_config-eq-ok (Config.validate store.paths c) one.0) in
        let limits =
          within_limits c.policy s valid.0
            (guard-eq-ok (within_policy c.policy s) exceeds_policy four.0) in
        subst (IsAdmitted c) (ok-injective seven.1) (record {
          vcpus = limits.0;
          memory = limits.1;
          timeout = limits.2;
          trusted =
              load-IsTrusted store (image_path c.artifact_dir s.image) s.image
                c.policy.max_disk_bytes (from_artifact-eq-ok image five.1);
          disk = limits.3;
          separate = valid.1;
          workload =
              (eq_iff s.workload a.workload.id).0
                (guard-eq-ok (str_eq s.workload a.workload.id) other_workload six.0);
          declares = all_declared-eq-ok a.workload s.steps seven.0;
        })
