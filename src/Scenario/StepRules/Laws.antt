-- ===== src/Scenario/StepRules/Laws.antt =====
-- What Step.validate of internal/scenario/scenario.go leaves in an accepted step.
use epoch.Base.{
  String, true, false, ◌&&◌, Option, none, some, ◌≡◌, ◌≢◌, List, refl, sym, ◌∙◌, ap, subst, ℤ, pos,
  ltb_ℤ, leb_ℤ, ok, err, ◌>>◌, guard, >>=-eq-ok, >>-eq-ok, guard-eq-ok, ok-injective, if◌then◌else◌,
  arith,
}
use epoch.Scenario.{
  Op, clock_read, clock_set, action_exec, service_start, service_stop, wait, other_op, Step,
  unsupported_operation, timeout_does_not_fit,
}
use epoch.Scenario.Names.{is_workload_identifier}
use epoch.Scenario.StepRules.{
  TimeText, in_interval, validate_step, checked, keys_allowed, numbers_positive, check_input,
  operation_rules, set_rules, set_instant, timeout_rules, has_timeout, default_to, min_ℤ,
  valid_exit_code, fields_of, positive_if_present,
}

-- A time limit of at least 1 ms and at most the one of the run.
abbrev pub IsLimit : ℤ → ℤ → Type 0
IsLimit run_timeout t = (leb_ℤ (pos 1) t ≡ true) × (leb_ℤ t run_timeout ≡ true)

abbrev pub IsExitCode : Option ℤ → Type 0
IsExitCode none = Unit
IsExitCode (some n) = (leb_ℤ (pos 0) n ≡ true) × (leb_ℤ n (pos 255) ≡ true)

-- What each operation finds in a step that was accepted.
abbrev pub IsSound : TimeText → ℤ → Op → Step → Type 0
IsSound time run_timeout clock_read s = Unit
IsSound time run_timeout clock_set s =
    (target : ℤ) × (s.at ≡ time.format target)
    × (time.parse s.at ≡ some target)
    × (in_interval target ≡ true)
    × IsLimit (pos 10000) s.tolerance_ms
IsSound time run_timeout action_exec s =
    (is_workload_identifier s.action ≡ true)
    × IsExitCode s.expected_exit_code
    × IsLimit run_timeout s.timeout_ms
IsSound time run_timeout service_start s =
    (is_workload_identifier s.service ≡ true) × IsLimit run_timeout s.timeout_ms
IsSound time run_timeout service_stop s =
    (is_workload_identifier s.service ≡ true) × IsLimit run_timeout s.timeout_ms
IsSound time run_timeout wait s =
    (ltb_ℤ (pos 0) s.duration_ms ≡ true) × (ltb_ℤ s.duration_ms run_timeout ≡ true)
IsSound time run_timeout (other_op text) s = ⊥

tolerance-IsLimit :
    (s : Step)
    → numbers_positive s ≡ true
    → leb_ℤ (default_to (pos 1000) s.tolerance_ms) (pos 10000) ≡ true
    → IsLimit (pos 10000) (default_to (pos 1000) s.tolerance_ms)
unfolding numbers_positive default_to positive_if_present
tolerance-IsLimit s h below = ground arith

valid_exit_code-IsExitCode : (n : Option ℤ) → valid_exit_code n ≡ true → IsExitCode n
unfolding valid_exit_code
valid_exit_code-IsExitCode none h = tt
valid_exit_code-IsExitCode (some n) h = ground arith

-- The step behind the switch on its operation, before the default of its time limit.
abbrev IsAlmost : TimeText → ℤ → Op → Step → Type 0
IsAlmost time run_timeout clock_set s = IsSound time run_timeout clock_set s
IsAlmost time run_timeout action_exec s =
    (is_workload_identifier s.action ≡ true) × IsExitCode s.expected_exit_code
IsAlmost time run_timeout service_start s = is_workload_identifier s.service ≡ true
IsAlmost time run_timeout service_stop s = is_workload_identifier s.service ≡ true
IsAlmost time run_timeout wait s = IsSound time run_timeout wait s
IsAlmost time run_timeout _ s = Unit

set_rules-IsSound :
    (time : TimeText) (run_timeout : ℤ) (s t : Step) (at : Option ℤ)
    → numbers_positive s ≡ true
    → time.parse s.at ≡ at
    → set_rules time s at ≡ ok t
    → IsSound time run_timeout clock_set t × (t.op ≡ s.op)
unfolding set_rules set_instant
set_rules-IsSound time run_timeout s t none positive parsed h = ground arith
set_rules-IsSound time run_timeout s t (some target) positive parsed h =
    let (_, h1) = >>-eq-ok (guard _ _) _ h in
    let (inside, h2) = >>-eq-ok (guard _ _) _ h1 in
    let (small, h3) = >>-eq-ok (guard _ _) _ h2 in
    let inside = guard-eq-ok (in_interval target) _ inside in
    let tolerance = tolerance-IsLimit s positive (guard-eq-ok _ _ small) in
    subst (λ x. IsSound time run_timeout clock_set x × (x.op ≡ s.op)) (ok-injective h3)
      ((target, refl, time.parse-format target inside s.at parsed, inside, tolerance), refl)

operation_rules-IsAlmost :
    (time : TimeText) (run_timeout : ℤ) (o : Op) (s t : Step)
    → numbers_positive s ≡ true
    → operation_rules time run_timeout o s ≡ ok t
    → IsAlmost time run_timeout o t × (t.op ≡ s.op)
unfolding operation_rules
operation_rules-IsAlmost time run_timeout clock_read s t positive h = ground arith
operation_rules-IsAlmost time run_timeout clock_set s t positive h =
    set_rules-IsSound time run_timeout s t (time.parse s.at) positive refl h
operation_rules-IsAlmost time run_timeout action_exec s t positive h =
    ground (arith, valid_exit_code-IsExitCode s.expected_exit_code)
operation_rules-IsAlmost time run_timeout service_start s t positive h = ground arith
operation_rules-IsAlmost time run_timeout service_stop s t positive h = ground arith
operation_rules-IsAlmost time run_timeout wait s t positive h = ground arith
operation_rules-IsAlmost time run_timeout (other_op text) s t positive h = ground arith

-- A time limit that fits, on the rest of the step.
abbrev IsTimed : ℤ → Step → Step → Type 0
IsTimed run_timeout s t =
    IsLimit run_timeout t.timeout_ms × (t ≡ record s { timeout_ms = t.timeout_ms })

timeout_rules-IsTimed :
    (run_timeout : ℤ) (s t : Step)
    → has_timeout s.op ≡ true
    → timeout_rules run_timeout s ≡ ok t
    → IsTimed run_timeout s t
unfolding timeout_rules
timeout_rules-IsTimed run_timeout s t timed h =
    let l = default_to (min_ℤ (pos 5000) run_timeout) s.timeout_ms in
    let long =
      subst
        (λ b.
          (if b
            then (guard (leb_ℤ (pos 1) l && leb_ℤ l run_timeout) timeout_does_not_fit
                >> ok (record s { timeout_ms = l }))
            else ok s)
          ≡ ok t)
        timed h in
    let (fits, e) =
      >>-eq-ok (guard (leb_ℤ (pos 1) l && leb_ℤ l run_timeout) timeout_does_not_fit) _ long in
    let fits = guard-eq-ok _ _ fits in
    subst (IsTimed run_timeout s) (ok-injective e) (ground (arith, fits), refl)

timeout_rules-untimed :
    (run_timeout : ℤ) (s t : Step)
    → has_timeout s.op ≡ false
    → timeout_rules run_timeout s ≡ ok t
    → t ≡ s
unfolding timeout_rules
timeout_rules-untimed run_timeout s t timed h = ground arith

finish-IsSound :
    (time : TimeText) (run_timeout : ℤ) (o : Op) (s t : Step)
    → IsAlmost time run_timeout o s
    → fields_of o ≢ none
    → s.op ≡ o
    → timeout_rules run_timeout s ≡ ok t
    → IsSound time run_timeout o t
unfolding has_timeout fields_of
finish-IsSound time run_timeout clock_read s t a known e h = tt
finish-IsSound time run_timeout clock_set s t a known e h =
    subst (IsSound time run_timeout clock_set)
      (sym (timeout_rules-untimed run_timeout s t (ap has_timeout e) h)) a
finish-IsSound time run_timeout action_exec s t a known e h =
    let (l, same) = timeout_rules-IsTimed run_timeout s t (ap has_timeout e) h in
    subst
      (λ x.
        (is_workload_identifier x.action ≡ true)
        × IsExitCode x.expected_exit_code
        × IsLimit run_timeout x.timeout_ms)
      (sym same) (a.0, a.1, l)
finish-IsSound time run_timeout service_start s t a known e h =
    let (l, same) = timeout_rules-IsTimed run_timeout s t (ap has_timeout e) h in
    subst (λ x. (is_workload_identifier x.service ≡ true) × IsLimit run_timeout x.timeout_ms)
      (sym same) (a, l)
finish-IsSound time run_timeout service_stop s t a known e h =
    let (l, same) = timeout_rules-IsTimed run_timeout s t (ap has_timeout e) h in
    subst (λ x. (is_workload_identifier x.service ≡ true) × IsLimit run_timeout x.timeout_ms)
      (sym same) (a, l)
finish-IsSound time run_timeout wait s t a known e h =
    subst (IsSound time run_timeout wait)
      (sym (timeout_rules-untimed run_timeout s t (ap has_timeout e) h)) a
finish-IsSound time run_timeout (other_op text) s t a known e h = absurd (known refl)

timeout_rules-op : (run_timeout : ℤ) (s t : Step) → timeout_rules run_timeout s ≡ ok t → t.op ≡ s.op
unfolding timeout_rules
timeout_rules-op run_timeout s t h = ground arith

checked-IsSound :
    (time : TimeText) (run_timeout : ℤ) (s t : Step) (allowed : List String)
    → fields_of s.op ≢ none
    → checked time run_timeout s allowed ≡ ok t
    → IsSound time run_timeout t.op t
unfolding checked
checked-IsSound time run_timeout s t allowed known h =
    let (_, h1) = >>-eq-ok (guard (keys_allowed allowed s) _) _ h in
    let (positive, h2) = >>-eq-ok (guard (numbers_positive s) _) _ h1 in
    let (_, h3) = >>-eq-ok (check_input s.input) _ h2 in
    let (m, done, last) = >>=-eq-ok (operation_rules time run_timeout s.op s) _ h3 in
    let (almost, same) =
      operation_rules-IsAlmost time run_timeout s.op s m (guard-eq-ok _ _ positive) done in
    subst (λ o. IsSound time run_timeout o t) (sym (timeout_rules-op run_timeout m t last ∙ same))
      (finish-IsSound time run_timeout s.op m t almost known same last)

allowed-IsSound :
    (time : TimeText) (run_timeout : ℤ) (s t : Step) (fields : Option (List String))
    → fields_of s.op ≡ fields
    → (elim fields [
      | none ↦ err unsupported_operation
      | some allowed ↦ checked time run_timeout s allowed
    ])
      ≡ ok t
    → IsSound time run_timeout t.op t
allowed-IsSound time run_timeout s t none e h = cc
allowed-IsSound time run_timeout s t (some allowed) e h =
    checked-IsSound time run_timeout s t allowed (λ n. cc) h

-- An accepted step has what its operation needs: a time limit of 1 ms to the one of the run, names of
-- the workload's grammar, an exit code of 0 to 255, a wait shorter than the run; the time of a
-- clock.set is the printed form of an instant of the supported interval, with a tolerance of at most 10 s.
pub validate_step-IsSound :
    (time : TimeText) (run_timeout : ℤ) (s t : Step)
    → validate_step time run_timeout s ≡ ok t
    → IsSound time run_timeout t.op t
unfolding validate_step
validate_step-IsSound time run_timeout s t h =
    allowed-IsSound time run_timeout s t (fields_of s.op) refl h

set_rules-id :
    (time : TimeText) (s t : Step) (at : Option ℤ) → set_rules time s at ≡ ok t → t.id ≡ s.id
unfolding set_rules set_instant
set_rules-id time s t none h = ground arith
set_rules-id time s t (some target) h = ground arith

operation_rules-id :
    (time : TimeText) (run_timeout : ℤ) (o : Op) (s t : Step)
    → operation_rules time run_timeout o s ≡ ok t
    → t.id ≡ s.id
unfolding operation_rules
operation_rules-id time run_timeout clock_read s t h = ground arith
operation_rules-id time run_timeout clock_set s t h = set_rules-id time s t (time.parse s.at) h
operation_rules-id time run_timeout action_exec s t h = ground arith
operation_rules-id time run_timeout service_start s t h = ground arith
operation_rules-id time run_timeout service_stop s t h = ground arith
operation_rules-id time run_timeout wait s t h = ground arith
operation_rules-id time run_timeout (other_op text) s t h = ground arith

timeout_rules-id : (run_timeout : ℤ) (s t : Step) → timeout_rules run_timeout s ≡ ok t → t.id ≡ s.id
unfolding timeout_rules
timeout_rules-id run_timeout s t h = ground arith

checked-id :
    (time : TimeText) (run_timeout : ℤ) (s t : Step) (allowed : List String)
    → checked time run_timeout s allowed ≡ ok t
    → t.id ≡ s.id
unfolding checked
checked-id time run_timeout s t allowed h =
    let (_, h1) = >>-eq-ok (guard (keys_allowed allowed s) _) _ h in
    let (_, h2) = >>-eq-ok (guard (numbers_positive s) _) _ h1 in
    let (_, h3) = >>-eq-ok (check_input s.input) _ h2 in
    let (m, done, last) = >>=-eq-ok (operation_rules time run_timeout s.op s) _ h3 in
    timeout_rules-id run_timeout m t last ∙ operation_rules-id time run_timeout s.op s m done

pub validate_step-id :
    (time : TimeText) (run_timeout : ℤ) (s t : Step)
    → validate_step time run_timeout s ≡ ok t
    → t.id ≡ s.id
unfolding validate_step
validate_step-id time run_timeout s t h = ground (arith, checked-id time run_timeout s t)
