-- ===== src/Scenario/Assertions/Verdicts.antt =====
-- What Evaluate of internal/scenario/assertions.go returns for a list of assertions.
use epoch.Base.{
  String, Bool, true, false, Option, none, some, List, [], ◌∷◌, ◌≡◌, ◌≢◌, refl, subst, Result, ok,
  err, >>=-eq-ok, ok-injective, lookup, arith, if◌then◌else◌,
}
use epoch.Json.{Json, Raw}
use epoch.Scenario.{Assertion, Refusal}
use epoch.Scenario.Pointer.{resolve_pointer}
use epoch.Scenario.Assertions.{
  AssertionResult, pass, fail, verdict, observed, result_of, evaluate_one, after_round, evaluate,
}
use epoch.Scenario.Assertions.Decisions.{IsDecision, verdict-IsDecision, IsDecision-verdict}

-- A result that judges an assertion: what the pointer resolves to in the observation of the step, and
-- a PASS or a FAIL as the comparison holds of it or not.
abbrev pub IsJudged : List (String × Raw) → Assertion → AssertionResult → Type 0
IsJudged observations a r =
    (raw : Raw) × (v : Json) × (b : Bool) × (r.id ≡ a.id)
    × (r.step ≡ a.step)
    × (lookup a.step observations ≡ some raw)
    × (raw.decoded ≡ some v)
    × (resolve_pointer v a.pointer ≡ ok r.actual)
    × IsDecision a.op a.value r.actual b
    × (r.status ≡ (if b then pass else fail))

-- The results of the first assertions, each judged; with an error, nothing judges the next one.
abbrev pub AreJudged :
    List (String × Raw) → List Assertion → List AssertionResult → Option Refusal → Type 0
AreJudged observations asked [] none = asked ≡ []
AreJudged observations [] [] (some e) = ⊥
AreJudged observations [] (r ∷ rs) e = ⊥
AreJudged observations (a ∷ asked) [] (some e) =
    (r : AssertionResult) → IsJudged observations a r → ⊥
AreJudged observations (a ∷ asked) (r ∷ rs) e =
    IsJudged observations a r × AreJudged observations asked rs e

observed-eq-ok :
    (o : Option Raw) (v : Json)
    → observed o ≡ ok v
    → (raw : Raw) × (o ≡ some raw) × (raw.decoded ≡ some v)
unfolding observed
observed-eq-ok none v h = cc
observed-eq-ok (some raw) v h = (raw, refl, ground arith)

result_of-IsJudged :
    (observations : List (String × Raw)) (a : Assertion) (raw : Raw) (v : Json)
    (actual : Option Json) (holds : Bool)
    → lookup a.step observations ≡ some raw
    → raw.decoded ≡ some v
    → resolve_pointer v a.pointer ≡ ok actual
    → IsDecision a.op a.value actual holds
    → IsJudged observations a (result_of a actual holds)
unfolding result_of
result_of-IsJudged observations a raw v actual true found decoded resolved judged =
    (raw, v, true, refl, refl, found, decoded, resolved, judged, refl)
result_of-IsJudged observations a raw v actual false found decoded resolved judged =
    (raw, v, false, refl, refl, found, decoded, resolved, judged, refl)

one-IsJudged :
    (observations : List (String × Raw)) (a : Assertion) (r : AssertionResult)
    → evaluate_one observations a ≡ ok r
    → IsJudged observations a r
unfolding evaluate_one
one-IsJudged observations a r h =
    let (v, seen, h1) = >>=-eq-ok (observed (lookup a.step observations)) _ h in
    let (actual, resolved, h2) = >>=-eq-ok (resolve_pointer v a.pointer) _ h1 in
    let (holds, judged, h3) = >>=-eq-ok (verdict a.op a.value actual) _ h2 in
    let (raw, found, decoded) = observed-eq-ok _ v seen in
    subst (IsJudged observations a) (ok-injective h3) (
      result_of-IsJudged observations a raw v actual holds found decoded resolved
        (verdict-IsDecision a.op a.value actual holds judged))

IsJudged-one :
    (observations : List (String × Raw)) (a : Assertion) (r : AssertionResult) (e : Refusal)
    → IsJudged observations a r
    → evaluate_one observations a ≢ err e
unfolding evaluate_one observed
IsJudged-one observations a r e (raw, v, b, id, step, found, decoded, resolved, decided, status) h =
    ground (arith, h, found, decoded, resolved, IsDecision-verdict a.op a.value r.actual b decided)

round-AreJudged :
    (observations : List (String × Raw)) (a : Assertion) (asked : List Assertion)
    (one : Result Refusal AssertionResult) (later : List AssertionResult × Option Refusal)
    → evaluate_one observations a ≡ one
    → AreJudged observations asked later.0 later.1
    → AreJudged observations (a ∷ asked) (after_round one later).0 (after_round one later).1
unfolding after_round
round-AreJudged observations a asked (ok r) later e h = (one-IsJudged observations a r e, h)
round-AreJudged observations a asked (err x) later e h =
    λ r judged. IsJudged-one observations a r x judged e

-- The results stand in the order of the assertions: each has the ID and the step of its assertion and
-- what the pointer resolves to in the observation of that step, and is a PASS where the comparison holds
-- of that and a FAIL where it does not: `exists` and `absent` of what is there, `eq` and `ne` by the
-- equality of JSON values, the four orders by the exact values of the two numbers. Without an error they
-- are all the assertions', and else those before the first one that nothing judges in this way.
pub evaluate-AreJudged :
    (observations : List (String × Raw)) (asked : List Assertion)
    → AreJudged observations asked (evaluate observations asked).0 (evaluate observations asked).1
unfolding evaluate
evaluate-AreJudged observations [] = refl
evaluate-AreJudged observations (a ∷ asked) =
    round-AreJudged observations a asked (evaluate_one observations a) (evaluate observations asked)
      refl (evaluate-AreJudged observations asked)
