-- ===== src/Engine/Recovery/Apply/Reports.antt =====
-- The report that Recover of internal/engine/recover.go writes.
use epoch.Base.{String, true, false, ◌≡◌, refl, ap, subst, Result, arith}
use epoch.Engine.Outcome.{complete, finished, interrupted, not_evaluated, Report, exit_code}
use epoch.Engine.Outcome.Laws.{exit_code-eq-zero}
use epoch.Engine.Runtime.{Manifest}
use epoch.Engine.Recovery.{FileRead}
use epoch.Engine.Recovery.Safety.{HasOnlyPasses, IsSaved, IsSubstitute}
use epoch.Engine.Recovery.Apply.{recovered_report}

-- A finished report with a complete cleanup, whose exit code is 0 only where it has assertion results,
-- all of them PASS.
abbrev pub IsRecovered : String → Report → Type 0
IsRecovered id r =
    (r.run_id ≡ id)
    × (r.cleanup ≡ complete)
    × (r.stage ≡ finished)
    × (exit_code r ≡ 0 → HasOnlyPasses r)

pub saved-IsRecovered :
    (id : String) (file : FileRead Report) (r : Report)
    → IsSaved id file r
    → IsRecovered id (recovered_report r)
unfolding recovered_report
saved-IsRecovered id file r (q, held, is, version, same, done, known, passes) =
    let saved : r.report_saved ≡ true = ap (λ x. x.report_saved) is in
    let clean : Report = record r { cleanup = complete; stage = finished; report_saved = false } in
    subst (IsRecovered id) {x = clean} (ground (arith, saved)) (
      same,
      refl,
      refl,
      λ zero. let (whole, over, good) = (exit_code-eq-zero clean).0 zero in passes over good,
    )

pub substitute-IsRecovered :
    (id : String) (file : FileRead Report) (loaded : Result String Manifest) (r : Report)
    → IsSubstitute id file loaded r
    → IsRecovered id (recovered_report r)
unfolding recovered_report
substitute-IsRecovered id file loaded r
      (m, gone, found, same, unsaved, cleanup, stage, steps, code) =
    let clean : Report = record r {
      execution = interrupted;
      assertion = not_evaluated;
      cleanup = complete;
      stage = finished;
      report_saved = false;
    } in
    subst (IsRecovered id) {x = clean} (ground (arith, unsaved)) (
      same,
      refl,
      refl,
      λ zero.
          let (whole, over, good) = (exit_code-eq-zero clean).0 zero in
          absurd (ground (arith, over)),
    )
