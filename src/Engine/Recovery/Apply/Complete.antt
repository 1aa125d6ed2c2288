-- ===== src/Engine/Recovery/Apply/Complete.antt =====
-- What Recover of internal/engine/recover.go leaves behind when it applies its cleanup.
use epoch.Base.{String, true, none, some, ◌≡◌}
use epoch.Engine.Outcome.{Report}
use epoch.Engine.Recovery.Apply.{Recovery, Answer}
use epoch.Engine.Recovery.Apply.Reports.{IsRecovered}

-- A recovery that tells of no failure and that may clean has a saved report like that.
record IsComplete {W : Type 0} (id : String) (a : Answer × W) : Type 0 where
  saves :
      (out : Recovery)
      → a.0.recovery ≡ some out
      → a.0.failure ≡ none
      → out.can_clean ≡ true
      → (r : Report) × (out.report ≡ some r) × (r.report_saved ≡ true) × IsRecovered id r
