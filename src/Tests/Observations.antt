-- ===== src/Tests/Observations.antt =====
-- The theorems on assertions and pointers, for the observation of one action.
use epoch.Base.{byte_length, String, some, List, [], ◌∷◌, ◌≡◌, ok, arith}
use epoch.Json.{num, str, obj, field, end, Raw}
use epoch.Scenario.{gt, lte, Assertion}
use epoch.Scenario.Pointer.{pointer_tokens}
use epoch.Scenario.Pointer.RoundTrip.{print_pointer, pointer_tokens-print}
use epoch.Scenario.Assertions.{evaluate}
use epoch.Scenario.Assertions.Verdicts.{AreJudged, evaluate-AreJudged}

abbrev ten : Raw
ten = record { size = 2; decoded = some (num "10") }

abbrev action_result : Raw
action_result = record {
  size = 40;
  decoded = some (obj (field "exit_code" (num "0") (field "stderr" (str "") end)));
}

abbrev observations : List (String × Raw)
observations = ("act", action_result) ∷ []

abbrev assertions : List Assertion
assertions =
    record { id = "low"; step = "act"; pointer = "/exit_code"; op = lte; value = some ten }
    ∷ record { id = "high"; step = "act"; pointer = "/exit_code"; op = gt; value = some ten }
    ∷ record { id = "lost"; step = "none"; pointer = ""; op = gt; value = some ten }
    ∷ []

evaluate-AreJudged_example :
    AreJudged observations assertions
      (evaluate observations assertions).0
      (evaluate observations assertions).1
evaluate-AreJudged_example = evaluate-AreJudged observations assertions

pointer_tokens-print_example :
    pointer_tokens (print_pointer ("a/b" ∷ "m~n" ∷ "" ∷ [])) ≡ ok ("a/b" ∷ "m~n" ∷ "" ∷ [])
unfolding byte_length
pointer_tokens-print_example = pointer_tokens-print ("a/b" ∷ "m~n" ∷ "" ∷ []) (omega arith)
