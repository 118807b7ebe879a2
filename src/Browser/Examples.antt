-- ===== src/Browser/Examples.antt =====
-- Runs of the store of browser operations, and its theorems at them.
use unified_personal_mcp.Prelude.{◌≤◌, true, some, List, [], ◌∷◌, ◌≡◌, refl, All}
use unified_personal_mcp.Operations.Json.{text, object, end}
use unified_personal_mcp.Browser.Store.{Row, Codec, completed}
use unified_personal_mcp.Browser.Events.{
  Event, reserves, dispatches, recovers, steps, spares, dispatch_count,
}
use unified_personal_mcp.Browser.Keeping.{Has}
use unified_personal_mcp.Browser.Once.{Ended, dispatches_at_most_once, final_results_stay}

abbrev codec : Codec
codec = record {
  is_id = λ t. true;
  fingerprint_of = λ operation arguments. some operation;
  dumps = λ v. some "{}";
  loads = λ t. some (object end);
}

-- A click is reserved, dispatched and lost in a restart; it is asked for and dispatched again.
abbrev lost_click : List Event
lost_click =
    reserves 1 "task" "a" "click" (text "x")
    ∷ dispatches 2 "task" "a"
    ∷ recovers 3
    ∷ reserves 4 "task" "a" "click" (text "x")
    ∷ dispatches 5 "task" "a"
    ∷ []

sent_once : dispatch_count codec "task" "a" lost_click [] ≡ 1
unfolding dispatch_count
sent_once = refl

lost_click-spares : All (λ e. spares "task" e ≡ true) lost_click
lost_click-spares = (refl, (refl, (refl, (refl, (refl, tt)))))

dispatches_at_most_once_example : dispatch_count codec "task" "a" lost_click [] ≤ 1
dispatches_at_most_once_example =
    dispatches_at_most_once codec "task" "a" lost_click [] lost_click-spares

abbrev done : Row
done = record {
  owner = "task";
  request_id = "a";
  fingerprint = "click";
  state = completed;
  result = some "{}";
  updated = 1;
}

done_is_there : Has "task" "a" (Ended completed (some "{}")) (done ∷ [])
done_is_there = record { there = (done, refl); each = ((λ _. (refl, refl)), tt) }

final_results_stay_example :
    Has "task" "a" (Ended completed (some "{}")) (steps codec lost_click (done ∷ []))
final_results_stay_example =
    final_results_stay codec "task" "a" completed (some "{}") lost_click (done ∷ []) refl
      lost_click-spares done_is_there
