-- ===== src/Browser/Events.antt =====
-- bf_automation/browser/operation_store.py: the calls of a store, as a sequence of events.
use unified_personal_mcp.Prelude.{
  ℕ, ◌+◌, String, Bool, true, false, not, ◌&&◌, Option, List, [], ◌∷◌, ◌==◌, if◌then◌else◌,
}
use unified_personal_mcp.Operations.Json.{Json}
use unified_personal_mcp.Browser.Store.{
  State, Row, Codec, reserve, dispatch, finish, delete_owner, recover,
}

-- The calls that write, with the time and their arguments.
pub data Event : Type 0 where
  reserves : ℕ → String → String → String → Json → Event
  dispatches : ℕ → String → String → Event
  finishes : ℕ → String → String → State → Option Json → Event
  deletes : String → Event
  recovers : ℕ → Event

unfoldable pub step : Codec → Event → List Row → List Row
unfolding reserve dispatch finish delete_owner recover
step c (reserves now o i operation arguments) rows = (reserve c now o i operation arguments rows).1
step c (dispatches now o i) rows = (dispatch now o i rows).1
step c (finishes now o i state result) rows = (finish c now o i state result rows).1
step c (deletes o) rows = (delete_owner o rows).1
step c (recovers now) rows = recover now rows

unfoldable pub steps : Codec → List Event → List Row → List Row
unfolding step
steps c [] rows = rows
steps c (e ∷ es) rows = steps c es (step c e rows)

-- The event is a `dispatch` of this key that returns.
unfoldable pub dispatches_it : String → String → Event → List Row → Bool
unfolding dispatch
dispatches_it owner request_id (dispatches now o i) rows =
    o == owner && i == request_id && (dispatch now o i rows).0
dispatches_it owner request_id _ rows = false

-- How often the operation with this key is dispatched.
unfoldable pub dispatch_count : Codec → String → String → List Event → List Row → ℕ
unfolding dispatches_it step
dispatch_count c owner request_id [] rows = 0
dispatch_count c owner request_id (e ∷ es) rows =
    (if dispatches_it owner request_id e rows then 1 else 0)
    + dispatch_count c owner request_id es (step c e rows)

-- The owner's operations are not deleted.
abbrev pub spares : String → Event → Bool
spares owner (deletes o) = not (o == owner)
spares owner _ = true
