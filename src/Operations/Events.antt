-- ===== src/Operations/Events.antt =====
-- personal_mcp/operations.py: the journal over a sequence of events. The calls of `run` interleave: each
-- is its transaction, and later, if it calls its callback, what it writes when that returns.
use unified_personal_mcp.Prelude.{
  ℕ, ◌+◌, String, Bool, true, false, ◌&&◌, ◌||◌, Option, List, [], ◌∷◌, ◌==◌, contains, is_some,
  not, if◌then◌else◌,
}
use unified_personal_mcp.Operations.Json.{Json}
use unified_personal_mcp.Operations.Journal.{Operation, Limits, Codec, reopen, finished, status}
use unified_personal_mcp.Operations.Run.{Request, Setting, Execution, reserve, dispatch}

-- The transaction of a `run`, the end of the callback that it called, the end of a future, a `status`,
-- and a new process.
pub data Event : Type 0 where
  requests : Setting → Request → Event
  returns : ℕ → Request → Execution → Event
  future_done : ℕ → String → String → Option Json → Event
  asks : ℕ → String → String → Event
  reopens : Event

unfoldable pub step : Limits → Codec → Event → List Operation → List Operation
unfolding reserve dispatch finished status reopen
step l c (requests s q) ops = (reserve l c s q ops).table
step l c (returns now q execution) ops = (dispatch l c now q execution ops).1
step l c (future_done now owner request_id value) ops = finished l c now owner request_id value ops
step l c (asks now owner request_id) ops = (status l now owner request_id ops).1
step l c reopens ops = reopen ops

unfoldable pub steps : Limits → Codec → List Event → List Operation → List Operation
unfolding step
steps l c [] ops = ops
steps l c (e ∷ es) ops = steps l c es (step l c e ops)

-- The event calls the callback of the request with this key.
unfoldable pub executes : Limits → Codec → String → String → Event → List Operation → Bool
unfolding reserve
executes l c owner request_id (requests s q) ops =
    q.owner == owner && q.request_id == request_id && not (is_some (reserve l c s q ops).answer)
executes l c owner request_id _ ops = false

-- How often the callback of the request with this key is called.
unfoldable pub executions : Limits → Codec → String → String → List Event → List Operation → ℕ
unfolding executes step
executions l c owner request_id [] ops = 0
executions l c owner request_id (e ∷ es) ops =
    (if executes l c owner request_id e ops then 1 else 0)
    + executions l c owner request_id es (step l c e ops)

-- The owner is in no list of closed workflows that another owner's request takes.
abbrev pub spares : String → Event → Bool
spares owner (requests s q) = q.owner == owner || not (contains owner s.closed_owners)
spares owner _ = true
