-- ===== src/Operations/Run.antt =====
-- personal_mcp/operations.py: `run`, the reservation of a request, its dispatch and its completion.
use unified_personal_mcp.Prelude.{
  ℕ, String, Bool, true, false, not, ◌&&◌, ◌||◌, Option, none, some, List, [], ◌∷◌, ◌++◌, ◌==◌, leb,
  ltb, count, length, contains, if◌then◌else◌,
}
use unified_personal_mcp.Table.{select_one, delete}
use unified_personal_mcp.Operations.Json.{Json}
use unified_personal_mcp.Operations.Journal.{
  running, Operation, Limits, Codec, at, in_flight, unsettled, prune, mark_unknown, complete,
  finished,
}

pub record Request : Type 0 where
  pub owner : String
  pub request_id : String
  pub name : String
  pub arguments : Json

-- What the callback did: it returned a value or raised, or it gave a future, which returned or raised
-- before the timeout, or did not.
pub data Execution : Type 0 where
  returned : Json → Execution
  raised : Execution
  future_returned : Json → Execution
  future_raised : Execution
  future_pending : Execution

pub data Failure : Type 0 where
  request_id_required not_encodable request_conflict operation_running : Failure
  outcome_unknown result_expired result_unreadable operation_capacity : Failure
  refused_before_dispatch execution_failed operation_pending : Failure

pub data Reply : Type 0 where
  result : Json → Reply
  error : Failure → Reply

-- What the transaction of `run` decides: an answer, or, with none, that the callback is called; and
-- the table that it commits.
pub record Reservation : Type 0 where
  pub answer : Option Reply
  pub table : List Operation

-- A reply, the table, and whether the callback was called.
pub record Outcome : Type 0 where
  pub reply : Reply
  pub table : List Operation
  pub executed : Bool

-- What the transaction takes from outside: the clock, the workflows that are named as closed, and
-- whether `before_dispatch` lets the call go on.
pub record Setting : Type 0 where
  pub now : ℕ
  pub closed_owners : List String
  pub may_dispatch : Bool

abbrev pub refuse : Failure → List Operation → Reservation
refuse f ops = record { answer = some (error f); table = ops }

-- The answer to a request that is recorded, over the table after the pruning; an exception rolls the
-- pruning back.
unfoldable pub replay : Codec → String → Operation → List Operation → List Operation → Reservation
replay c digest op ops pruned =
    if not (op.digest == digest)
    then refuse request_conflict ops
    else if in_flight op.state
    then refuse operation_running ops
    else if unsettled op.state
    then refuse outcome_unknown ops
    else elim op.result [
      | none ↦ refuse result_expired ops
      | some encoded ↦ elim (c.loads encoded) [
        | none ↦ refuse result_unreadable ops
        | some value ↦ record { answer = some (result value); table = pruned }
      ]
    ]

-- `_complete` in `run`: a result that cannot be encoded leaves the outcome unknown.
unfoldable pub conclude :
    Limits → Codec → ℕ → Request → Json → List Operation → Reply × List Operation
unfolding complete mark_unknown
conclude l c now q value ops = elim (complete l c now q.owner q.request_id value ops) [
  | none ↦ (error execution_failed, mark_unknown now q.owner q.request_id ops)
  | some (kept, after) ↦ (result kept, after)
]

-- The `try`, after the row is committed as running. A future's callback runs `_finished` first.
unfoldable pub dispatch :
    Limits → Codec → ℕ → Request → Execution → List Operation → Reply × List Operation
unfolding conclude finished mark_unknown
dispatch l c now q (returned value) ops = conclude l c now q value ops
dispatch l c now q raised ops = (error execution_failed, mark_unknown now q.owner q.request_id ops)
dispatch l c now q (future_returned value) ops =
    conclude l c now q value (finished l c now q.owner q.request_id (some value) ops)
dispatch l c now q future_raised ops = (
  error execution_failed,
  mark_unknown now q.owner q.request_id (finished l c now q.owner q.request_id none ops),
)
dispatch l c now q future_pending ops = (error operation_pending, ops)

-- `DELETE FROM operations WHERE owner=?`, for each closed owner but the caller.
unfoldable pub reclaim : String → List String → List Operation → List Operation
reclaim owner closed = delete (λ op. contains op.owner closed && not (op.owner == owner))

-- The table with room for one more row, or `none`.
unfoldable pub make_room : Limits → String → List String → List Operation → Option (List Operation)
unfolding reclaim
make_room l owner closed ops =
    if leb l.max_records (length ops)
    then (let reclaimed = reclaim owner closed ops in
        if leb l.max_records (length reclaimed) then none else some reclaimed)
    else some ops

unfoldable pub new_operation : ℕ → Request → String → Operation
new_operation now q digest = record {
  owner = q.owner;
  request_id = q.request_id;
  digest = digest;
  state = running;
  result = none;
  name = q.name;
  updated = now;
}

-- A request that is not recorded: room, the last check and the row.
unfoldable pub reserve_new :
    Limits → Setting → Request → String → List Operation → List Operation → Reservation
unfolding make_room new_operation
reserve_new l s q digest ops pruned = elim (make_room l q.owner s.closed_owners pruned) [
  | none ↦ refuse operation_capacity ops
  | some roomy ↦
      if not s.may_dispatch
      then refuse refused_before_dispatch ops
      else record { answer = none; table = roomy ++ new_operation s.now q digest ∷ [] }
]

-- The transaction, for a request whose digest is known.
unfoldable pub reserve_digest :
    Limits → Codec → Setting → Request → String → List Operation → Reservation
unfolding reserve_new replay prune
reserve_digest l c s q digest ops =
    elim (select_one (at q.owner q.request_id) (prune l s.now ops)) [
      | some op ↦ replay c digest op ops (prune l s.now ops)
      | none ↦ reserve_new l s q digest ops (prune l s.now ops)
    ]

-- `run` up to the end of its transaction. A callback that is called runs after it, outside of it.
unfoldable pub reserve : Limits → Codec → Setting → Request → List Operation → Reservation
unfolding reserve_digest
reserve l c s q ops =
    if leb (count q.request_id) 0 || ltb 128 (count q.request_id)
    then refuse request_id_required ops
    else elim (c.encode_request q.name q.arguments) [
      | none ↦ refuse not_encodable ops
      | some encoded ↦ reserve_digest l c s q (c.sha256 encoded) ops
    ]

abbrev pub outcome : Reply × List Operation → Outcome
outcome (reply, table) = record { reply = reply; table = table; executed = true }

-- `run`, with no other call between its transaction and the end of its callback, which is at `later`.
unfoldable pub run : Limits → Codec → Setting → ℕ → Execution → Request → List Operation → Outcome
unfolding reserve dispatch
run l c s later execution q ops = elim (reserve l c s q ops).answer [
  | some reply ↦ record { reply = reply; table = (reserve l c s q ops).table; executed = false }
  | none ↦ outcome (dispatch l c later q execution (reserve l c s q ops).table)
]
