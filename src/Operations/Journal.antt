-- ===== src/Operations/Journal.antt =====
-- personal_mcp/operations.py: the table of `OperationJournal`, its start, `_prune`, `status`,
-- `_unknown`, `_complete` and `_finished`.
use unified_personal_mcp.Prelude.{
  ℕ, ◌+◌, ◌/◌, min, not, ◌||◌, String, Bool, true, false, ◌&&◌, Option, none, some, List, [], ◌∷◌,
  ◌==◌, ltb, len, is_some, if◌then◌else◌,
}
use mathlib.Core.Option
use unified_personal_mcp.Table.{select_one, select, update}
use unified_personal_mcp.Operations.Json.{
  Json, object, member, end, boolean, text, number, array, cons, nil, get, field, is_object,
  is_true, is_false, is_text,
}

pub data Phase : Type 0 where
  dispatched running unknown completed failed : Phase

-- A row of `operations`; `result` is the encoded result. Times are whole units of one clock.
pub record Operation : Type 0 where
  pub owner : String
  pub request_id : String
  pub digest : String
  pub state : Phase
  pub result : Option String
  pub name : String
  pub updated : ℕ

-- The limits that `__init__` takes.
pub record Limits : Type 0 where
  pub max_result_bytes : ℕ
  pub retention_seconds : ℕ
  pub max_records : ℕ
  pub max_retained_bytes : ℕ

-- The standard library's part: `json.dumps` (`none`: it raised), `json.loads` (the same), the hash,
-- the encoding of a request's name and arguments, a number's text and the preview of a long text.
pub record Codec : Type 0 where
  pub dumps : Json → Option String
  pub loads : String → Option Json
  pub sha256 : String → String
  pub encode_request : String → Json → Option String
  pub decimal : ℕ → String
  pub preview : ℕ → String → String

-- `owner=? AND request_id=?`
abbrev pub at : String → String → Operation → Bool
at owner request_id op = op.owner == owner && op.request_id == request_id

-- `state IN ('dispatched','running')`
abbrev pub in_flight : Phase → Bool
in_flight dispatched = true
in_flight running = true
in_flight _ = false

-- `state IN ('dispatched','running','unknown')`
abbrev pub unsettled : Phase → Bool
unsettled completed = false
unsettled failed = false
unsettled _ = true

abbrev pub forget_result : Operation → Operation
forget_result op = record op { result = none }

-- `length(CAST(result AS BLOB))`
abbrev pub size : Option String → ℕ
size none = 0
size (some encoded) = len encoded

-- `ORDER BY updated DESC`; rows of one time keep their order.
unfoldable pub insert_by_updated : Operation → List Operation → List Operation
insert_by_updated op [] = op ∷ []
insert_by_updated op (q ∷ ops) =
    let rest = insert_by_updated op ops in
    if ltb op.updated q.updated then q ∷ rest else op ∷ q ∷ ops

unfoldable pub by_updated : List Operation → List Operation
unfolding insert_by_updated
by_updated [] = []
by_updated (op ∷ ops) = insert_by_updated op (by_updated ops)

-- The rows from which on the running total of the sizes is over the limit.
unfoldable pub over_budget : ℕ → ℕ → List Operation → List Operation
over_budget limit retained [] = []
over_budget limit retained (op ∷ ops) =
    let total = retained + size op.result in
    let rest = over_budget limit total ops in if ltb limit total then op ∷ rest else rest

-- `UPDATE operations SET result=NULL WHERE owner=? AND request_id=?`, for each row listed.
unfoldable pub forget_all : List Operation → List Operation → List Operation
forget_all [] ops = ops
forget_all (f ∷ fs) ops = forget_all fs (update (at f.owner f.request_id) forget_result ops)

-- `result IS NOT NULL AND updated < clock - retention`
abbrev pub is_stale : ℕ → ℕ → Operation → Bool
is_stale retention now op = is_some op.result && ltb (op.updated + retention) now

unfoldable pub prune : Limits → ℕ → List Operation → List Operation
unfolding by_updated over_budget forget_all
prune l now ops =
    let aged = update (is_stale l.retention_seconds now) forget_result ops in
    forget_all
      (over_budget l.max_retained_bytes 0 (by_updated (select (λ op. is_some op.result) aged))) aged

-- A new process: what was in flight has an unknown outcome.
unfoldable pub reopen : List Operation → List Operation
reopen = update (λ op. in_flight op.state) (λ op. record op { state = unknown })

-- `_unknown`
unfoldable pub mark_unknown : ℕ → String → String → List Operation → List Operation
mark_unknown now owner request_id =
    update (λ op. at owner request_id op && in_flight op.state)
      (λ op. record op { state = unknown; updated = now })

-- `isinstance(result, dict) and (result.get('isError') is True or result.get('ok') is False)`
unfoldable pub is_failure : Json → Bool
is_failure result =
    is_object result && (is_true (field "isError" result) || is_false (field "ok" result))

-- `result.get('structuredContent', result)`, or an empty dict for what is no dict.
abbrev pub payload : Json → Json
payload (object ms) = elim (get "structuredContent" ms) [ none ↦ object ms | some v ↦ v ]
payload _ = object end

-- The error of the payload says that the outcome is unknown.
unfoldable pub is_uncertain : Json → Bool
is_uncertain result = elim (field "error" (payload result)) [
  | none ↦ false
  | some error ↦ is_text "unknown" (field "outcome" error)
]

abbrev pub final_phase : Json → Phase
final_phase result =
    if is_uncertain result then unknown else if is_failure result then failed else completed

-- What stands for a result that is too long.
unfoldable pub truncated : Limits → Codec → Json → String → Json
unfolding is_failure
truncated l c result encoded = object (
    member "isError" (boolean true) (
      member "content"
        (array (
          cons (object (member "type" (text "text") (member "text" (text "RESULT_TRUNCATED") end)))
            nil))
        (member "structuredContent"
          (object (
            member "ok" (boolean false) (
              member "code" (text "RESULT_TRUNCATED") (
                member "execution_state"
                  (text (if is_failure result then "failed" else "completed"))
                  (member "result_truncated" (boolean true) (
                    member "serialized_bytes" (number (c.decimal (len encoded))) (
                      member "sha256" (text (c.sha256 encoded)) (
                        member "preview"
                          (text (c.preview (min 1024 (l.max_result_bytes / 12)) encoded))
                          end))))))))
          end)))

-- The `UPDATE` and the pruning of `_complete`.
unfoldable pub settle :
    Limits → ℕ → String → String → Phase → String → List Operation → List Operation
unfolding prune
settle l now owner request_id phase encoded ops = prune l now (
    update (λ op. at owner request_id op && unsettled op.state)
      (λ op. record op { state = phase; result = some encoded; updated = now }) ops)

-- The result that `_complete` keeps and returns, with its encoding; `none` if it cannot be encoded.
unfoldable pub stored_form : Limits → Codec → Json → Option (Json × String)
unfolding truncated
stored_form l c result = elim (c.dumps result) [
  | none ↦ none
  | some encoded ↦
      if ltb l.max_result_bytes (len encoded)
      then Option.map (λ short. (truncated l c result encoded, short))
          (c.dumps (truncated l c result encoded))
      else some (result, encoded)
]

-- `_complete`: the result and the table, or `none` if it raised.
unfoldable pub complete :
    Limits → Codec → ℕ → String → String → Json → List Operation → Option (Json × List Operation)
unfolding settle stored_form is_uncertain is_failure
complete l c now owner request_id result ops =
    Option.map (λ kept. (kept.0, settle l now owner request_id (final_phase result) kept.1 ops))
      (stored_form l c result)

-- `_finished`, the callback of a future: `none` if it raised or was cancelled.
unfoldable pub finished :
    Limits → Codec → ℕ → String → String → Option Json → List Operation → List Operation
unfolding complete mark_unknown
finished l c now owner request_id none ops = mark_unknown now owner request_id ops
finished l c now owner request_id (some result) ops =
    elim (complete l c now owner request_id result ops) [
      | none ↦ mark_unknown now owner request_id ops
      | some (kept, after) ↦ after
    ]

-- What `status` shows; `result` is none if there is none to show.
pub record Status : Type 0 where
  pub operation : String
  pub state : Phase
  pub updated : ℕ
  pub result : Option String
  pub has_ref : Bool
  pub result_expired : Bool

-- `status`: the row after a pruning, `none` for OPERATION_NOT_FOUND. The pruning is committed.
unfoldable pub status :
    Limits → ℕ → String → String → List Operation → Option Status × List Operation
unfolding prune
status l now owner request_id ops =
    let after = prune l now ops in
    (
      Option.map
          (λ op. record {
            operation = op.name;
            state = op.state;
            updated = op.updated;
            result = op.result;
            has_ref = not (unsettled op.state);
            result_expired = not (unsettled op.state) && not (is_some op.result);
          })
          (select_one (at owner request_id) after),
      after,
    )
