-- ===== src/Browser/Store.antt =====
-- bf_automation/browser/operation_store.py: `OperationStore`.
use unified_personal_mcp.Prelude.{
  ℕ, String, Bool, true, false, not, ◌&&◌, Option, none, some, List, [], ◌∷◌, ◌++◌, map, ◌==◌,
  contains, length, if◌then◌else◌,
}
use unified_personal_mcp.Table.{select_one, select, update, delete}
use unified_personal_mcp.Operations.Json.{Json}

pub data State : Type 0 where
  queued dispatched completed failed unknown : State

-- A row of `operations`; `result` is the encoded result.
pub record Row : Type 0 where
  pub owner : String
  pub request_id : String
  pub fingerprint : String
  pub state : State
  pub result : Option String
  pub updated : ℕ

-- The standard library's part: the regular expression of an id, the hash of the encoded operation and
-- arguments, the encoding (both `none` if it raised) and the decoding.
pub record Codec : Type 0 where
  pub is_id : String → Bool
  pub fingerprint_of : String → Json → Option String
  pub dumps : Json → Option String
  pub loads : String → Option Json

pub data Failure : Type 0 where
  invalid_request_id not_encodable unreadable request_id_conflict : Failure
  operation_not_queued invalid_final_state operation_already_final : Failure

-- A result, or what was raised.
pub data Reply {ℓ} (A : Type ℓ) : Type ℓ where
  ok : A → Reply A
  err : Failure → Reply A

-- What `_row` shows.
pub record Shown : Type 0 where
  pub request_id : String
  pub state : State
  pub unverified : Bool
  pub result : Option Json

abbrev pub at : String → String → Row → Bool
at owner request_id r = r.owner == owner && r.request_id == request_id

abbrev pub is_queued : State → Bool
is_queued queued = true
is_queued _ = false

abbrev pub is_dispatched : State → Bool
is_dispatched dispatched = true
is_dispatched _ = false

abbrev pub is_unknown : State → Bool
is_unknown unknown = true
is_unknown _ = false

-- `_row`; `unverified` stands for the verification `unknown`, against `not_requested`.
unfoldable pub show_row : Codec → String → State → Option String → Reply Shown
show_row c request_id state none = ok (record {
  request_id = request_id;
  state = state;
  unverified = is_unknown state;
  result = none;
})
show_row c request_id state (some encoded) = elim (c.loads encoded) [
  | none ↦ err unreadable
  | some value ↦ ok (record {
    request_id = request_id;
    state = state;
    unverified = is_unknown state;
    result = some value;
  })
]

-- The answer to a reservation that is not new, with `False`.
unfoldable pub reserve_old : Codec → String → Row → Reply (Shown × Bool)
unfolding show_row
reserve_old c fingerprint r =
    if not (r.fingerprint == fingerprint)
    then err request_id_conflict
    else elim (show_row c r.request_id r.state r.result) [
      | err f ↦ err f
      | ok shown ↦ ok (shown, false)
    ]

abbrev pub new_row : ℕ → String → String → String → Row
new_row now owner request_id fingerprint = record {
  owner = owner;
  request_id = request_id;
  fingerprint = fingerprint;
  state = queued;
  result = none;
  updated = now;
}

-- The transaction of `reserve`.
unfoldable pub reserve_row :
    Codec → ℕ → String → String → String → List Row → Reply (Shown × Bool) × List Row
unfolding reserve_old
reserve_row c now owner request_id fingerprint rows = elim (select_one (at owner request_id) rows) [
  | some r ↦ (reserve_old c fingerprint r, rows)
  | none ↦ (
    ok (
      record { request_id = request_id; state = queued; unverified = false; result = none },
      true,
    ),
    rows ++ new_row now owner request_id fingerprint ∷ [],
  )
]

unfoldable pub reserve :
    Codec → ℕ → String → String → String → Json → List Row → Reply (Shown × Bool) × List Row
unfolding reserve_row
reserve c now owner request_id operation arguments rows =
    if not (c.is_id request_id)
    then (err invalid_request_id, rows)
    else elim (c.fingerprint_of operation arguments) [
      | none ↦ (err not_encodable, rows)
      | some fingerprint ↦ reserve_row c now owner request_id fingerprint rows
    ]

-- `cursor.rowcount != 1`, for an `UPDATE` with this test.
abbrev pub is_one : List Row → Bool
is_one (r ∷ []) = true
is_one _ = false

-- `dispatch`: whether it returned, and the rows; an exception rolls the update back.
unfoldable pub dispatch : ℕ → String → String → List Row → Bool × List Row
dispatch now owner request_id rows =
    if is_one (select (λ r. at owner request_id r && is_queued r.state) rows)
    then (
      true,
      update (λ r. at owner request_id r && is_queued r.state)
          (λ r. record r { state = dispatched; updated = now }) rows,
    )
    else (false, rows)

-- `get`; `ok none` if there is no row.
unfoldable pub get : Codec → String → String → List Row → Reply (Option Shown)
unfolding show_row
get c owner request_id rows =
    if not (c.is_id request_id)
    then err invalid_request_id
    else elim (select_one (at owner request_id) rows) [
      | none ↦ ok none
      | some r ↦ elim (show_row c request_id r.state r.result) [
        | err f ↦ err f
        | ok shown ↦ ok (some shown)
      ]
    ]

-- `json.dumps(result)` of a result that is not None; `none` if it raised.
abbrev pub encode : Codec → Option Json → Option (Option String)
encode c none = some none
encode c (some value) = elim (c.dumps value) [ none ↦ none | some encoded ↦ some (some encoded) ]

abbrev pub is_final : State → Bool
is_final queued = false
is_final dispatched = false
is_final _ = true

-- The `UPDATE` of `finish` and the `get` after it.
unfoldable pub finish_encoded :
    Codec → ℕ → String → String → State → Option String → List Row → Reply (Option Shown) × List Row
unfolding get
finish_encoded c now owner request_id state encoded rows =
    if is_one (select (λ r. at owner request_id r && not (is_final r.state)) rows)
    then (let written =
          update (λ r. at owner request_id r && not (is_final r.state))
            (λ r. record r { state = state; result = encoded; updated = now }) rows in
        (get c owner request_id written, written))
    else (err operation_already_final, rows)

unfoldable pub finish :
    Codec → ℕ → String → String → State → Option Json → List Row → Reply (Option Shown) × List Row
unfolding finish_encoded
finish c now owner request_id state result rows =
    if not (is_final state) then (err invalid_final_state, rows) else elim (encode c result) [
      | none ↦ (err not_encodable, rows)
      | some encoded ↦ finish_encoded c now owner request_id state encoded rows
    ]

-- `delete_owner`: how many rows it deleted, and the rows.
unfoldable pub delete_owner : String → List Row → ℕ × List Row
delete_owner owner rows =
    (length (select (λ r. r.owner == owner) rows), delete (λ r. r.owner == owner) rows)

-- The owners, each once.
unfoldable pub distinct : List String → List String
distinct [] = []
distinct (k ∷ ks) = let rest = distinct ks in if contains k rest then rest else k ∷ rest

-- `stats`: the numbers of rows and of owners.
unfoldable pub stats : List Row → ℕ × ℕ
unfolding distinct
stats rows = (length rows, length (distinct (map (λ (r : Row). r.owner) rows)))

-- `recover`: nothing that was dispatched is dispatched again.
unfoldable pub recover : ℕ → List Row → List Row
recover now rows =
    update (λ r. is_queued r.state) (λ r. record r { state = failed; updated = now })
      (update (λ r. is_dispatched r.state) (λ r. record r { state = unknown; updated = now }) rows)
