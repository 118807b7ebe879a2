-- ===== src/Workflows/State.antt =====
-- personal_mcp/workflows.py: the tables and the in-memory fields of `WorkflowRegistry`, and the
-- private helpers `_hash`, `_row`, `_reference_row`, `_state`, `_touch` and `_public`.
use unified_personal_mcp.Prelude.{
  ℕ, ◌≡◌, refl, ◌⊎◌, inl, inr, ◌-◌, String, count, Bool, true, false, not, ◌&&◌, ◌||◌, Option, none,
  some, List, ◌==◌, starts_with, ltb, if◌then◌else◌,
}
use unified_personal_mcp.Table.{select_one, update}

-- The components of a resolved path, in the form in which pathlib compares them.
abbrev pub FilePath : Type 0
FilePath = List String

pub data State : Type 0 where
  reserved starting active closing cleanup_blocked ended expired : State

pub data Access : Type 0 where
  read write : Access

-- The `error` column.
pub data Code : Type 0 where
  host_restarted startup_failed cleanup_in_progress requests_in_progress cleanup_failed : Code

-- A row of `workflows`. Times are whole units of one clock.
pub record Workflow : Type 0 where
  pub token_hash : String
  pub owner : String
  pub request_id : String
  pub digest : String
  pub project : FilePath
  pub access : Access
  pub state : State
  pub expires : ℕ
  pub created : ℕ
  pub error : Option Code
  pub last_activity : ℕ
  pub credential_generation : ℕ

-- A row of `workflow_credentials`.
pub record Credential : Type 0 where
  pub credential_hash : String
  pub token_hash : String
  pub generation : ℕ
  pub revoked : Bool

-- A row of `workflow_resume_responses`; `response` is the encrypted reply.
pub record ResumeResponse : Type 0 where
  pub owner : String
  pub request_id : String
  pub token_hash : String
  pub digest : String
  pub generation : ℕ
  pub expires : ℕ
  pub response : Option String

-- An entry of `_queued`.
pub record Queued : Type 0 where
  pub ticket : ℕ
  pub key : String
  pub project : FilePath
  pub since : ℕ

-- `metadata` is the dict `_metadata` by its values, `inflight` the dict with its default 0, and
-- `write_held` the keys whose write gate is taken.
pub record Registry : Type 0 where
  pub rows : List Workflow
  pub credentials : List Credential
  pub responses : List ResumeResponse
  pub metadata : List Workflow
  pub resources : List String
  pub starting : List String
  pub inflight : String → ℕ
  pub write_held : List String
  pub queued : List Queued
  pub closed : Bool

-- What `_public` shows of a row.
pub record Public : Type 0 where
  pub state : State
  pub project : FilePath
  pub access : Access
  pub expires : ℕ
  pub workflow_ref : String
  pub created : ℕ
  pub credential_generation : ℕ
  pub last_activity : ℕ
  pub idle_seconds : ℕ
  pub ok : Bool
  pub code : Option Code

pub data Relation : Type 0 where
  same ancestor descendant : Relation

pub data NotIdle : Type 0 where
  request_in_progress workflow_state recent_activity resource_state_unknown : NotIdle
  active_resources : List String → NotIdle

-- The codes of `WorkflowError`, with their details, and sqlite3's own `IntegrityError`.
pub data Failure : Type 0 where
  workflow_denied workflow_credential_replaced owner_required invalid_request_id : Failure
  invalid_argument invalid_project workflow_inactive resume_conflict : Failure
  resume_response_replaced resume_response_expired resume_response_unavailable : Failure
  credential_protection_failed host_closing read_only_workflow : Failure
  startup_failed cleanup_failed integrity_error : Failure
  credential_generation_conflict : ℕ → Failure
  workflow_not_idle : NotIdle → Failure
  project_busy : List (Public × Relation) → Failure

pub data Result {ℓ} (A : Type ℓ) : Type ℓ where
  ok : A → Result A
  err : Failure → Result A

infixl 10 ◌>>=◌
abbrev pub ◌>>=◌ {ℓ κ} : {A : Type ℓ} {B : Type κ} → Result A → (A → Result B) → Result B
ok a >>= f = f a
err e >>= f = err e

abbrev pub is_reserved : State → Bool
is_reserved reserved = true
is_reserved _ = false

abbrev pub is_active : State → Bool
is_active active = true
is_active _ = false

abbrev pub is_waiting : State → Bool
is_waiting reserved = true
is_waiting expired = true
is_waiting _ = false

abbrev pub is_starting : State → Bool
is_starting starting = true
is_starting _ = false

abbrev pub is_ended : State → Bool
is_ended ended = true
is_ended _ = false

abbrev pub is_blocked : State → Bool
is_blocked cleanup_blocked = true
is_blocked _ = false

-- `state NOT IN ('ENDED','EXPIRED')`
abbrev pub is_live : State → Bool
is_live ended = false
is_live expired = false
is_live _ = true

abbrev pub is_write : Access → Bool
is_write write = true
is_write read = false

-- `token_hash = ?`
abbrev pub has_key : String → Workflow → Bool
has_key key row = row.token_hash == key

-- `_hash`, over a hash function that the caller supplies.
unfoldable pub hash : (String → String) → String → Result String
hash sha256 token =
    if not (starts_with token "wf_") || ltb 128 (count token)
    then err workflow_denied
    else ok (sha256 token)

or_denied {ℓ} : {A : Type ℓ} → Option A → Result A
or_denied none = err workflow_denied
or_denied (some a) = ok a

-- `_row`: a principal that is none is the empty key.
unfoldable pub row : (String → String) → Registry → String → String → Result Workflow
unfolding hash or_denied
row sha256 reg owner token = if owner == "" then err workflow_denied else do
  key ← hash sha256 token
  credential ← or_denied (select_one (λ c. c.credential_hash == key) reg.credentials)
  found ←
      or_denied
        (select_one (λ w. w.token_hash == credential.token_hash && w.owner == owner) reg.rows)
  if credential.revoked then err workflow_credential_replaced else ok found

-- `_reference_row`: the reference is the key behind `wfr_`, a text of 64 hexadecimal digits; one
-- that does not match is `none`.
unfoldable pub reference_row : Registry → String → Option String → Result Workflow
unfolding or_denied
reference_row reg owner workflow_ref = if owner == "" then err workflow_denied else do
  key ← or_denied workflow_ref
  or_denied (select_one (λ w. w.token_hash == key && w.owner == owner) reg.rows)

-- `_state`: the table and the cached row.
unfoldable pub set_state : String → State → Option Code → Registry → Registry
set_state key state error reg =
    let change = λ (w : Workflow). record w { state = state; error = error } in
    record reg {
      rows = update (has_key key) change reg.rows;
      metadata = update (has_key key) change reg.metadata;
    }

-- `_touch`
unfoldable pub touch : String → ℕ → Registry → Registry
touch key now reg =
    let change = λ (w : Workflow). record w { last_activity = now } in
    record reg {
      rows = update (has_key key) change reg.rows;
      metadata = update (has_key key) change reg.metadata;
    }

-- `_public`; `-` stops at 0, which is the source's `max(0, …)`.
unfoldable pub public : ℕ → Workflow → Public
public now w = record {
  state = w.state;
  project = w.project;
  access = w.access;
  expires = w.expires;
  workflow_ref = w.token_hash;
  created = w.created;
  credential_generation = w.credential_generation;
  last_activity = w.last_activity;
  idle_seconds = now - w.last_activity;
  ok = not (is_blocked w.state);
  code = w.error;
}

-- To split on a result and keep the equation.
pub Result-cases {ℓ} :
    {A : Type ℓ} (m : Result A) → ((e : Failure) × (m ≡ err e)) ⊎ ((a : A) × (m ≡ ok a))
Result-cases (ok a) = inr (a, refl)
Result-cases (err e) = inl (e, refl)
