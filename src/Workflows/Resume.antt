-- ===== src/Workflows/Resume.antt =====
-- personal_mcp/workflows.py: `resume`, which replaces the credential of an active workflow.
use unified_personal_mcp.Prelude.{
  ℕ, ◌+◌, String, Bool, count, true, false, not, ◌&&◌, ◌||◌, Option, none, some, [], ◌∷◌, ◌++◌,
  ◌==◌, leb, ltb, is_some, contains, if◌then◌else◌,
}
use unified_personal_mcp.Table.{select_one, update}
use unified_personal_mcp.Workflows.State.{
  Workflow, ResumeResponse, Registry, Result, ok, err, invalid_request_id, workflow_inactive,
  resume_conflict, resume_response_replaced, resume_response_expired, resume_response_unavailable,
  credential_generation_conflict, credential_protection_failed, integrity_error, has_key, is_active,
  hash, reference_row,
}
use unified_personal_mcp.Workflows.Idle.{drop_responses}

-- The reply; its `ok` and `state` are constants, and its reference is the workflow's key.
pub record Resumed : Type 0 where
  pub workflow_id : String
  pub workflow_ref : String
  pub credential_generation : ℕ

-- What `resume` takes from outside: the hash and the encoded arguments' digest, and the protection
-- of a reply for an owner, a reference and a request (`none`: it raised). The last three are the readings of
-- the clock for the new reply, for the old replies and for `_metadata`.
pub record Vault : Type 0 where
  pub sha256 : String → String
  pub digest : String → ℕ → String
  pub protect : Resumed → String → String → String → Option String
  pub unprotect : String → String → String → String → Option Resumed
  pub stored_at : ℕ
  pub dropped_at : ℕ
  pub cached_at : ℕ

pub record ResumeRequest : Type 0 where
  pub owner : String
  pub key : String
  pub request_id : String
  pub expected_generation : ℕ

or_unavailable : Option Resumed → Result Resumed
or_unavailable none = err resume_response_unavailable
or_unavailable (some r) = ok r

-- A request that was answered before.
unfoldable pub replay : Vault → ℕ → ResumeRequest → Workflow → ResumeResponse → Result Resumed
unfolding or_unavailable
replay v now q w prior =
    if not (prior.digest == v.digest q.key q.expected_generation) || not (prior.token_hash == q.key)
    then err resume_conflict
    else if not (
        leb prior.generation w.credential_generation
        && leb w.credential_generation prior.generation)
    then err resume_response_replaced
    else if leb prior.expires now
    then err resume_response_expired
    else elim prior.response [
      | none ↦ err resume_response_expired
      | some blob ↦ or_unavailable (v.unprotect blob q.owner q.key q.request_id)
    ]

-- The writes of a new credential, whose hash is `fresh`.
unfoldable pub replace_credential :
    Vault → ℕ → ℕ → ResumeRequest → String → String → Registry → Registry
unfolding drop_responses
replace_credential v ttl now q fresh encrypted reg =
    let generation = q.expected_generation + 1 in
    let change : ℕ → Workflow → Workflow =
      λ read_at w. record w { credential_generation = generation; last_activity = read_at } in
    record reg {
      credentials =
          update (λ c. c.token_hash == q.key) (λ c. record c { revoked = true }) reg.credentials
          ++ record {
            credential_hash = fresh;
            token_hash = q.key;
            generation = generation;
            revoked = false;
          }
            ∷ [];
      rows = update (has_key q.key) (change now) reg.rows;
      responses = drop_responses v.dropped_at (
          reg.responses
          ++ record {
            owner = q.owner;
            request_id = q.request_id;
            token_hash = q.key;
            digest = v.digest q.key q.expected_generation;
            generation = generation;
            expires = v.stored_at + ttl;
            response = some encrypted;
          }
            ∷ []);
      metadata = update (has_key q.key) (change v.cached_at) reg.metadata;
    }

-- The writes, for a reply that could be encrypted and a token that has a hash. A hash that is there
-- already breaks the primary key.
unfoldable pub store_credential :
    Vault
    → ℕ
    → ℕ
    → ResumeRequest
    → Resumed
    → (encrypted : Option String) (fresh : Result String) → Registry
    → Result Resumed × Registry
unfolding replace_credential
store_credential v ttl now q reply none fresh reg = (err credential_protection_failed, reg)
store_credential v ttl now q reply (some encrypted) (err e) reg = (err e, reg)
store_credential v ttl now q reply (some encrypted) (ok fresh) reg =
    if is_some (select_one (λ c. c.credential_hash == fresh) reg.credentials)
    then (err integrity_error, reg)
    else (ok reply, replace_credential v ttl now q fresh encrypted reg)

abbrev pub new_reply : String → ResumeRequest → Resumed
new_reply token q = record {
  workflow_id = token;
  workflow_ref = q.key;
  credential_generation = q.expected_generation + 1;
}

-- Two generations are the same number.
abbrev pub same_generation : ℕ → ℕ → Bool
same_generation a b = leb a b && leb b a

-- The rotation, once no earlier answer stands.
unfoldable pub rotate :
    Vault → ℕ → ℕ → String → ResumeRequest → Workflow → Registry → Result Resumed × Registry
unfolding store_credential hash
rotate v ttl now token q w reg =
    if not (same_generation q.expected_generation w.credential_generation)
    then (err (credential_generation_conflict w.credential_generation), reg)
    else store_credential v ttl now q (new_reply token q)
        (v.protect (new_reply token q) q.owner q.key q.request_id) (hash v.sha256 token) reg

-- The transaction of `resume` on the workflow that the reference names.
unfoldable pub resume_row :
    Vault → ℕ → ℕ → String → ResumeRequest → Workflow → Registry → Result Resumed × Registry
unfolding replay rotate
resume_row v ttl now token q w reg =
    if reg.closed || not (is_active w.state) || not (contains q.key reg.resources)
    then (err workflow_inactive, reg)
    else elim (select_one (λ r. r.owner == q.owner && r.request_id == q.request_id) reg.responses) [
      | some prior ↦ (replay v now q w prior, reg)
      | none ↦ rotate v ttl now token q w reg
    ]

unfoldable pub resume :
    Vault
    → ℕ
    → ℕ
    → String
    → (owner : String) (workflow_ref : Option String) (request_id : String)
      (expected_generation : ℕ)
    → Registry
    → Result Resumed × Registry
resume v ttl now token owner workflow_ref request_id expected_generation reg =
    if leb (count request_id) 0 || ltb 128 (count request_id)
    then (err invalid_request_id, reg)
    else elim (reference_row reg owner workflow_ref) [
      | err e ↦ (err e, reg)
      | ok w ↦
          resume_row v ttl now token
            (record {
              owner = owner;
              key = w.token_hash;
              request_id = request_id;
              expected_generation = expected_generation;
            })
            w reg
    ]
