-- ===== src/Workflows/Begin.antt =====
-- personal_mcp/workflows.py: `begin`, the reservation of a project for a new workflow.
use unified_personal_mcp.Prelude.{
  ℕ, ◌+◌, String, count, Bool, true, false, ◌&&◌, ◌||◌, Option, none, some, List, [], ◌∷◌, ◌++◌,
  ◌==◌, leb, ltb, is_some, if◌then◌else◌,
}
use unified_personal_mcp.Table.{select_one, select, update}
use unified_personal_mcp.Workflows.State.{
  FilePath, Access, reserved, Workflow, Registry, Public, Relation, same, ancestor, descendant,
  Result, ok, err, owner_required, invalid_request_id, invalid_argument, invalid_project,
  host_closing, integrity_error, project_busy, is_live, is_write, hash, public,
}
use unified_personal_mcp.Workflows.End.{Surroundings}
use unified_personal_mcp.Workflows.Idle.{lapsed, mark_expired, expire}

-- `path.is_relative_to(other)`
unfoldable pub is_relative_to : FilePath → FilePath → Bool
is_relative_to path [] = true
is_relative_to [] (o ∷ other) = false
is_relative_to (p ∷ path) (o ∷ other) = p == o && is_relative_to path other

-- Two paths of which one holds the other.
unfoldable pub overlaps : FilePath → FilePath → Bool
unfolding is_relative_to
overlaps project other = is_relative_to project other || is_relative_to other project

-- The test of the loop over the live rows.
unfoldable pub conflicts_with : FilePath → Access → Workflow → Bool
unfolding overlaps
conflicts_with project access w =
    is_live w.state && (is_write access || is_write w.access) && overlaps project w.project

unfoldable pub relation : FilePath → FilePath → Relation
unfolding is_relative_to
relation project other =
    if is_relative_to project other && is_relative_to other project
    then same
    else if is_relative_to project other
    then ancestor
    else descendant

-- The blockers that the caller may see: its own.
unfoldable pub own_blockers : ℕ → String → FilePath → List Workflow → List (Public × Relation)
unfolding relation public
own_blockers now owner project [] = []
own_blockers now owner project (w ∷ ws) =
    let rest = own_blockers now owner project ws in
    if w.owner == owner then (public now w, relation project w.project) ∷ rest else rest

-- `begin` asks for a reservation with these arguments, checked and resolved.
pub record Request : Type 0 where
  pub owner : String
  pub project : FilePath
  pub request_id : String
  pub digest : String
  pub access : Access
  pub ttl : ℕ

pub data Begun : Type 0 where
  begun : String → ℕ → Begun
  begin_already_accepted begin_conflict : Begun

unfoldable pub new_row : ℕ → String → Request → Workflow
new_row now key request = record {
  token_hash = key;
  owner = request.owner;
  request_id = request.request_id;
  digest = request.digest;
  project = request.project;
  access = request.access;
  state = reserved;
  expires = now + request.ttl;
  created = now;
  error = none;
  last_activity = now;
  credential_generation = 0;
}

-- The `INSERT`s, the commit and the cached row, for a token whose hash is `key`. A key or a
-- credential that is there already breaks a primary key: sqlite3 raises and rolls back.
unfoldable pub insert_workflow : ℕ → String → String → Request → Registry → Result Begun × Registry
unfolding new_row
insert_workflow now token key request reg =
    if is_some (select_one (λ w. w.token_hash == key) reg.rows)
      || is_some (select_one (λ c. c.credential_hash == key) reg.credentials)
    then (err integrity_error, reg)
    else (
      ok (begun token (now + request.ttl)),
      record reg {
        rows = update (lapsed now) mark_expired reg.rows ++ new_row now key request ∷ [];
        credentials =
            reg.credentials
            ++ record { credential_hash = key; token_hash = key; generation = 0; revoked = false }
              ∷ [];
        metadata = update (lapsed now) mark_expired reg.metadata ++ new_row now key request ∷ [];
      },
    )

-- A new reservation, unless a live workflow conflicts. A refusal rolls the transaction back.
unfoldable pub reserve_new :
    (String → String) → ℕ → String → Request → Registry → Result Begun × Registry
unfolding insert_workflow own_blockers conflicts_with hash
reserve_new sha256 now token request reg =
    elim (select (conflicts_with request.project request.access)
      (update (lapsed now) mark_expired reg.rows)) [
        | w ∷ ws ↦
            (err (project_busy (own_blockers now request.owner request.project (w ∷ ws))), reg)
        | [] ↦ elim (hash sha256 token) [
          | err e ↦ (err e, reg)
          | ok key ↦ insert_workflow now token key request reg
        ]
      ]

-- The transaction of `begin`.
unfoldable pub reserve :
    (String → String) → ℕ → String → Request → Registry → Result Begun × Registry
unfolding reserve_new
reserve sha256 now token request reg =
    if reg.closed
    then (err host_closing, reg)
    else elim (select_one (λ w. w.owner == request.owner && w.request_id == request.request_id)
        reg.rows) [
          | some w ↦ (
            ok (if w.digest == request.digest then begin_already_accepted else begin_conflict),
            reg,
          )
          | none ↦ reserve_new sha256 now token request reg
        ]

-- What `begin` takes from outside: the hash, the digest of its encoded arguments, the idle time of
-- the installation and a fresh token.
pub record Beginning : Type 0 where
  pub sha256 : String → String
  pub digest : FilePath → Access → ℕ → String
  pub idle_timeout : ℕ
  pub token : String

-- `type(ttl) is not int or not 1 <= ttl <= 300`
abbrev pub ttl_refused : ℕ → Bool
ttl_refused ttl = leb ttl 0 || ltb 300 ttl

-- The checks on the access and the project: `access` is `none` if it is neither of the two words,
-- and `project` is what `config.project` resolved, `none` if that raised.
unfoldable pub begin_checked :
    Beginning
    → Surroundings
    → (owner request_id : String) (ttl : ℕ) → Option Access
    → Option FilePath
    → Registry
    → Result Begun × Registry
unfolding reserve expire
begin_checked b env owner request_id ttl none project reg = (err invalid_argument, reg)
begin_checked b env owner request_id ttl (some access) none reg =
    (err (if ttl_refused ttl then invalid_argument else invalid_project), reg)
begin_checked b env owner request_id ttl (some access) (some project) reg =
    if ttl_refused ttl
    then (err invalid_argument, reg)
    else reserve b.sha256 env.now b.token
        (record {
          owner = owner;
          project = project;
          request_id = request_id;
          digest = b.digest project access ttl;
          access = access;
          ttl = ttl;
        })
        (expire b.idle_timeout env reg)

unfoldable pub begin :
    Beginning
    → Surroundings
    → (owner : String) (project : Option FilePath) (request_id : String) (access : Option Access)
      (ttl : ℕ)
    → Registry
    → Result Begun × Registry
unfolding begin_checked
begin b env owner project request_id access ttl reg =
    if owner == ""
    then (err owner_required, reg)
    else if leb (count request_id) 0 || ltb 128 (count request_id)
    then (err invalid_request_id, reg)
    else begin_checked b env owner request_id ttl access project reg
