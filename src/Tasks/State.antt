-- ===== src/Tasks/State.antt =====
-- bf_automation/task_store.py: the files of `TaskStore`, its fields, and what it asks of the outside.
use unified_personal_mcp.Prelude.{
  ℕ, String, Bool, true, false, Option, List, [], ◌≡◌, refl, ◌⊎◌, inl, inr,
}

-- What the methods raise; `failure` is raised by the database, the operating system or psutil.
pub data Code : Type 0 where
  invalid_context_id outside_root not_a_directory invalid_task_id unknown_task not_active : Code
  task_ending cleanup_incomplete process_still_alive window_not_owned window_taken failure : Code

pub data Result {ℓ} (A : Type ℓ) : Type ℓ where
  ok : A → Result A
  err : Code → Result A

-- The identity of a process, and an entry of `owned_processes`.
pub record Identity : Type 0 where
  pub pid : ℕ
  pub created : ℕ
  pub exe : String

pub data Status : Type 0 where
  active : Status
  ended : ℕ → Status

-- task.json; the directory is the task's key.
pub record Task : Type 0 where
  pub key : String
  pub token_sha256 : String
  pub project_path : String
  pub status : Status
  pub created : ℕ
  pub owned_pids : List ℕ
  pub owned_processes : List Identity
  pub context_id : Option String
  pub recovered : Bool

-- An entry of a task's windows.json.
pub record Window : Type 0 where
  pub task : String
  pub id : String
  pub hwnd : ℕ
  pub pid : ℕ
  pub title : String
  pub bound_at : ℕ

-- A row of window_claims.
pub record Claim : Type 0 where
  pub hwnd : ℕ
  pub pid : ℕ
  pub owner : String
  pub claimed_at : ℕ

-- A job in `_owned_jobs`, with the key that it is listed under.
pub record Job : Type 0 where
  pub owner : String
  pub id : ℕ

pub record Store : Type 0 where
  pub tasks : List Task
  pub windows : List Window
  pub claims : List Claim
  pub ending : List String
  pub end_hooks : List String
  pub jobs : List Job

abbrev pub new_store : Store
new_store = record { tasks = []; windows = []; claims = []; ending = []; end_hooks = []; jobs = [] }

-- What a look at a project's path finds.
pub record Project : Type 0 where
  pub path : String
  pub is_inside : Bool
  pub is_dir : Bool

-- The standard library's part: `sha256` in hexadecimal digits, its first 16 characters, the identifier of
-- a window, the test of a context's identifier.
pub record Codec : Type 0 where
  pub sha256 : String → String
  pub first_16 : String → String
  pub window_id : String → ℕ → ℕ → String → String
  pub is_context_id : String → Bool

-- What psutil answers about a process.
pub data Lookup : Type 0 where
  found : Identity → Lookup
  no_such_process denied : Lookup

-- Go on with the result, unless the call raised; what it has changed stays changed.
abbrev pub and_then {ℓ κ} :
    {A : Type ℓ} {B : Type κ} → Result A × Store → (A → Store → Result B × Store) → Result B × Store
and_then (err code, s) next = (err code, s)
and_then (ok a, s) next = next a s

abbrev pub is_ok {ℓ} : {A : Type ℓ} → Result A → Bool
is_ok (ok a) = true
is_ok (err code) = false

pub Result-cases {ℓ} :
    {A : Type ℓ} (r : Result A) → ((code : Code) × (r ≡ err code)) ⊎ ((a : A) × (r ≡ ok a))
Result-cases (err code) = inl (code, refl)
Result-cases (ok a) = inr (a, refl)
