-- ===== src/Workflows/Examples.antt =====
-- Runs of the registry, and its theorems at them.
use unified_personal_mcp.Prelude.{
  ℕ, String, true, false, Option, none, some, List, [], ◌∷◌, ◌≡◌, ◌≢◌, refl, contains, length,
  false≢true, eq_iff, ◌==◌, ◌&&◌, ◌+◌, if◌then◌else◌,
}
use unified_personal_mcp.Table.{select_one}
use unified_personal_mcp.Workflows.State.{
  FilePath, Public, public, Access, read, write, expired, reserved, active, Workflow,
  ResumeResponse, Registry, Result, ok, reference_row, workflow_credential_replaced, err, row,
}
use unified_personal_mcp.Workflows.Views.{list, fresh_snapshot, live_total, views_agree}
use unified_personal_mcp.Workflows.End.{Surroundings}
use unified_personal_mcp.Workflows.Begin.{Beginning, begin}
use unified_personal_mcp.Workflows.Use.{use_admit}
use unified_personal_mcp.Workflows.Activate.{activate_start, activate_ready}
use unified_personal_mcp.Workflows.End.{end_start, end_finish}
use unified_personal_mcp.Workflows.Resume.{Vault, resume_row, resume, Resumed}
use unified_personal_mcp.Workflows.Host.{closed_operation_owners}
use unified_personal_mcp.Workflows.World.{
  Call, expire_call, begin_call, activate_call, factory_ready, end_begins, end_returns, start, runs,
}
use unified_personal_mcp.Workflows.Evolution.{Evolves}
use unified_personal_mcp.Workflows.Mirror.{Mirrors}
use unified_personal_mcp.Workflows.Leases.{exclusive_leases, metadata-Mirrors, rows_evolve}
use unified_personal_mcp.Workflows.Rotation.{resume_rotates}

abbrev plain : String → String
plain text = text

abbrev quiet : Surroundings
quiet = record {
  now = 100;
  gate_free = λ k. true;
  idle_blockers = λ k. some [];
  closes = λ k. true;
  recovery = none;
  cached_now = λ k. 100;
  dropped_now = 100;
  idle_now = 100;
  release_now = λ k. 100;
}

abbrev beginning : String → Beginning
beginning token = record {
  sha256 = plain;
  digest = λ project access ttl. "digest";
  idle_timeout = 1800;
  token = token;
}

abbrev opened : String → FilePath → Access → Call
opened token project access =
    begin_call (beginning token) quiet "me" (some project) token (some access) 60

abbrev two_readers : List Call
two_readers = opened "wf_a" ("p" ∷ []) read ∷ opened "wf_b" ("p" ∷ "q" ∷ []) read ∷ []

abbrev reader : String → FilePath → Workflow
reader key project = record {
  token_hash = key;
  owner = "me";
  request_id = key;
  digest = "digest";
  project = project;
  access = read;
  state = reserved;
  expires = 160;
  created = 100;
  error = none;
  last_activity = 100;
  credential_generation = 0;
}

a_not_b : ◌≢◌ {A = String} "wf_a" "wf_b"
a_not_b p = false≢true ((eq_iff "wf_a" "wf_b").1 p)

exclusive_leases_example :
    ((reader "wf_a" ("p" ∷ [])).access ≡ read) × ((reader "wf_b" ("p" ∷ "q" ∷ [])).access ≡ read)
unfolding runs begin
exclusive_leases_example =
    exclusive_leases plain 1800 two_readers "wf_a" "wf_b" {r = reader "wf_a" ("p" ∷ [])}
      {s = reader "wf_b" ("p" ∷ "q" ∷ [])} a_not_b refl refl refl refl refl

-- A reservation that lapses between the two readings of one `expire`: the cache is ahead of the table.
abbrev slow : Surroundings
slow = record quiet { now = 159; cached_now = λ k. 161 }

abbrev lapsing : List Call
lapsing = opened "wf_a" ("p" ∷ []) read ∷ expire_call slow ∷ []

cache_is_ahead :
    ((runs plain 1800 lapsing start).registry.rows ≡ reader "wf_a" ("p" ∷ []) ∷ [])
    × ((runs plain 1800 lapsing start).registry.metadata
        ≡ record (reader "wf_a" ("p" ∷ [])) { state = expired } ∷ [])
unfolding runs begin
cache_is_ahead = (refl, refl)

metadata-Mirrors_example :
    Mirrors
      (runs plain 1800 lapsing start).registry.metadata
      (runs plain 1800 lapsing start).registry.rows
metadata-Mirrors_example = metadata-Mirrors plain 1800 lapsing

abbrev finish_a : List Call
finish_a =
    activate_call quiet "me" "wf_a"
    ∷ factory_ready 101 "wf_a"
    ∷ end_begins "wf_a"
    ∷ end_returns quiet "wf_a" active
    ∷ []

rows_evolve_example :
    Evolves []
      (runs plain 1800 finish_a (runs plain 1800 two_readers start)).registry.rows
      (runs plain 1800 two_readers start).registry.rows
rows_evolve_example = rows_evolve plain 1800 two_readers finish_a

-- The second writer in a directory that holds the first one's is refused.
second_writer_refused :
    (runs plain 1800
      (opened "wf_a" ("p" ∷ "q" ∷ []) write ∷ opened "wf_b" ("p" ∷ []) write ∷ [])
      start).registry.rows
    ≡ record (reader "wf_a" ("p" ∷ "q" ∷ [])) { access = write } ∷ []
unfolding runs begin
second_writer_refused = refl

abbrev a_finished : List Call
a_finished = opened "wf_a" ("p" ∷ []) write ∷ finish_a

named : contains "wf_a" (closed_operation_owners (runs plain 1800 a_finished start).registry) ≡ true
unfolding runs begin activate_start activate_ready end_start end_finish closed_operation_owners
named = refl

abbrev a_active : List Call
a_active =
    opened "wf_a" ("p" ∷ []) write ∷ activate_call quiet "me" "wf_a" ∷ factory_ready 101 "wf_a" ∷ []

abbrev on : Registry
on = (runs plain 1800 a_active start).registry

-- A write call at time 102 is let through.
abbrev let_through : Option (Result String × Registry)
let_through = use_admit plain 1 102 "me" "wf_a" "wf_a" true false true on

abbrev active_writer : Workflow
active_writer = record (reader "wf_a" ("p" ∷ [])) {
  access = write;
  state = active;
  last_activity = 101;
}

abbrev used : Registry
used = record on {
  rows = record active_writer { last_activity = 102 } ∷ [];
  metadata = record active_writer { last_activity = 102 } ∷ [];
  inflight = λ k. if k == "wf_a" then on.inflight k + 1 else on.inflight k;
  write_held = "wf_a" ∷ on.write_held;
}

let_through_runs : let_through ≡ some (ok "wf_a", used)
unfolding runs begin activate_start activate_ready use_admit
let_through_runs = refl

abbrev vault : Vault
vault = record {
  sha256 = plain;
  digest = λ key generation. "digest";
  protect = λ reply owner key request_id. some "blob";
  unprotect = λ blob owner key request_id. none;
  stored_at = 102;
  dropped_at = 102;
  cached_at = 103;
}

abbrev resumed : Result Resumed × Registry
resumed = resume vault 300 102 "wf_new" "me" (some "wf_a") "again" 0 on

abbrev new_token : Resumed
new_token = record { workflow_id = "wf_new"; workflow_ref = "wf_a"; credential_generation = 1 }

token_found : row plain on "me" "wf_a" ≡ ok active_writer
unfolding runs begin activate_start activate_ready row
token_found = refl

resumes : resumed.0 ≡ ok new_token
unfolding runs begin activate_start activate_ready resume resume_row reference_row
resumes = refl

first_request :
    select_one (λ (r : ResumeResponse). r.owner == "me" && r.request_id == "again") on.responses
    ≡ none
unfolding runs begin activate_start activate_ready
first_request = refl

resume_rotates_example :
    (◌≡◌ {A = ℕ} 0 active_writer.credential_generation)
    × (row plain resumed.1 "me" "wf_a" ≡ err workflow_credential_replaced)
    × (row plain resumed.1 "me" "wf_new"
        ≡ ok (record active_writer { credential_generation = 1; last_activity = 102 }))
resume_rotates_example =
    resume_rotates vault 300 102 "wf_new" "me" "wf_a" "again" 0 on {w = active_writer}
      {reply = new_token} token_found first_request resumes

-- Two reservations of one owner and one of another, in the table and in the cache.
abbrev three_rows : List Workflow
three_rows =
    reader "wf_b" ("q" ∷ [])
    ∷ record (reader "wf_c" ("r" ∷ [])) { owner = "you" }
    ∷ reader "wf_a" ("p" ∷ [])
    ∷ []

abbrev three_workflows : Registry
three_workflows = record {
  rows = three_rows;
  credentials = [];
  responses = [];
  metadata = three_rows;
  resources = [];
  starting = [];
  inflight = λ k. 0;
  write_held = [];
  queued = [];
  closed = false;
}

abbrev mine : List Public
mine = public 130 (reader "wf_a" ("p" ∷ [])) ∷ public 130 (reader "wf_b" ("q" ∷ [])) ∷ []

mine_listed : list 130 "me" three_workflows ≡ some mine
unfolding list
mine_listed = refl

views_agree_example : length mine ≡ live_total (fresh_snapshot 130 "me" three_workflows).workflows
views_agree_example = views_agree 130 "me" three_workflows refl mine_listed
