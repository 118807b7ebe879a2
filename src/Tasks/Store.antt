-- ===== src/Tasks/Store.antt =====
-- bf_automation/task_store.py: `begin`, `require`, `status`, the owned processes, and the windows of a
-- task.
use unified_personal_mcp.Prelude.{
  ℕ, String, Bool, true, false, not, ◌&&◌, Option, none, some, List, [], ◌∷◌, ◌++◌, ◌==◌, eqb, ltb,
  contains, starts_with, if◌then◌else◌,
}
use unified_personal_mcp.Table.{select_one, delete}
use unified_personal_mcp.Tasks.State.{
  invalid_context_id, outside_root, not_a_directory, invalid_task_id, unknown_task, not_active,
  task_ending, window_not_owned, failure, Result, ok, err, Identity, Status, active, ended, Task,
  Window, Job, Store, Project, Codec, Lookup, found, no_such_process, denied,
}

-- `_task_key`
abbrev pub task_key : Codec → String → String
task_key c token = c.first_16 (c.sha256 token)

abbrev pub has_key : String → Task → Bool
has_key key t = t.key == key

abbrev pub is_active : Status → Bool
is_active active = true
is_active (ended time) = false

-- `add_end_hook`
unfoldable pub add_end_hook : String → Store → Store
add_end_hook hook s =
    if contains hook s.end_hooks then s else record s { end_hooks = s.end_hooks ++ hook ∷ [] }

-- `_project_path`
unfoldable pub project_path : Bool → Project → Result String
project_path allow_external_projects project =
    if not allow_external_projects && not project.is_inside
    then err outside_root
    else if not project.is_dir
    then err not_a_directory
    else ok project.path

abbrev pub valid_context : Codec → Option String → Bool
valid_context c none = true
valid_context c (some id) = c.is_context_id id

abbrev pub new_task : Codec → ℕ → String → String → Option String → Task
new_task c now token path context_id = record {
  key = task_key c token;
  token_sha256 = c.sha256 token;
  project_path = path;
  status = active;
  created = now;
  owned_pids = [];
  owned_processes = [];
  context_id = context_id;
  recovered = false;
}

-- `_write_json` of task.json.
abbrev pub write_task : Task → List Task → List Task
write_task t ts = delete (has_key t.key) ts ++ t ∷ []

-- `begin`, with its new token.
unfoldable pub begin :
    Codec → Bool → ℕ → Project → Option String → String → Store → Result String × Store
unfolding project_path
begin c allow_external_projects now project context_id token s =
    if not (valid_context c context_id)
    then (err invalid_context_id, s)
    else elim (project_path allow_external_projects project) [
      | err code ↦ (err code, s)
      | ok path ↦ (
        ok token,
        record s {
          tasks = write_task (new_task c now token path context_id) s.tasks;
          windows = delete (λ (w : Window). w.task == task_key c token) s.windows;
        },
      )
    ]

-- `require`
unfoldable pub require : Codec → Bool → String → Store → Result Task
require c allow_ending token s =
    if not (starts_with token "bf_")
    then err invalid_task_id
    else elim (select_one (has_key (task_key c token)) s.tasks) [
      | none ↦ err unknown_task
      | some t ↦
          if not (t.token_sha256 == c.sha256 token)
          then err unknown_task
          else if not (is_active t.status)
          then err not_active
          else if not allow_ending && contains (task_key c token) s.ending
          then err task_ending
          else ok t
    ]

-- `status`
unfoldable pub status : Codec → String → Store → Result Task
unfolding require
status c token s = require c true token s

-- The set of pids, sorted.
abbrev pub add_pid : ℕ → List ℕ → List ℕ
add_pid pid [] = pid ∷ []
add_pid pid (p ∷ ps) =
    if eqb pid p then p ∷ ps else if ltb pid p then pid ∷ p ∷ ps else p ∷ add_pid pid ps

-- The record with the new pid and, if the process is there, its identity; `none` if psutil raises.
unfoldable pub with_pid : ℕ → Lookup → Task → Option Task
with_pid pid (found i) t = some (record t {
  owned_pids = add_pid pid t.owned_pids;
  owned_processes = delete (λ (j : Identity). eqb j.pid pid) t.owned_processes ++ i ∷ [];
})
with_pid pid no_such_process t = some (record t { owned_pids = add_pid pid t.owned_pids })
with_pid pid denied t = none

abbrev pub write_pid : Option Task → Store → Result (Unit {0}) × Store
write_pid none s = (err failure, s)
write_pid (some t) s = (ok tt, record s { tasks = write_task t s.tasks })

-- `add_owned_pid`
unfoldable pub add_owned_pid : Codec → String → ℕ → Lookup → Store → Result (Unit {0}) × Store
unfolding require with_pid
add_owned_pid c token pid lookup s = elim (require c false token s) [
  | err code ↦ (err code, s)
  | ok t ↦ write_pid (with_pid pid lookup t) s
]

abbrev pub is_job : ℕ → Job → Bool
is_job id j = eqb j.id id

-- The `except` of `spawn_owned` after `add_owned_pid`.
abbrev pub spawned_reply : ℕ → ℕ → Bool → Result (Unit {0}) × Store → Result ℕ × Store
spawned_reply job pid closes (ok _, s) = (ok pid, s)
spawned_reply job pid closes (err code, s) =
    if closes then (err code, record s { jobs = delete (is_job job) s.jobs }) else (err failure, s)

-- The end of `spawn_owned` for the job that is listed: `spawned` is the new process, if there is one, and
-- `closes` whether the job can be closed after a failure.
unfoldable pub spawn_in : Codec → String → ℕ → Option ℕ → Lookup → Bool → Store → Result ℕ × Store
unfolding add_owned_pid
spawn_in c token job none lookup closes s =
    (err failure, if closes then record s { jobs = delete (is_job job) s.jobs } else s)
spawn_in c token job (some pid) lookup closes s =
    spawned_reply job pid closes (add_owned_pid c token pid lookup s)

-- `spawn_owned`, with the new job.
unfoldable pub spawn_owned :
    Codec → String → ℕ → Option ℕ → Lookup → Bool → Store → Result ℕ × Store
unfolding require spawn_in
spawn_owned c token job spawned lookup closes s = elim (require c false token s) [
  | err code ↦ (err code, s)
  | ok t ↦
      spawn_in c token job spawned lookup closes
        (record s { jobs = s.jobs ++ record { owner = t.key; id = job } ∷ [] })
]

-- `stop_owned`; whether the job closes, and the process ends in time.
unfoldable pub stop_owned : ℕ → Bool → Bool → Store → Result (Unit {0}) × Store
stop_owned job closes waits s =
    if closes && waits
    then (ok tt, record s { jobs = delete (is_job job) s.jobs })
    else (err failure, s)

abbrev pub is_window : String → String → Window → Bool
is_window task id w = w.task == task && w.id == id

-- `bind_window`
unfoldable pub bind_window : Codec → ℕ → String → ℕ → ℕ → String → Store → Result String × Store
unfolding require
bind_window c now token hwnd pid title s = elim (require c false token s) [
  | err code ↦ (err code, s)
  | ok t ↦
      let id = c.window_id token hwnd pid title in
      (
        ok id,
        record s {
          windows =
              delete (is_window t.key id) s.windows
              ++ record {
                task = t.key;
                id = id;
                hwnd = hwnd;
                pid = pid;
                title = title;
                bound_at = now;
              }
                ∷ [];
        },
      )
]

-- `resolve_window`
unfoldable pub resolve_window : Codec → String → String → Store → Result Window
unfolding require
resolve_window c token window_id s = elim (require c false token s) [
  | err code ↦ err code
  | ok t ↦ elim (select_one (is_window t.key window_id) s.windows) [
    | none ↦ err window_not_owned
    | some w ↦ ok w
  ]
]
