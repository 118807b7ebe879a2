-- ===== src/Tasks/Events.antt =====
-- bf_automation/task_store.py: any sequence of calls. `end` and `claim_window` come in their parts, which
-- other calls may separate; a part is taken with any record, window and key, those that the part before
-- it has read among them.
use unified_personal_mcp.Prelude.{ℕ, String, Bool, true, not, ◌||◌, Option, List, [], ◌∷◌, ◌==◌}
use unified_personal_mcp.Tasks.State.{Task, Store, Project, Codec, Lookup}
use unified_personal_mcp.Tasks.Store.{
  task_key, add_end_hook, begin, add_owned_pid, spawn_owned, stop_owned, bind_window,
}
use unified_personal_mcp.Tasks.End.{fence, finish_jobs, drop_claims, write_ended, recover_context}
use unified_personal_mcp.Tasks.Claims.{claim_insert}

pub data Event : Type 0 where
  begins : Bool → ℕ → Project → Option String → String → Event
  adds_hook : String → Event
  adds_pid : String → ℕ → Lookup → Event
  spawns : String → ℕ → Option ℕ → Lookup → Bool → Event
  stops : ℕ → Bool → Bool → Event
  binds : ℕ → String → ℕ → ℕ → String → Event
  fences : String → Event
  closes_jobs : Bool → (ℕ → Bool) → Task → Event
  drops_claims : Bool → Task → Event
  writes_ended : ℕ → Bool → Task → Event
  claims : ℕ → ℕ → ℕ → String → Event
  recovers : ℕ → (ℕ → Lookup) → Bool → Option String → Event

unfoldable pub step : Codec → Event → Store → Store
unfolding add_end_hook begin add_owned_pid spawn_owned stop_owned bind_window fence finish_jobs
    drop_claims write_ended recover_context claim_insert
step c (begins external now project context token) s =
    (begin c external now project context token s).1
step c (adds_hook hook) s = add_end_hook hook s
step c (adds_pid token pid lookup) s = (add_owned_pid c token pid lookup s).1
step c (spawns token job spawned lookup closes) s =
    (spawn_owned c token job spawned lookup closes s).1
step c (stops job closes waits) s = (stop_owned job closes waits s).1
step c (binds now token hwnd pid title) s = (bind_window c now token hwnd pid title s).1
step c (fences token) s = (fence c token s).1
step c (closes_jobs failed closes t) s = (finish_jobs failed closes t s).1
step c (drops_claims database t) s = (drop_claims database t s).1
step c (writes_ended now written t) s = (write_ended now written t s).1
step c (claims now hwnd pid key) s = (claim_insert now hwnd pid key s).1
step c (recovers now lookup database context) s = (recover_context now lookup database context s).1

unfoldable pub steps : Codec → List Event → Store → Store
unfolding step
steps c [] s = s
steps c (e ∷ es) s = steps c es (step c e s)

-- The event does not begin a task with this key, and unless `free`, is not the deletion of its claims by an
-- end.
abbrev pub spares : Codec → Bool → String → Event → Bool
spares c free key (begins external now project context token) = not (task_key c token == key)
spares c free key (adds_hook hook) = true
spares c free key (adds_pid token pid lookup) = true
spares c free key (spawns token job spawned lookup closes) = true
spares c free key (stops job closes waits) = true
spares c free key (binds now token hwnd pid title) = true
spares c free key (fences token) = true
spares c free key (closes_jobs failed closes t) = true
spares c free key (drops_claims database t) = free || not (t.key == key)
spares c free key (writes_ended now written t) = true
spares c free key (claims now hwnd pid owner) = true
spares c free key (recovers now lookup database context) = true
