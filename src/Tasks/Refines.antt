-- ===== src/Tasks/Refines.antt =====
-- bf_automation/task_store.py: `end`, `recover_context`, `claim_window` and every sequence of calls refine
-- Spec.
use unified_personal_mcp.Prelude.{
  ℕ, ◌≡◌, refl, Bool, true, false, not, Bool-cases, ◌⊎◌, ◌==◌, String, ◌||◌, Option, List, [], ◌∷◌,
  arith, inl, inr, leb, length, if-cases, All, stop,
}
use unified_personal_mcp.Table.{select_one, select}
use unified_personal_mcp.Tasks.State.{Result-cases, Result, Task, Store, Codec, Lookup}
use unified_personal_mcp.Tasks.Store.{add_end_hook, is_active}
use unified_personal_mcp.Tasks.End.{
  close_jobs, owned_by, ended_task, finish_jobs, drop_claims, write_ended, check_pids, same_context,
  recover_task, recover_all, recover_context,
}
use unified_personal_mcp.Tasks.Claims.{is_claim, taken, claim_insert}
use unified_personal_mcp.Tasks.Spec.{core, dropped, unfenced, ended, released, deleted, claimed}
use unified_personal_mcp.Tasks.Events.{
  Event, begins, adds_hook, adds_pid, spawns, stops, binds, fences, closes_jobs, drops_claims,
  writes_ended, claims, recovers, step, steps, spares,
}
use unified_personal_mcp.Tasks.Calls.{
  Steps, none_taken, one_taken, both_taken, Steps-and_then, begin-Steps, add_owned_pid-Steps,
  spawn_owned-Steps, stop_owned-Steps, bind_window-Steps, fence-Steps,
}

module _ (c : Codec) (free : Bool) (k : String) where
  finish_jobs-Steps :
      (failed : Bool) (closes : ℕ → Bool) (t : Task) (s : Store)
      → Steps free k s (finish_jobs failed closes t s).1
  unfolding finish_jobs close_jobs
  finish_jobs-Steps failed closes t s =
      let left = close_jobs closes t.key s.jobs in
      let closed : Store = record s { jobs = left } in
      let drop_closed = one_taken c free k (core s) (core closed) (dropped _ refl) in
      if-cases (λ (x : Result (Unit {0}) × Store). Steps free k s x.1)
        (failed || not (leb (length (select (owned_by t.key) left)) 0)) (λ _. drop_closed)
        (λ _.
          both_taken c free k (core s) (core closed) _ drop_closed
            (one_taken c free k (core closed) _ (dropped _ refl)))

  drop_claims-Steps :
      (database : Bool) (t : Task) (s : Store)
      → (free ≡ true) ⊎ ((t.key == k) ≡ false)
      → Steps free k s (drop_claims database t s).1
  unfolding drop_claims
  drop_claims-Steps database t s may =
      if-cases (λ (x : Result (Unit {0}) × Store). Steps free k s x.1) (not database)
        (λ _. none_taken c free k s) (λ _. one_taken c free k (core s) _ (deleted t.key may refl))

  write_ended-Steps :
      (now : ℕ) (written : Bool) (t : Task) (s : Store)
      → Steps free k s (write_ended now written t s).1
  unfolding write_ended
  write_ended-Steps now written t s =
      if-cases (λ (x : Result String × Store). Steps free k s x.1) (not written)
        (λ _. none_taken c free k s)
        (λ _.
          both_taken c free k (core s) _ _
            (one_taken c free k (core s) _ (ended (ended_task now t) refl refl))
            (one_taken c free k _ _ (unfenced t.key refl)))

  recover_task-Steps :
      (now : ℕ) (lookup : ℕ → Lookup) (database : Bool) (context : Option String) (t : Task)
      (s : Store)
      → Steps free k s (recover_task now lookup database context t s).1
  unfolding recover_task
  recover_task-Steps now lookup database context t s =
      let P : Result (Unit {0}) × Store → Type 0 = λ x. Steps free k s x.1 in
      if-cases P (not (same_context t.context_id context) || not (is_active t.status))
        (λ _. none_taken c free k s)
        (λ _. elim (Result-cases (check_pids lookup t.owned_processes t.owned_pids)) [
          | inl (code, e) ↦ rw e (none_taken c free k s)
          | inr (done, e) ↦ rw e (
              if-cases P database
                (λ _.
                  one_taken c free k (core s) _
                    (released (record (ended_task now t) { recovered = true }) refl refl))
                (λ _.
                  one_taken c free k (core s) _
                    (ended (record (ended_task now t) { recovered = true }) refl refl)))
        ])

  recover_all-Steps :
      (now : ℕ) (lookup : ℕ → Lookup) (database : Bool) (context : Option String) (ts : List Task)
      (s : Store)
      → Steps free k s (recover_all now lookup database context ts s).1
  unfolding recover_all
  recover_all-Steps now lookup database context [] s = none_taken c free k s
  recover_all-Steps now lookup database context (t ∷ ts) s =
      Steps-and_then c free k s (recover_task now lookup database context t s)
        (λ _ after. recover_all now lookup database context ts after)
        (recover_task-Steps now lookup database context t s)
        (λ _ after. recover_all-Steps now lookup database context ts after)

  claim_insert-Steps :
      (now hwnd pid : ℕ) (key : String) (s : Store)
      → Steps free k s (claim_insert now hwnd pid key s).1
  unfolding claim_insert
  claim_insert-Steps now hwnd pid key s =
      if-cases (λ (x : Result (Unit {0}) × Store). Steps free k s x.1)
        (taken key s.tasks (select_one (is_claim hwnd pid) s.claims)) (λ _. none_taken c free k s)
        (λ open_. one_taken c free k (core s) _ (claimed now hwnd pid key open_ refl))

  add_end_hook-core : (hook : String) (s : Store) → Steps free k s (add_end_hook hook s)
  unfolding add_end_hook
  add_end_hook-core hook s =
      if-cases (λ n. Steps free k s n) _ (λ _. none_taken c free k s) (λ _. none_taken c free k s)

  step-Steps : (e : Event) (s : Store) → spares c free k e ≡ true → Steps free k s (step c e s)
  unfolding step recover_context
  step-Steps (begins external now project context token) s h =
      begin-Steps c free k external now project context token s (ground arith)
  step-Steps (adds_hook hook) s h = add_end_hook-core hook s
  step-Steps (adds_pid token pid lookup) s h = add_owned_pid-Steps c free k token pid lookup s
  step-Steps (spawns token job spawned lookup closes) s h =
      spawn_owned-Steps c free k token job spawned lookup closes s
  step-Steps (stops job closes waits) s h = stop_owned-Steps c free k job closes waits s
  step-Steps (binds now token hwnd pid title) s h =
      stop (core s) _ (bind_window-Steps c free k now token hwnd pid title s)
  step-Steps (fences token) s h = fence-Steps c free k token s
  step-Steps (closes_jobs failed closes t) s h = finish_jobs-Steps failed closes t s
  step-Steps (drops_claims database t) s h =
      drop_claims-Steps database t s
        (elim (Bool-cases free) [ inl e ↦ inl e | inr e ↦ inr (ground arith) ])
  step-Steps (writes_ended now written t) s h = write_ended-Steps now written t s
  step-Steps (claims now hwnd pid key) s h = claim_insert-Steps now hwnd pid key s
  step-Steps (recovers now lookup database context) s h =
      recover_all-Steps now lookup database context s.tasks s

  -- Every sequence of calls that begins no task of this key is made of steps of Spec.
  pub steps-Steps :
      (es : List Event) (s : Store)
      → All (λ e. spares c free k e ≡ true) es
      → Steps free k s (steps c es s)
  unfolding steps
  steps-Steps [] s h = none_taken c free k s
  steps-Steps (e ∷ es) s h =
      both_taken c free k (core s) (core (step c e s)) _ (step-Steps e s h.0)
        (steps-Steps es (step c e s) h.1)
