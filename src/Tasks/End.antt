-- ===== src/Tasks/End.antt =====
-- bf_automation/task_store.py: `end`, cut where the state lock is released and at its transaction, and
-- `recover_context`.
use unified_personal_mcp.Prelude.{
  ℕ, String, Bool, true, false, not, ◌&&◌, ◌||◌, Option, none, some, List, [], ◌∷◌, ◌==◌, eqb, leb,
  length, discard, if◌then◌else◌,
}
use unified_personal_mcp.Table.{select_one, select, delete}
use unified_personal_mcp.Tasks.State.{
  cleanup_incomplete, process_still_alive, failure, Result, ok, err, and_then, Identity, ended,
  Task, Claim, Job, Store, Codec, Lookup, found, no_such_process, denied,
}
use unified_personal_mcp.Tasks.Store.{require, write_task, is_active}
use unified_personal_mcp.Tasks.Claims.{claim_insert}

-- The second region of `end`, with the lock of this task's ends: no new admissions from here.
unfoldable pub fence : Codec → String → Store → Result Task × Store
unfolding require
fence c token s = elim (require c true token s) [
  | err code ↦ (err code, s)
  | ok t ↦ (ok t, record s { ending = t.key ∷ discard t.key s.ending })
]

-- The loop over the hooks, whether one of them raised.
unfoldable pub hook_failed : (String → Bool) → List String → Bool
hook_failed raises [] = false
hook_failed raises (hook ∷ hooks) = raises hook || hook_failed raises hooks

abbrev pub owned_by : String → Job → Bool
owned_by key j = j.owner == key

-- The loop that closes the jobs of the task; the jobs that do not close stay.
unfoldable pub close_jobs : (ℕ → Bool) → String → List Job → List Job
close_jobs closes key jobs = delete (λ j. owned_by key j && closes j.id) jobs

abbrev pub ended_task : ℕ → Task → Task
ended_task now t = record t { status = ended now }

-- The last region of `end` up to the database, with the record that the second one has read: the jobs that
-- close go, and the rest of the list with them, unless a hook or a job has raised.
unfoldable pub finish_jobs : Bool → (ℕ → Bool) → Task → Store → Result (Unit {0}) × Store
unfolding close_jobs
finish_jobs hooks_failed closes t s =
    let left = close_jobs closes t.key s.jobs in
    if hooks_failed || not (leb (length (select (owned_by t.key) left)) 0)
    then (err cleanup_incomplete, record s { jobs = left })
    else (ok tt, record s { jobs = delete (owned_by t.key) left })

-- The transaction on the claims; `database` says whether it is committed.
unfoldable pub drop_claims : Bool → Task → Store → Result (Unit {0}) × Store
drop_claims database t s =
    if not database
    then (err failure, s)
    else (ok tt, record s { claims = delete (λ (r : Claim). r.owner == t.key) s.claims })

-- The write of task.json, which may raise, and what comes after it.
unfoldable pub write_ended : ℕ → Bool → Task → Store → Result String × Store
write_ended now written t s = if not written then (err failure, s) else (
  ok t.key,
  record s { tasks = write_task (ended_task now t) s.tasks; ending = discard t.key s.ending },
)

-- A transaction of a `claim_window` that has passed its checks; it does not wait for the state lock.
pub record LateClaim : Type 0 where
  pub now : ℕ
  pub hwnd : ℕ
  pub pid : ℕ
  pub key : String

unfoldable pub insert_all : List LateClaim → Store → Store
unfolding claim_insert
insert_all [] s = s
insert_all (l ∷ ls) s = insert_all ls (claim_insert l.now l.hwnd l.pid l.key s).1

-- What the hooks and the rest of `end` meet: which hooks raise, which jobs close, whether the database
-- answers and task.json is written; and what comes between: any changes of the store before the fence and
-- while the hooks run, since the state lock is free then, and claims of windows on both sides of the
-- transaction.
pub record Cleanup : Type 0 where
  pub raises : String → Bool
  pub closes : ℕ → Bool
  pub database : Bool
  pub written : Bool
  pub before_fence : Store → Store
  pub during_hooks : Store → Store
  pub before_drop : List LateClaim
  pub after_drop : List LateClaim

-- The last region of `end`.
unfoldable pub finish : ℕ → Cleanup → Bool → Task → Store → Result String × Store
unfolding finish_jobs drop_claims write_ended insert_all
finish now w hooks_failed t s = and_then (finish_jobs hooks_failed w.closes t s) (λ _ closed.
    and_then (drop_claims w.database t (insert_all w.before_drop closed))
      (λ _ dropped. write_ended now w.written t (insert_all w.after_drop dropped)))

unfoldable pub end : Codec → ℕ → Cleanup → String → Store → Result String × Store
unfolding require fence hook_failed finish
end c now w token s = elim (require c true token s) [
  | err code ↦ (err code, s)
  | ok _ ↦
      and_then (fence c token (w.before_fence s))
        (λ t fenced. finish now w (hook_failed w.raises fenced.end_hooks) t (w.during_hooks fenced))
]

abbrev pub is_identity : ℕ → Identity → Bool
is_identity pid i = eqb i.pid pid

-- The test that a process of an old record may still be there; `none` if psutil raises something else.
unfoldable pub still_alive : List Identity → ℕ → Lookup → Option Bool
still_alive identities pid no_such_process = some false
still_alive identities pid denied = none
still_alive identities pid (found i) = elim (select_one (is_identity pid) identities) [
  | none ↦ some true
  | some j ↦ some (eqb i.created j.created && i.exe == j.exe)
]

-- The loop over the pids of a record.
unfoldable pub check_pids : (ℕ → Lookup) → List Identity → List ℕ → Result (Unit {0})
unfolding still_alive
check_pids lookup identities [] = ok tt
check_pids lookup identities (pid ∷ pids) = elim (still_alive identities pid (lookup pid)) [
  | none ↦ err failure
  | some true ↦ err process_still_alive
  | some false ↦ check_pids lookup identities pids
]

abbrev pub same_context : Option String → Option String → Bool
same_context none none = true
same_context (some a) (some b) = a == b
same_context _ _ = false

-- One round of `recover_context`; `database` says whether the claims can be deleted.
unfoldable pub recover_task :
    ℕ → (ℕ → Lookup) → Bool → Option String → Task → Store → Result (Unit {0}) × Store
unfolding check_pids
recover_task now lookup database context_id t s =
    if not (same_context t.context_id context_id) || not (is_active t.status)
    then (ok tt, s)
    else elim (check_pids lookup t.owned_processes t.owned_pids) [
      | err code ↦ (err code, s)
      | ok _ ↦
          let over : Store = record s {
            tasks = write_task (record t { status = ended now; recovered = true }) s.tasks;
          } in
          if database
          then (ok tt, record over { claims = delete (λ (r : Claim). r.owner == t.key) s.claims })
          else (err failure, over)
    ]

-- `recover_context`, over the records that the glob finds.
unfoldable pub recover_all :
    ℕ → (ℕ → Lookup) → Bool → Option String → List Task → Store → Result (Unit {0}) × Store
unfolding recover_task
recover_all now lookup database context_id [] s = (ok tt, s)
recover_all now lookup database context_id (t ∷ ts) s =
    and_then (recover_task now lookup database context_id t s)
      (λ _ after. recover_all now lookup database context_id ts after)

unfoldable pub recover_context :
    ℕ → (ℕ → Lookup) → Bool → Option String → Store → Result (Unit {0}) × Store
unfolding recover_all
recover_context now lookup database context_id s =
    recover_all now lookup database context_id s.tasks s
