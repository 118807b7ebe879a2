-- ===== src/Tasks/Spec.antt =====
-- bf_automation/task_store.py: what the store does to its records, claims, fences and jobs, without its
-- checks and its failures.
use unified_personal_mcp.Prelude.{
  ℕ, ◌≡◌, ◌⊎◌, String, Bool, true, false, List, [], ◌∷◌, ◌++◌, ◌==◌, discard,
}
use unified_personal_mcp.Table.{select_one, delete}
use unified_personal_mcp.Tasks.State.{Task, Claim, Job, Store}
use unified_personal_mcp.Tasks.Store.{is_active, write_task}
use unified_personal_mcp.Tasks.Claims.{is_claim, is_active_task, taken}

pub record Core : Type 0 where
  pub tasks : List Task
  pub claims : List Claim
  pub ending : List String
  pub jobs : List Job

abbrev pub core : Store → Core
core s = record { tasks = s.tasks; claims = s.claims; ending = s.ending; jobs = s.jobs }

abbrev pub claim_of : ℕ → ℕ → ℕ → String → Claim
claim_of now hwnd pid key = record { hwnd = hwnd; pid = pid; owner = key; claimed_at = now }

-- One step, while no task begins with the key k: only an active task's record is changed, gets a job or a
-- fence; a task that is over loses its claims; a window that an active task has claimed stays its
-- own, but for the deletion of its claims, which k meets only if `free`.
pub data Step (free : Bool) (k : String) (m n : Core) : Type 0 where
  wrote :
      (t : Task)
      → is_active_task t.key m.tasks ≡ true
      → n ≡ record m { tasks = write_task t m.tasks }
      → Step free k m n
  begun :
      (t : Task)
      → (t.key == k) ≡ false
      → n ≡ record m { tasks = write_task t m.tasks }
      → Step free k m n
  listed :
      (j : Job)
      → is_active_task j.owner m.tasks ≡ true
      → n ≡ record m { jobs = m.jobs ++ j ∷ [] }
      → Step free k m n
  dropped : (q : Job → Bool) → n ≡ record m { jobs = delete q m.jobs } → Step free k m n
  fenced :
      (key : String)
      → is_active_task key m.tasks ≡ true
      → n ≡ record m { ending = key ∷ discard key m.ending }
      → Step free k m n
  unfenced : (key : String) → n ≡ record m { ending = discard key m.ending } → Step free k m n
  ended :
      (t : Task)
      → is_active t.status ≡ false
      → n ≡ record m { tasks = write_task t m.tasks }
      → Step free k m n
  released :
      (t : Task)
      → is_active t.status ≡ false
      → n ≡ record m {
        tasks = write_task t m.tasks;
        claims = delete (λ (r : Claim). r.owner == t.key) m.claims;
      }
      → Step free k m n
  deleted :
      (key : String)
      → (free ≡ true) ⊎ ((key == k) ≡ false)
      → n ≡ record m { claims = delete (λ (r : Claim). r.owner == key) m.claims }
      → Step free k m n
  claimed :
      (now hwnd pid : ℕ) (key : String)
      → taken key m.tasks (select_one (is_claim hwnd pid) m.claims) ≡ false
      → n ≡ record m {
        claims = delete (is_claim hwnd pid) m.claims ++ claim_of now hwnd pid key ∷ [];
      }
      → Step free k m n
