-- ===== src/Tasks/Claims.antt =====
-- bf_automation/task_store.py: `claim_window`, cut before its transaction.
use unified_personal_mcp.Prelude.{
  ℕ, String, Bool, false, not, ◌&&◌, Option, none, some, List, [], ◌∷◌, ◌++◌, ◌==◌, eqb,
  if◌then◌else◌,
}
use unified_personal_mcp.Table.{select_one, delete}
use unified_personal_mcp.Tasks.State.{
  window_taken, Result, ok, err, Task, Window, Claim, Store, Codec,
}
use unified_personal_mcp.Tasks.Store.{has_key, is_active, require, resolve_window}

-- `WHERE hwnd=? AND pid=?`
abbrev pub is_claim : ℕ → ℕ → Claim → Bool
is_claim hwnd pid r = eqb r.hwnd hwnd && eqb r.pid pid

-- The window and the task's key, before the transaction.
unfoldable pub claim_check : Codec → String → String → Store → Result (Window × String)
unfolding resolve_window require
claim_check c token window_id s = elim (resolve_window c token window_id s) [
  | err code ↦ err code
  | ok w ↦ elim (require c false token s) [ err code ↦ err code | ok t ↦ ok (w, t.key) ]
]

-- `previous.get("status") == "active"`
abbrev pub was_active : Option Task → Bool
was_active none = false
was_active (some t) = is_active t.status

abbrev pub is_active_task : String → List Task → Bool
is_active_task key tasks = was_active (select_one (has_key key) tasks)

-- Another task that is active has the window.
abbrev pub taken : String → List Task → Option Claim → Bool
taken key tasks none = false
taken key tasks (some r) = not (r.owner == key) && is_active_task r.owner tasks

-- The transaction of `claim_window`.
unfoldable pub claim_insert : ℕ → ℕ → ℕ → String → Store → Result (Unit {0}) × Store
claim_insert now hwnd pid key s =
    if taken key s.tasks (select_one (is_claim hwnd pid) s.claims) then (err window_taken, s) else (
      ok tt,
      record s {
        claims =
            delete (is_claim hwnd pid) s.claims
            ++ record { hwnd = hwnd; pid = pid; owner = key; claimed_at = now } ∷ [];
      },
    )

-- `claim_window` without a call in between.
unfoldable pub claim_window : Codec → ℕ → String → String → Store → Result (Unit {0}) × Store
unfolding claim_check claim_insert
claim_window c now token window_id s = elim (claim_check c token window_id s) [
  | err code ↦ (err code, s)
  | ok (w, key) ↦ claim_insert now w.hwnd w.pid key s
]
