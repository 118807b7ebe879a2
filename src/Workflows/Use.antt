-- ===== src/Workflows/Use.antt =====
-- personal_mcp/workflows.py: `use`, cut where it waits for the write gate and where it yields.
use unified_personal_mcp.Prelude.{
  ℕ, ◌+◌, ◌-◌, String, Bool, not, ◌&&◌, ◌||◌, Option, none, some, [], ◌∷◌, ◌++◌, ◌==◌, leb,
  contains, discard, if◌then◌else◌,
}
use unified_personal_mcp.Table.{delete}
use unified_personal_mcp.Workflows.State.{
  Workflow, Registry, Queued, Result, ok, err, workflow_inactive, read_only_workflow, is_active,
  is_write, row, touch,
}

abbrev pub same_ticket : ℕ → Queued → Bool
same_ticket ticket q = leb q.ticket ticket && leb ticket q.ticket

-- `write and not control`: the calls that take the write gate.
abbrev pub takes_gate : Bool → Bool → Bool
takes_gate writes control = writes && not control

-- Up to the write gate: a writer is queued under its ticket. The result is the workflow's key.
unfoldable pub use_request :
    (String → String)
    → ℕ
    → ℕ
    → String
    → String
    → (writes control : Bool) → Registry
    → Result String × Registry
unfolding row
use_request sha256 ticket now owner token writes control reg = elim (row sha256 reg owner token) [
  | err e ↦ (err e, reg)
  | ok w ↦ (
    ok w.token_hash,
    if takes_gate writes control
        then record reg {
          queued =
              reg.queued
              ++ record { ticket = ticket; key = w.token_hash; project = w.project; since = now }
                ∷ [];
        }
        else reg,
  )
]

-- One more call in flight; a writer holds its gate.
unfoldable pub enter : String → Bool → Registry → Registry
enter key gated reg = record reg {
  inflight = λ k. if k == key then reg.inflight k + 1 else reg.inflight k;
  write_held = if gated then key ∷ reg.write_held else reg.write_held;
}

-- The checks on the row once the gates are taken, and the admission.
unfoldable pub use_row :
    ℕ → String → (writes control touches : Bool) → Workflow → Registry → Result String × Registry
unfolding enter touch
use_row now key writes control touches w reg =
    if reg.closed || not (is_active w.state) || not (contains key reg.resources)
    then (err workflow_inactive, reg)
    else if writes && not (is_write w.access)
    then (err read_only_workflow, reg)
    else (
      ok key,
      enter key (takes_gate writes control) (if touches then touch key now reg else reg),
    )

-- The admission of a request, which has the write gate of the workflow `key` that its first look has found:
-- `none` while another writer holds it. The row is read again; its credential still names the same key.
unfoldable pub use_admit :
    (String → String)
    → ℕ
    → ℕ
    → String
    → String
    → String
    → (writes control touches : Bool) → Registry
    → Option (Result String × Registry)
unfolding use_row row
use_admit sha256 ticket now owner token key writes control touches reg =
    if takes_gate writes control && contains key reg.write_held
    then none
    else some (
        let unqueued = record reg { queued = delete (same_ticket ticket) reg.queued } in
        elim (row sha256 unqueued owner token) [
          | err e ↦ (err e, unqueued)
          | ok w ↦ use_row now w.token_hash writes control touches w unqueued
        ])

-- After the caller's block, returned or raised.
unfoldable pub use_exit : ℕ → String → (writes control touches : Bool) → Registry → Registry
unfolding touch
use_exit now key writes control touches reg =
    let left : Registry = record reg {
      inflight = λ k. if k == key then reg.inflight k - 1 else reg.inflight k;
      write_held = if takes_gate writes control then discard key reg.write_held else reg.write_held;
    } in
    if touches then touch key now left else left
