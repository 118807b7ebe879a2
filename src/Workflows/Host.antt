-- ===== src/Workflows/Host.antt =====
-- personal_mcp/workflows.py: what the host calls: the restart in `__init__`, `status`,
-- `closed_operation_owners`, `close` and `recover`.
use unified_personal_mcp.Prelude.{
  ℕ, ℤ, difference, String, Bool, true, false, not, ◌||◌, some, List, [], ◌∷◌, map, contains,
  length,
}
use unified_personal_mcp.Table.{select, update}
use unified_personal_mcp.Workflows.State.{
  Workflow, Registry, State, cleanup_blocked, starting, active, closing, host_restarted, Public,
  Result, ok, err, cleanup_failed, ◌>>=◌, is_live, is_blocked, row, public,
}
use unified_personal_mcp.Workflows.End.{Surroundings, end_row}
use unified_personal_mcp.Workflows.Idle.{expire}

-- `state IN ('STARTING','ACTIVE','CLOSING')`
abbrev pub is_running : State → Bool
is_running starting = true
is_running active = true
is_running closing = true
is_running _ = false

abbrev pub mark_restarted : Workflow → Workflow
mark_restarted w = record w { state = cleanup_blocked; error = some host_restarted }

-- A new process over the tables that the last one left.
unfoldable pub restart : Registry → Registry
restart reg =
    let rows = update (λ w. is_running w.state) mark_restarted reg.rows in
    record {
      rows = rows;
      credentials = reg.credentials;
      responses = reg.responses;
      metadata = rows;
      resources = [];
      starting = [];
      inflight = λ k. 0;
      write_held = [];
      queued = [];
      closed = false;
    }

unfoldable pub status : (String → String) → ℕ → String → String → Registry → Result Public
unfolding row public
status sha256 now owner token reg = do w ← row sha256 reg owner token; ok (public now w)

unfoldable pub closed_operation_owners : Registry → List String
closed_operation_owners reg =
    map (λ w. w.token_hash) (select (λ w. not (is_live w.state)) reg.metadata)

-- `for row in rows: self._end(row)`
unfoldable pub end_all : Surroundings → List Workflow → Registry → Registry
unfolding end_row
end_all env [] reg = reg
end_all env (w ∷ ws) reg = end_all env ws (end_row env w.token_hash reg)

-- The rows that `close` ends: those with a resource, or about to have one.
abbrev pub held_rows : Registry → List Workflow
held_rows reg =
    select (λ w. contains w.token_hash reg.resources || contains w.token_hash reg.starting) reg.rows

unfoldable pub close : Surroundings → Registry → Result (Unit {0}) × Registry
unfolding end_all
close env reg =
    let stopped : Registry = record reg { closed = true } in
    let after = end_all env (held_rows stopped) stopped in
    (
      elim after.resources [
        | k ∷ ks ↦ err cleanup_failed
        | [] ↦ elim after.starting [ k ∷ ks ↦ err cleanup_failed | [] ↦ ok tt ]
      ],
      after,
    )

abbrev pub blocked_rows : Registry → List Workflow
blocked_rows reg = select (λ w. is_blocked w.state) reg.rows

-- The count of recovered workflows, less those that `expire` newly blocked, and of blocked ones.
unfoldable pub recover : ℕ → Surroundings → Registry → (ℤ × ℕ) × Registry
unfolding end_all expire
recover idle_timeout env reg =
    let rows = blocked_rows reg in
    let after = expire idle_timeout env (end_all env rows reg) in
    let blocked = length (blocked_rows after) in
    ((difference (length rows) blocked, blocked), after)
