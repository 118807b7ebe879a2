-- ===== src/Workflows/Idle.antt =====
-- personal_mcp/workflows.py: `release_idle` and `expire`.
use unified_personal_mcp.Prelude.{
  ℕ, ◌+◌, String, Bool, not, ◌&&◌, Option, none, some, List, [], ◌∷◌, leb, ltb, contains,
  if◌then◌else◌,
}
use unified_personal_mcp.Table.{select, update}
use unified_personal_mcp.Workflows.State.{
  Workflow, Registry, ResumeResponse, expired, Public, Result, ok, err, workflow_not_idle,
  request_in_progress, workflow_state, recent_activity, resource_state_unknown, active_resources,
  ◌>>=◌, is_live, is_active, is_reserved, reference_row, public,
}
use unified_personal_mcp.Workflows.End.{Surroundings, end_row}

-- What the resource of a workflow answers; without one the call raises, which counts as no answer.
unfoldable pub blockers : Surroundings → String → Registry → Option (List String)
blockers env key reg = if contains key reg.resources then env.idle_blockers key else none

-- The end of `release_idle`, once the resource has answered.
unfoldable pub release_unblocked :
    Surroundings → String → String → Option (List String) → Registry → Result Public × Registry
unfolding end_row public reference_row
release_unblocked env owner key none reg = (err (workflow_not_idle resource_state_unknown), reg)
release_unblocked env owner key (some (b ∷ bs)) reg =
    (err (workflow_not_idle (active_resources (b ∷ bs))), reg)
release_unblocked env owner key (some []) reg =
    let after = end_row env key reg in
    ((do w ← reference_row after owner (some key); ok (public env.now w)), after)

-- The decisions that `release_idle` makes on the row once it has the gate.
unfoldable pub release_row :
    ℕ → Surroundings → String → Workflow → Registry → Result Public × Registry
unfolding release_unblocked blockers
release_row idle_timeout env owner w reg =
    if not (is_live w.state)
    then (ok (public env.now w), reg)
    else if reg.closed
    then (err (workflow_not_idle workflow_state), reg)
    else if not (is_active w.state)
    then (err (workflow_not_idle workflow_state), reg)
    else if not (leb (reg.inflight w.token_hash) 0)
    then (err (workflow_not_idle request_in_progress), reg)
    else if ltb env.now (w.last_activity + idle_timeout)
    then (err (workflow_not_idle recent_activity), reg)
    else release_unblocked env owner w.token_hash (blockers env w.token_hash reg) reg

unfoldable pub release_idle :
    ℕ → Surroundings → String → Option String → Registry → Result Public × Registry
unfolding release_row
release_idle idle_timeout env owner workflow_ref reg = elim (reference_row reg owner workflow_ref) [
  | err e ↦ (err e, reg)
  | ok w ↦
      if env.gate_free w.token_hash
      then release_row idle_timeout env owner w reg
      else (err (workflow_not_idle request_in_progress), reg)
]

-- `state='RESERVED' AND expires<=now`
abbrev pub lapsed : ℕ → Workflow → Bool
lapsed now w = is_reserved w.state && leb w.expires now

abbrev pub mark_expired : Workflow → Workflow
mark_expired w = record w { state = expired }

-- `UPDATE workflow_resume_responses SET response=NULL WHERE expires<=now`
unfoldable pub drop_responses : ℕ → List ResumeResponse → List ResumeResponse
drop_responses now = update (λ r. leb r.expires now) (λ r. record r { response = none })

-- The transaction of `expire`.
unfoldable pub expire_reserved : Surroundings → Registry → Registry
unfolding drop_responses
expire_reserved env reg = record reg {
  rows = update (lapsed env.now) mark_expired reg.rows;
  metadata = update (λ m. lapsed (env.cached_now m.token_hash) m) mark_expired reg.metadata;
  responses = drop_responses env.dropped_now reg.responses;
}

-- The loop of `expire` over the idle workflows; a `WorkflowError` is passed over.
unfoldable pub release_all : ℕ → Surroundings → List Workflow → Registry → Registry
unfolding release_idle
release_all idle_timeout env [] reg = reg
release_all idle_timeout env (w ∷ ws) reg =
    release_all idle_timeout env ws
      (release_idle idle_timeout (record env { now = env.release_now w.token_hash }) w.owner
        (some w.token_hash) reg).1

-- The rows of `expire`'s second `SELECT`: active, and without activity for the idle time.
abbrev pub idle_rows : ℕ → ℕ → Registry → List Workflow
idle_rows idle_timeout now reg =
    select (λ w. is_active w.state && leb (w.last_activity + idle_timeout) now) reg.rows

unfoldable pub expire : ℕ → Surroundings → Registry → Registry
unfolding release_all expire_reserved
expire idle_timeout env reg =
    let after = expire_reserved env reg in
    release_all idle_timeout env (idle_rows idle_timeout env.idle_now after) after
