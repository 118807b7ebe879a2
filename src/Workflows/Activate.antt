-- ===== src/Workflows/Activate.antt =====
-- personal_mcp/workflows.py: `activate`, cut where the factory runs outside the registry's lock.
use unified_personal_mcp.Prelude.{
  ℕ, String, Bool, true, false, not, ◌||◌, none, some, ◌∷◌, discard, if◌then◌else◌,
}
use unified_personal_mcp.Table.{select_one}
use unified_personal_mcp.Workflows.State.{
  Workflow, Registry, starting, active, expired, cleanup_blocked, startup_failed, Public, Failure,
  Result, ok, err, workflow_inactive, ◌>>=◌, has_key, is_active, is_starting, is_reserved, row,
  set_state, touch, public,
}
use unified_personal_mcp.Workflows.End.{Surroundings, end_row}
use unified_personal_mcp.Workflows.Idle.{lapsed, expire}

pub data Admission : Type 0 where
  refused : Failure → Admission
  renewed : Workflow → Admission
  admitted : Workflow → Admission

-- The decisions on the row, under the gate and the registry's lock.
unfoldable pub activate_row : ℕ → Workflow → Registry → Admission × Registry
unfolding set_state touch
activate_row now w reg =
    if lapsed now w
    then (refused workflow_inactive, set_state w.token_hash expired none reg)
    else if reg.closed || not (is_reserved w.state || is_active w.state)
    then (refused workflow_inactive, reg)
    else if is_active w.state
    then (renewed w, touch w.token_hash now reg)
    else (
      admitted w,
      (let marked = set_state w.token_hash starting none reg in
          record marked { starting = w.token_hash ∷ discard w.token_hash marked.starting }),
    )

-- From the call's `expire` up to the factory.
unfoldable pub activate_start :
    (String → String) → ℕ → Surroundings → String → String → Registry → Admission × Registry
unfolding activate_row row expire
activate_start sha256 idle_timeout env owner token reg =
    let after = expire idle_timeout env reg in
    elim (row sha256 after owner token) [
      | err e ↦ (refused e, after)
      | ok w ↦ activate_row env.now w after
    ]

-- The factory raised.
unfoldable pub activate_failed : String → Registry → Registry
unfolding set_state
activate_failed key reg =
    set_state key cleanup_blocked (some startup_failed)
      (record reg { starting = discard key reg.starting })

-- `self.closed or self._metadata[key]['state'] != 'STARTING'`
unfoldable pub cancelled : String → Registry → Bool
cancelled key reg = elim (select_one (has_key key) reg.metadata) [
  | none ↦ true
  | some w ↦ reg.closed || not (is_starting w.state)
]

-- The factory gave a resource: it is kept, whether or not the start was cancelled meanwhile.
unfoldable pub keep_resource : String → Registry → Registry
keep_resource key reg = record reg {
  resources = key ∷ discard key reg.resources;
  starting = discard key reg.starting;
}

-- The critical section after the factory; `true` if the start was cancelled.
unfoldable pub activate_ready : ℕ → String → Registry → Bool × Registry
unfolding keep_resource cancelled set_state touch
activate_ready now key reg =
    let kept = keep_resource key reg in
    if cancelled key kept
    then (true, touch key now kept)
    else (false, touch key now (set_state key active none kept))

unfoldable pub activate_finish :
    (String → String)
    → Surroundings
    → String
    → String
    → String
    → Registry
    → Result Public × Registry
unfolding activate_ready end_row row public
activate_finish sha256 env owner token key reg =
    let (stopped, after) = activate_ready env.now key reg in
    if stopped
    then (err workflow_inactive, end_row env key after)
    else ((do w ← row sha256 after owner token; ok (public env.now w)), after)
