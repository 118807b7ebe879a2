-- ===== src/Workflows/End.antt =====
-- personal_mcp/workflows.py: `_end` and `end`. `_end` is cut where it waits: `end_start` is what it
-- does before it asks for the workflow's gate, `end_finish` what it does when the wait is over.
use unified_personal_mcp.Prelude.{
  ℕ, String, Bool, true, false, not, Option, none, some, List, leb, contains, discard,
  if◌then◌else◌,
}
use unified_personal_mcp.Table.{select_one}
use unified_personal_mcp.Workflows.State.{
  Registry, State, closing, cleanup_blocked, ended, Public, Result, ok, err, cleanup_in_progress,
  requests_in_progress, cleanup_failed, ◌>>=◌, has_key, is_live, is_ended, is_reserved, row,
  set_state, public,
}

-- What the registry asks of everything outside it during one call: the clock, whether the gate of a
-- workflow is free before the deadline, what a resource answers to `idle_blockers` (`none`: it
-- raised or gave no list), whether its `close` returns, and the optional `recovery`. `expire` reads the clock
-- again: for each cached row, for the replies, for its `SELECT`, and in each `release_idle`.
pub record Surroundings : Type 0 where
  pub now : ℕ
  pub gate_free : String → Bool
  pub idle_blockers : String → Option (List String)
  pub closes : String → Bool
  pub recovery : Option (String → Bool)
  pub cached_now : String → ℕ
  pub dropped_now : ℕ
  pub idle_now : ℕ
  pub release_now : String → ℕ

-- The state before the call, if there is something to end. A missing row is the source's
-- `dict(None)`, which raises; rows are never deleted.
unfoldable pub end_start : String → Registry → Option State × Registry
end_start key reg = elim (select_one (has_key key) reg.rows) [
  | none ↦ (none, reg)
  | some w ↦ if is_live w.state then (some w.state, set_state key closing none reg) else (none, reg)
]

-- `self._metadata[key]['state'] == 'ENDED'`
abbrev pub metadata_ended : String → Registry → Bool
metadata_ended key reg = elim (select_one (has_key key) reg.metadata) [
  | none ↦ false
  | some w ↦ is_ended w.state
]

unfoldable pub recovered : Option (String → Bool) → String → Bool
recovered none key = false
recovered (some f) key = f key

-- The `try`: whether the resource closed, or a workflow without one could be recovered.
unfoldable pub released : Surroundings → String → State → Registry → Bool
unfolding recovered
released env key prior reg =
    if contains key reg.resources
    then env.closes key
    else if is_reserved prior
    then true
    else recovered env.recovery key

unfoldable pub end_finish : Surroundings → String → State → Registry → Registry
unfolding released
end_finish env key prior reg =
    if not (env.gate_free key)
    then if metadata_ended key reg
      then reg
      else set_state key cleanup_blocked (some cleanup_in_progress) reg
    else if metadata_ended key reg
    then reg
    else if not (leb (reg.inflight key) 0)
    then set_state key cleanup_blocked (some requests_in_progress) reg
    else if contains key reg.starting
    then set_state key cleanup_blocked (some requests_in_progress) reg
    else if released env key prior reg
    then set_state key ended none (record reg { resources = discard key reg.resources })
    else set_state key cleanup_blocked (some cleanup_failed) reg

-- The whole `_end`, when no other call comes between.
unfoldable pub end_row : Surroundings → String → Registry → Registry
unfolding end_start end_finish
end_row env key reg =
    let (prior, started) = end_start key reg in
    elim prior [ none ↦ started | some state ↦ end_finish env key state started ]

-- `end`
unfoldable pub end :
    (String → String) → Surroundings → String → String → Registry → Result Public × Registry
unfolding end_row row public
end sha256 env owner token reg = elim (row sha256 reg owner token) [
  | err e ↦ (err e, reg)
  | ok w ↦
      let after = end_row env w.token_hash reg in
      ((do found ← row sha256 after owner token; ok (public env.now found)), after)
]
