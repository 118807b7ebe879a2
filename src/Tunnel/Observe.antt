-- ===== src/Tunnel/Observe.antt =====
-- personal_mcp/tunnel_supervisor.py: `_observe`, cut where another thread may call `close` or `retry`.
use unified_personal_mcp.Prelude.{
  ℕ, suc, ◌+◌, String, Bool, true, false, not, ◌&&◌, Option, none, some, ◌==◌, leb, contains,
  if◌then◌else◌,
}
use unified_personal_mcp.Tunnel.Supervisor.{
  Supervisor, Exception, recovering, healthy, degraded, no_attempt, begun, with_runner, probing,
  finishing, error_code_of, action_required, dispose, failed,
}

-- What a call of the runner does.
pub data Answer : Type 0 where
  says : Bool → Answer
  raises : Exception → Answer

-- The two branches of a test on the answer, and the handler.
abbrev pub on_answer : Answer → (Exception → Supervisor) → Supervisor → Supervisor → Supervisor
on_answer (says true) handler yes_branch no_branch = yes_branch
on_answer (says false) handler yes_branch no_branch = no_branch
on_answer (raises exc) handler yes_branch no_branch = handler exc

-- What one recovery thread meets outside the supervisor: the clock, the jitter, and what the methods of
-- the runner answer; the handler asks again whether it is alive, and closes it again. `creates` and `starts_up` say `true` if they return.
pub record World : Type 0 where
  pub now : ℕ
  pub retry_base : ℕ
  pub jitter : ℕ
  pub credentials_changed : Answer
  pub closes : Bool
  pub closes_again : Bool
  pub creates : Answer
  pub starts_up : Answer
  pub is_alive : Answer
  pub still_alive : Answer
  pub ready : Answer
  pub readiness_error : Option String

abbrev pub fails : World → String → Supervisor → Supervisor
fails w code s = failed w.retry_base w.jitter w.now code s

-- The end of a try in the handler: `_dispose` and then `_failed`.
unfoldable pub give_up : World → String → Supervisor → Supervisor
unfolding dispose failed
give_up w code s =
    let (returned, after) = dispose w.closes_again s in
    fails w (if returned then code else "TUNNEL_CLEANUP_INCOMPLETE") after

-- A live child may be reconnecting itself: it is not replaced.
unfoldable pub spare_child : World → String → Supervisor → Supervisor
unfolding failed
spare_child w code s =
    if contains code action_required
    then fails w code s
    else if s.stop
    then s
    else record s { status = degraded; error_code = some "TUNNEL_NOT_READY"; next_retry = none }

-- The handler of `except Exception`.
unfoldable pub handle : World → String → Supervisor → Supervisor
unfolding give_up spare_child failed
handle w code s =
    if not s.runner
    then give_up w code s
    else on_answer w.still_alive (λ exc. fails w "TUNNEL_CLEANUP_INCOMPLETE" s)
        (spare_child w code s) (give_up w code s)

-- `if self._stop.is_set(): return`, and the wish to refresh, which is taken.
unfoldable pub observe_begin : Supervisor → Supervisor
observe_begin s =
    if s.stop
    then record s { attempt = finishing }
    else record s { attempt = begun s.refresh; refresh = false }

-- `_update(status='recovering', …)`, and the count.
unfoldable pub announce : Supervisor → Supervisor
announce s = if s.stop then record s { starts = suc s.starts } else record s {
  status = recovering;
  next_retry = none;
  recovery_attempts = s.starts;
  starts = suc s.starts;
}

abbrev pub ends_try : Supervisor → Supervisor
ends_try s = record s { attempt = finishing }

-- The start of the runner that has been created.
unfoldable pub start_created : World → Supervisor → Supervisor
unfolding handle
start_created w s =
    let ready_to_probe : Supervisor = record s { runner = true; attempt = with_runner } in
    on_answer w.starts_up
      (λ exc. ends_try (handle w (error_code_of exc) (record s { runner = true }))) ready_to_probe
      ready_to_probe

-- `if self._runner is None`: a new runner, created and started.
unfoldable pub start_runner : World → Supervisor → Supervisor
unfolding announce start_created handle
start_runner w s =
    let started = start_created w (announce s) in
    on_answer w.creates (λ exc. ends_try (handle w (error_code_of exc) (announce s))) started
      started

unfoldable pub ensure_runner : World → Supervisor → Supervisor
unfolding start_runner
ensure_runner w s = if s.runner then record s { attempt = with_runner } else start_runner w s

-- A runner with changed credentials is disposed of before.
unfoldable pub replace_runner : World → Supervisor → Supervisor
unfolding dispose ensure_runner handle
replace_runner w s =
    let (returned, after) = dispose w.closes s in
    if returned
    then ensure_runner w after
    else ends_try (handle w "TUNNEL_CLEANUP_INCOMPLETE" after)

-- From the refresh to the started runner.
unfoldable pub observe_renew : World → Bool → Supervisor → Supervisor
unfolding replace_runner ensure_runner handle
observe_renew w wish s =
    if wish && s.runner
    then on_answer w.credentials_changed (λ exc. ends_try (handle w (error_code_of exc) s))
        (replace_runner w s) (ensure_runner w s)
    else ensure_runner w s

-- The runner has ended: `_dispose` and `_failed`, or the handler if `_dispose` raises.
unfoldable pub exited : World → Supervisor → Supervisor
unfolding dispose failed handle
exited w s =
    let (returned, after) = dispose w.closes s in
    if returned
    then fails w "TUNNEL_PROCESS_EXITED" after
    else handle w "TUNNEL_CLEANUP_INCOMPLETE" after

abbrev pub since : ℕ → Option ℕ → ℕ
since now none = now
since now (some t) = t

unfoldable pub healthy_now : World → Supervisor → Supervisor
healthy_now w s =
    let noted : Supervisor = record s {
      healthy_since = some (since w.now s.healthy_since);
      failures = if leb (since w.now s.healthy_since + 60000) w.now then 0 else s.failures;
    } in
    if s.stop then noted else record noted {
      status = healthy;
      last_success = some w.now;
      error_code = none;
      next_retry = none;
    }

-- `getattr(self._runner, 'readiness_error', None) or 'TUNNEL_NOT_READY'`
abbrev pub not_ready_code : Option String → String
not_ready_code none = "TUNNEL_NOT_READY"
not_ready_code (some code) = if code == "" then "TUNNEL_NOT_READY" else code

unfoldable pub not_ready : World → Supervisor → Supervisor
not_ready w s =
    let noted : Supervisor = record s { healthy_since = none } in
    if s.stop then noted else record noted {
      status = degraded;
      error_code = some (not_ready_code w.readiness_error);
      next_retry = none;
    }

-- The probe of the runner.
unfoldable pub probe : World → Supervisor → Supervisor
unfolding exited healthy_now not_ready handle
probe w s =
    on_answer w.is_alive (λ exc. handle w (error_code_of exc) s)
      (on_answer w.ready (λ exc. handle w (error_code_of exc) s) (healthy_now w s) (not_ready w s))
      (exited w s)

-- The stop test before the probe.
unfoldable pub observe_probe : Supervisor → Supervisor
observe_probe s = if s.stop then ends_try s else record s { attempt = probing }

-- The probe and what it writes; `close` may have begun since the stop test.
unfoldable pub observe_update : World → Supervisor → Supervisor
unfolding probe
observe_update w s = ends_try (probe w s)

-- The `finally`, and the end of the thread.
unfoldable pub observe_end : Bool → Supervisor → Supervisor
unfolding dispose
observe_end closes s =
    if s.stop
    then (let (returned, after) = dispose closes s in
        if returned
        then record after { attempt = no_attempt }
        else record after { attempt = no_attempt; error_code = some "TUNNEL_CLEANUP_INCOMPLETE" })
    else record s { attempt = no_attempt }
