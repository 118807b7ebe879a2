-- ===== src/Tunnel/Supervisor.antt =====
-- personal_mcp/tunnel_supervisor.py: the fields of `TunnelSupervisor`, `start`, `retry`, `_update`, the
-- round of `_run`, `_dispose`, `_failed` and `close`.
use unified_personal_mcp.Prelude.{
  ℕ, suc, ◌+◌, ◌-◌, ◌*◌, ◌/◌, ◌^◌, min, String, Bool, true, false, not, ◌&&◌, ◌||◌, Option, none,
  some, List, [], ◌∷◌, leb, contains, if◌then◌else◌,
}

pub data Status : Type 0 where
  disabled recovering healthy degraded stopped : Status

-- How far the recovery thread is: there is none, it has been started, it has taken the wish to
-- refresh, it has a runner, it has passed the stop test before the probe, it is in its `finally`.
pub data Attempt : Type 0 where
  no_attempt spawned : Attempt
  begun : Bool → Attempt
  with_runner probing finishing : Attempt

-- The fields that change. Times are milliseconds. `runner` says that there is a runner.
pub record Supervisor : Type 0 where
  pub stop : Bool
  pub worker : Bool
  pub attempt : Attempt
  pub runner : Bool
  pub blocked : Bool
  pub refresh : Bool
  pub starts : ℕ
  pub failures : ℕ
  pub healthy_since : Option ℕ
  pub status : Status
  pub last_success : Option ℕ
  pub error_code : Option String
  pub recovery_attempts : ℕ
  pub next_retry : Option ℕ

-- `__init__`
abbrev pub new_supervisor : Supervisor
new_supervisor = record {
  stop = false;
  worker = false;
  attempt = no_attempt;
  runner = false;
  blocked = false;
  refresh = false;
  starts = 0;
  failures = 0;
  healthy_since = none;
  status = disabled;
  last_success = none;
  error_code = none;
  recovery_attempts = 0;
  next_retry = none;
}

abbrev pub action_required : List String
action_required =
    "TUNNEL_KEY_UNAVAILABLE" ∷ "TUNNEL_KEY_INVALID" ∷ "TUNNEL_CLIENT_HASH_MISMATCH"
    ∷ "TUNNEL_CLIENT_UNAVAILABLE" ∷ "TUNNEL_ALREADY_IN_USE" ∷ "TUNNEL_OWNERSHIP_UNCERTAIN"
    ∷ "INSTANCE_ALREADY_RUNNING" ∷ "OWNED_PROCESS_CLEANUP_INCOMPLETE" ∷ "TUNNEL_CLEANUP_INCOMPLETE"
    ∷ []

pub record Exception : Type 0 where
  pub message : String
  pub is_file_not_found : Bool

-- `_error_code`
unfoldable pub error_code_of : Exception → String
error_code_of exc =
    if contains exc.message action_required
    then exc.message
    else if exc.is_file_not_found
    then "TUNNEL_CLIENT_UNAVAILABLE"
    else "TUNNEL_START_FAILED"

abbrev pub is_idle : Attempt → Bool
is_idle no_attempt = true
is_idle _ = false

-- `start`; `none` if it raises TUNNEL_SUPERVISOR_STOPPED.
unfoldable pub start : Supervisor → Option Supervisor
start s =
    if s.stop
    then none
    else if s.worker
    then some s
    else some (record s { status = recovering; worker = true })

-- `retry`
unfoldable pub retry : Supervisor → Option Supervisor
unfolding start
retry s =
    if s.stop then none else start (record s { blocked = false; refresh = true; next_retry = none })

-- `due is None or clock() >= due`
abbrev pub is_due : ℕ → Option ℕ → Bool
is_due now none = true
is_due now (some due) = leb due now

-- The test in `_run`; the loop runs once there is a worker.
unfoldable pub wants_attempt : ℕ → Supervisor → Bool
wants_attempt now s =
    s.worker
    && not s.stop
    && (not s.blocked || s.refresh)
    && is_idle s.attempt
    && is_due now s.next_retry

-- One round of the loop of `_run`, at the time `now`.
unfoldable pub tick : ℕ → Supervisor → Supervisor
unfolding wants_attempt
tick now s = if wants_attempt now s then record s { attempt = spawned } else s

-- `_dispose`: whether it returned, and the supervisor after it; `closes` says that the runner's `close`
-- returns.
unfoldable pub dispose : Bool → Supervisor → Bool × Supervisor
dispose closes s =
    if s.runner
    then (if closes then (true, record s { runner = false }) else (false, s))
    else (true, s)

-- The delay before the next try, in milliseconds, `base` being retry_base in milliseconds and `jitter`
-- the random number in thousandths.
unfoldable pub retry_delay : ℕ → ℕ → ℕ → ℕ
retry_delay base jitter failures =
    let delay = min 30000 (base * 2 ^ min (failures - 1) 5) in
    min 30000 (delay + delay * jitter / 10000)

-- `_failed`
unfoldable pub failed : ℕ → ℕ → ℕ → String → Supervisor → Supervisor
unfolding retry_delay
failed base jitter now code s =
    let counted : Supervisor = record s { healthy_since = none; failures = suc s.failures } in
    if s.stop
    then counted
    else if contains code action_required
    then record counted {
      blocked = true;
      status = degraded;
      error_code = some code;
      next_retry = none;
    }
    else record counted {
      blocked = false;
      status = recovering;
      error_code = some code;
      next_retry = some (now + retry_delay base jitter (suc s.failures));
    }

-- `close` up to its wait for the threads.
unfoldable pub close_begin : Supervisor → Supervisor
close_begin s = record s { stop = true; status = stopped; next_retry = none }

pub data Closing : Type 0 where
  closed shutdown_incomplete cleanup_incomplete : Closing

-- `close` after its waits; the attempt is alive if it has not ended by then.
unfoldable pub close_end : Bool → Supervisor → Closing × Supervisor
unfolding dispose
close_end closes s =
    if not (is_idle s.attempt)
    then (shutdown_incomplete, s)
    else (let (returned, after) = dispose closes s in
        if returned then (closed, after) else (cleanup_incomplete, after))
