-- ===== src/Workflows/World.antt =====
-- Interleavings of the calls of `WorkflowRegistry`: a schedule is a list of calls, and `runs` performs them
-- one after the other. `activate`, `use` and `_end` come in parts, cut where the source releases its lock;
-- `begin`, `resume`, `release_idle`, `expire`, `close` and `recover` are one step each, with the `_end` calls in them.
use unified_personal_mcp.Prelude.{
  ℕ, String, Bool, false, Option, none, some, List, [], ◌∷◌, contains, is_some, if◌then◌else◌,
}
use unified_personal_mcp.Workflows.State.{FilePath, Access, State, Registry}
use unified_personal_mcp.Workflows.End.{Surroundings, end_start, end_finish}
use unified_personal_mcp.Workflows.Idle.{release_idle, expire}
use unified_personal_mcp.Workflows.Begin.{Beginning, begin}
use unified_personal_mcp.Workflows.Activate.{activate_start, activate_failed, activate_ready}
use unified_personal_mcp.Workflows.Use.{use_request, use_admit, use_exit}
use unified_personal_mcp.Workflows.Resume.{Vault, resume}
use unified_personal_mcp.Workflows.Host.{restart, close, recover}

-- The registry, and the keys of the calls of `_end` that have begun and not returned.
pub record World : Type 0 where
  pub registry : Registry
  pub ending : List String

pub data Call : Type 0 where
  begin_call :
      Beginning → Surroundings → String → Option FilePath → String → Option Access → ℕ → Call
  activate_call : Surroundings → String → String → Call
  factory_failed : String → Call
  factory_ready : ℕ → String → Call
  use_call : ℕ → ℕ → String → String → Bool → Bool → Call
  admit_call : ℕ → ℕ → String → String → String → Bool → Bool → Bool → Call
  exit_call : ℕ → String → Bool → Bool → Bool → Call
  resume_call : Vault → ℕ → ℕ → String → String → Option String → String → ℕ → Call
  release_call : Surroundings → String → Option String → Call
  expire_call : Surroundings → Call
  end_begins : String → Call
  end_returns : Surroundings → String → State → Call
  close_call : Surroundings → Call
  recover_call : Surroundings → Call
  restart_call : Call

-- The registry before any call.
abbrev pub no_workflows : Registry
no_workflows = record {
  rows = [];
  credentials = [];
  responses = [];
  metadata = [];
  resources = [];
  starting = [];
  inflight = λ k. 0;
  write_held = [];
  queued = [];
  closed = false;
}

abbrev pub start : World
start = record { registry = no_workflows; ending = [] }

unfoldable pub admitted_registry {ℓ} : {A : Type ℓ} → Registry → Option (A × Registry) → Registry
admitted_registry reg none = reg
admitted_registry reg (some out) = out.1

abbrev pub with_registry : World → Registry → World
with_registry w reg = record w { registry = reg }

-- A call that is not under way does nothing: a factory answers for a key that is starting, and an
-- `_end` returns that has begun. A call blocked by a gate waits.
unfoldable pub perform : (String → String) → ℕ → Call → World → World
unfolding admitted_registry
perform sha256 idle (begin_call b env owner project request_id access ttl) w =
    with_registry w (begin b env owner project request_id access ttl w.registry).1
perform sha256 idle (activate_call env owner token) w =
    with_registry w (activate_start sha256 idle env owner token w.registry).1
perform sha256 idle (factory_failed key) w =
    if contains key w.registry.starting then with_registry w (activate_failed key w.registry) else w
perform sha256 idle (factory_ready now key) w =
    if contains key w.registry.starting
    then with_registry w (activate_ready now key w.registry).1
    else w
perform sha256 idle (use_call ticket now owner token writes control) w =
    with_registry w (use_request sha256 ticket now owner token writes control w.registry).1
perform sha256 idle (admit_call ticket now owner token key writes control touches) w =
    with_registry w (
      admitted_registry w.registry
        (use_admit sha256 ticket now owner token key writes control touches w.registry))
perform sha256 idle (exit_call now key writes control touches) w =
    with_registry w (use_exit now key writes control touches w.registry)
perform sha256 idle (resume_call vault ttl now token owner workflow_ref request_id generation) w =
    with_registry w
      (resume vault ttl now token owner workflow_ref request_id generation w.registry).1
perform sha256 idle (release_call env owner workflow_ref) w =
    with_registry w (release_idle idle env owner workflow_ref w.registry).1
perform sha256 idle (expire_call env) w = with_registry w (expire idle env w.registry)
perform sha256 idle (end_begins key) w =
    let (prior, reg) = end_start key w.registry in
    record { registry = reg; ending = if is_some prior then key ∷ w.ending else w.ending }
perform sha256 idle (end_returns env key prior) w =
    if contains key w.ending then with_registry w (end_finish env key prior w.registry) else w
perform sha256 idle (close_call env) w = with_registry w (close env w.registry).1
perform sha256 idle (recover_call env) w = with_registry w (recover idle env w.registry).1
perform sha256 idle restart_call w = record { registry = restart w.registry; ending = [] }

unfoldable pub runs : (String → String) → ℕ → List Call → World → World
unfolding perform
runs sha256 idle [] w = w
runs sha256 idle (c ∷ calls) w = runs sha256 idle calls (perform sha256 idle c w)
