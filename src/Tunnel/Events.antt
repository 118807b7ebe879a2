-- ===== src/Tunnel/Events.antt =====
-- personal_mcp/tunnel_supervisor.py: the calls and threads of a supervisor, as a sequence of events.
use unified_personal_mcp.Prelude.{ℕ, Bool, Option, none, some, List, [], ◌∷◌}
use unified_personal_mcp.Tunnel.Supervisor.{
  Supervisor, Attempt, no_attempt, spawned, begun, with_runner, probing, finishing, start, retry,
  tick, close_begin, close_end,
}
use unified_personal_mcp.Tunnel.Observe.{
  World, observe_begin, observe_renew, observe_probe, observe_update, observe_end,
}

-- A call of `start` or `retry`, a round of the worker, the next part of the recovery thread, and the two
-- parts of `close`.
pub data Event : Type 0 where
  starts retries : Event
  ticks : ℕ → Event
  observes : World → Event
  close_begins : Event
  close_ends : Bool → Event

abbrev pub or_same : Supervisor → Option Supervisor → Supervisor
or_same s none = s
or_same s (some t) = t

-- The next part of `_observe`, if the thread runs.
unfoldable pub advance : World → Attempt → Supervisor → Supervisor
unfolding observe_begin observe_renew observe_probe observe_update observe_end
advance w no_attempt s = s
advance w spawned s = observe_begin s
advance w (begun wish) s = observe_renew w wish s
advance w with_runner s = observe_probe s
advance w probing s = observe_update w s
advance w finishing s = observe_end w.closes s

unfoldable pub step : Event → Supervisor → Supervisor
unfolding start retry tick advance close_begin close_end
step starts s = or_same s (start s)
step retries s = or_same s (retry s)
step (ticks now) s = tick now s
step (observes w) s = advance w s.attempt s
step close_begins s = close_begin s
step (close_ends closes) s = (close_end closes s).1

unfoldable pub steps : List Event → Supervisor → Supervisor
unfolding step
steps [] s = s
steps (e ∷ es) s = steps es (step e s)
