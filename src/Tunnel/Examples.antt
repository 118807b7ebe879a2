-- ===== src/Tunnel/Examples.antt =====
-- Runs of the tunnel supervisor, and its theorems at them.
use unified_personal_mcp.Prelude.{ℕ, true, false, none, List, [], ◌∷◌, ◌≡◌, refl, ◌≤◌, min, arith}
use unified_personal_mcp.Tunnel.Supervisor.{
  probing, Supervisor, new_supervisor, start, retry, failed, close_begin, close_end, closed,
  healthy, retry_delay,
}
use unified_personal_mcp.Tunnel.Observe.{World, says, observe_end}
use unified_personal_mcp.Tunnel.Events.{Event, starts, ticks, observes, steps}
use unified_personal_mcp.Tunnel.Stopping.{Stopped, shutdown_is_for_good}
use unified_personal_mcp.Tunnel.Releasing.{Released, close_is_final}
use unified_personal_mcp.Tunnel.Blocking.{Waits, only_retry_unblocks}
use unified_personal_mcp.Tunnel.Backoff.{retry_delay_grows}

abbrev world : ℕ → World
world now = record {
  now = now;
  retry_base = 1000;
  jitter = 500;
  credentials_changed = says false;
  closes = true;
  closes_again = true;
  creates = says true;
  starts_up = says true;
  is_alive = says true;
  still_alive = says true;
  ready = says true;
  readiness_error = none;
}

abbrev one_round : ℕ → List Event
one_round now =
    ticks now
    ∷ observes (world now)
    ∷ observes (world now)
    ∷ observes (world now)
    ∷ observes (world now)
    ∷ observes (world now)
    ∷ []

abbrev working : Supervisor
unfolding steps
working = steps (starts ∷ one_round 5) new_supervisor

gets_healthy : working.status ≡ healthy
unfolding working
gets_healthy = refl

-- Between the stop test and what the probe writes.
abbrev probing_now : Supervisor
unfolding steps working
probing_now =
    steps (ticks 8 ∷ observes (world 8) ∷ observes (world 8) ∷ observes (world 8) ∷ []) working

is_probing : probing_now.attempt ≡ probing
unfolding probing_now
is_probing = refl

shutdown_is_for_good_example :
    Stopped (steps (one_round 9) (close_begin probing_now))
    × (start (steps (one_round 9) (close_begin probing_now)) ≡ none)
    × (retry (steps (one_round 9) (close_begin probing_now)) ≡ none)
shutdown_is_for_good_example = shutdown_is_for_good probing_now (one_round 9)

closes_well : (close_end true (steps (one_round 9) (close_begin working))).0 ≡ closed
unfolding close_end steps close_begin
closes_well = refl

close_is_final_example :
    Released (steps (one_round 20) (close_end true (steps (one_round 9) (close_begin working))).1)
close_is_final_example = close_is_final working (one_round 9) (one_round 20) true closes_well

only_retry_unblocks_example : Waits 1 (
    steps
      (ticks 7 ∷ starts ∷ ticks 99999 ∷ [])
      (observe_end true (failed 1000 500 6 "TUNNEL_KEY_INVALID" working)))
unfolding working
only_retry_unblocks_example =
    only_retry_unblocks 1000 500 6 "TUNNEL_KEY_INVALID" true working
      (ticks 7 ∷ starts ∷ ticks 99999 ∷ []) refl refl refl (refl, (refl, (refl, tt)))

retry_delay_grows_example :
    (min 30000 1000 ≤ retry_delay 1000 500 2)
    × (retry_delay 1000 500 2 ≤ retry_delay 1000 500 9)
    × (retry_delay 1000 500 9 ≤ 30000)
retry_delay_grows_example = retry_delay_grows 1000 500 2 9 (omega arith)
