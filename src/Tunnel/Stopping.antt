-- ===== src/Tunnel/Stopping.antt =====
-- personal_mcp/tunnel_supervisor.py: a supervisor that is closed.
use unified_personal_mcp.Prelude.{
  ℕ, String, Bool, true, false, not, ◌&&◌, none, List, [], ◌∷◌, ◌≡◌, refl, contains, if◌then◌else◌,
  if-cases,
}
use unified_personal_mcp.Tunnel.Supervisor.{
  Supervisor, Exception, Attempt, stopped, no_attempt, spawned, begun, with_runner, probing,
  finishing, error_code_of, action_required, is_idle, start, retry, tick, dispose, failed,
  close_begin, close_end, Closing,
}
use unified_personal_mcp.Tunnel.Observe.{
  World, Answer, on_answer, announce, start_created, says, raises, give_up, spare_child, handle,
  observe_begin, start_runner, ensure_runner, replace_runner, observe_renew, observe_probe, exited,
  healthy_now, not_ready, probe, observe_update, observe_end,
}
use unified_personal_mcp.Tunnel.Events.{
  Event, starts, retries, ticks, observes, close_begins, close_ends, advance, step, steps,
}

-- Closed, as the snapshot shows it.
abbrev pub Stopped : Supervisor → Type 0
Stopped s = (s.stop ≡ true) × (s.status ≡ stopped) × (s.next_retry ≡ none)

Stopped-dispose : (closes : Bool) (s : Supervisor) → Stopped s → Stopped (dispose closes s).1
unfolding dispose
Stopped-dispose closes s h =
    if-cases (λ (r : Bool × Supervisor). Stopped r.1) s.runner
      (λ _. if-cases (λ (r : Bool × Supervisor). Stopped r.1) closes (λ _. h) (λ _. h)) (λ _. h)

answer-cases :
    (P : Supervisor → Type 0) (a : Answer) {handler : Exception → Supervisor} {x y : Supervisor}
    → ((exc : Exception) → P (handler exc))
    → P x
    → P y
    → P (on_answer a handler x y)
answer-cases P (says true) h k l = k
answer-cases P (says false) h k l = l
answer-cases P (raises exc) h k l = h exc

module _ (w : World) where
  Stopped-failed :
      (base jitter now : ℕ) (code : String) (s : Supervisor)
      → Stopped s
      → Stopped (failed base jitter now code s)
  unfolding failed
  Stopped-failed base jitter now code s h = rw h.0 (refl, h.1, h.2)

  Stopped-give_up : (code : String) (s : Supervisor) → Stopped s → Stopped (give_up w code s)
  unfolding give_up
  Stopped-give_up code s h =
      Stopped-failed w.retry_base w.jitter w.now
        (if (dispose w.closes_again s).0 then code else "TUNNEL_CLEANUP_INCOMPLETE")
        (dispose w.closes_again s).1 (Stopped-dispose w.closes_again s h)

  Stopped-spare_child :
      (code : String) (s : Supervisor) → Stopped s → Stopped (spare_child w code s)
  unfolding spare_child
  Stopped-spare_child code s h =
      if-cases (λ t. Stopped t) (contains code action_required)
        (λ _. Stopped-failed w.retry_base w.jitter w.now code s h) (λ _. rw h.0 (refl, h.1, h.2))

  Stopped-handle : (code : String) (s : Supervisor) → Stopped s → Stopped (handle w code s)
  unfolding handle
  Stopped-handle code s h =
      if-cases Stopped (not s.runner) (λ _. Stopped-give_up code s h)
        (λ _.
          answer-cases Stopped w.still_alive
            (λ exc. Stopped-failed w.retry_base w.jitter w.now "TUNNEL_CLEANUP_INCOMPLETE" s h)
            (Stopped-spare_child code s h) (Stopped-give_up code s h))

  Stopped-announce : (s : Supervisor) → Stopped s → Stopped (announce s)
  unfolding announce
  Stopped-announce s h = rw h.0 (refl, h.1, h.2)

  Stopped-start_created : (s : Supervisor) → Stopped s → Stopped (start_created w s)
  unfolding start_created
  Stopped-start_created s h =
      answer-cases Stopped w.starts_up
        (λ exc. Stopped-handle (error_code_of exc) (record s { runner = true }) h) h h

  Stopped-start_runner : (s : Supervisor) → Stopped s → Stopped (start_runner w s)
  unfolding start_runner
  Stopped-start_runner s h =
      let shown = Stopped-announce s h in
      let started = Stopped-start_created (announce s) shown in
      answer-cases Stopped w.creates (λ exc. Stopped-handle (error_code_of exc) (announce s) shown)
        started started

  Stopped-ensure_runner : (s : Supervisor) → Stopped s → Stopped (ensure_runner w s)
  unfolding ensure_runner
  Stopped-ensure_runner s h = if-cases Stopped s.runner (λ _. h) (λ _. Stopped-start_runner s h)

  Stopped-replace_runner : (s : Supervisor) → Stopped s → Stopped (replace_runner w s)
  unfolding replace_runner
  Stopped-replace_runner s h =
      let disposed = Stopped-dispose w.closes s h in
      if-cases Stopped (dispose w.closes s).0
        (λ _. Stopped-ensure_runner (dispose w.closes s).1 disposed)
        (λ _. Stopped-handle "TUNNEL_CLEANUP_INCOMPLETE" (dispose w.closes s).1 disposed)

  Stopped-observe_renew :
      (wish : Bool) (s : Supervisor) → Stopped s → Stopped (observe_renew w wish s)
  unfolding observe_renew
  Stopped-observe_renew wish s h =
      if-cases Stopped (wish && s.runner)
        (λ _.
          answer-cases Stopped w.credentials_changed (λ exc. Stopped-handle (error_code_of exc) s h)
            (Stopped-replace_runner s h) (Stopped-ensure_runner s h))
        (λ _. Stopped-ensure_runner s h)

  Stopped-exited : (s : Supervisor) → Stopped s → Stopped (exited w s)
  unfolding exited
  Stopped-exited s h =
      let disposed = Stopped-dispose w.closes s h in
      if-cases Stopped (dispose w.closes s).0
        (λ _.
          Stopped-failed w.retry_base w.jitter w.now "TUNNEL_PROCESS_EXITED" (dispose w.closes s).1
            disposed)
        (λ _. Stopped-handle "TUNNEL_CLEANUP_INCOMPLETE" (dispose w.closes s).1 disposed)

  Stopped-healthy_now : (s : Supervisor) → Stopped s → Stopped (healthy_now w s)
  unfolding healthy_now
  Stopped-healthy_now s h = rw h.0 (refl, h.1, h.2)

  Stopped-not_ready : (s : Supervisor) → Stopped s → Stopped (not_ready w s)
  unfolding not_ready
  Stopped-not_ready s h = rw h.0 (refl, h.1, h.2)

  Stopped-probe : (s : Supervisor) → Stopped s → Stopped (probe w s)
  unfolding probe
  Stopped-probe s h =
      let failed_probe : (exc : Exception) → Stopped (handle w (error_code_of exc) s) =
        λ exc. Stopped-handle (error_code_of exc) s h in
      answer-cases Stopped w.is_alive failed_probe
        (answer-cases Stopped w.ready failed_probe (Stopped-healthy_now s h)
          (Stopped-not_ready s h))
        (Stopped-exited s h)

  Stopped-observe_update : (s : Supervisor) → Stopped s → Stopped (observe_update w s)
  unfolding observe_update
  Stopped-observe_update s h = Stopped-probe s h

  Stopped-observe_end :
      (closes : Bool) (s : Supervisor) → Stopped s → Stopped (observe_end closes s)
  unfolding observe_end
  Stopped-observe_end closes s h =
      let disposed = Stopped-dispose closes s h in
      if-cases Stopped s.stop
        (λ _. if-cases Stopped (dispose closes s).0 (λ _. disposed) (λ _. disposed)) (λ _. h)

  Stopped-advance : (a : Attempt) (s : Supervisor) → Stopped s → Stopped (advance w a s)
  unfolding advance observe_begin observe_probe
  Stopped-advance no_attempt s h = h
  Stopped-advance spawned s h = if-cases Stopped s.stop (λ _. h) (λ _. h)
  Stopped-advance (begun wish) s h = Stopped-observe_renew wish s h
  Stopped-advance with_runner s h = if-cases Stopped s.stop (λ _. h) (λ _. h)
  Stopped-advance probing s h = Stopped-observe_update s h
  Stopped-advance finishing s h = Stopped-observe_end w.closes s h

pub Stopped-step : (e : Event) (s : Supervisor) → Stopped s → Stopped (step e s)
unfolding step start retry tick close_begin close_end
Stopped-step starts s h = rw h.0 (refl, h.1, h.2)
Stopped-step retries s h = rw h.0 (refl, h.1, h.2)
Stopped-step (ticks now) s h = if-cases Stopped _ (λ _. h) (λ _. h)
Stopped-step (observes w) s h = Stopped-advance w s.attempt s h
Stopped-step close_begins s h = (refl, refl, refl)
Stopped-step (close_ends closes) s h =
    if-cases (λ (r : Closing × Supervisor). Stopped r.1) (not (is_idle s.attempt)) (λ _. h)
      (λ _.
        if-cases (λ (r : Closing × Supervisor). Stopped r.1) (dispose closes s).0
          (λ _. Stopped-dispose closes s h) (λ _. Stopped-dispose closes s h))

pub Stopped-steps : (es : List Event) (s : Supervisor) → Stopped s → Stopped (steps es s)
unfolding steps
Stopped-steps [] s h = h
Stopped-steps (e ∷ es) s h = Stopped-steps es (step e s) (Stopped-step e s h)

refuses_calls : (s : Supervisor) → Stopped s → (start s ≡ none) × (retry s ≡ none)
unfolding start retry
refuses_calls s h = (rw h.0 refl, rw h.0 refl)

-- Once close has begun, whatever the callers and threads do after: the supervisor shows stopped and no
-- next try, and start and retry raise.
pub shutdown_is_for_good :
    (s : Supervisor) (es : List Event)
    → let t = steps es (close_begin s) in Stopped t × (start t ≡ none) × (retry t ≡ none)
unfolding close_begin
shutdown_is_for_good s es =
    let h = Stopped-steps es (close_begin s) (refl, refl, refl) in
    let refused = refuses_calls (steps es (close_begin s)) h in (h, refused.0, refused.1)
