-- ===== src/Tunnel/Releasing.antt =====
-- personal_mcp/tunnel_supervisor.py: what is left when `close` has returned.
use unified_personal_mcp.Prelude.{
  ℕ, Bool, true, false, not, List, [], ◌∷◌, ◌≡◌, refl, arith, if-cases,
}
use unified_personal_mcp.Tunnel.Supervisor.{
  Supervisor, Attempt, no_attempt, is_idle, wants_attempt, start, retry, tick, dispose, close_begin,
  close_end, Closing, closed,
}
use unified_personal_mcp.Tunnel.Observe.{World}
use unified_personal_mcp.Tunnel.Events.{
  Event, starts, retries, ticks, observes, close_begins, close_ends, advance, step, steps,
}
use unified_personal_mcp.Tunnel.Stopping.{Stopped, Stopped-step, Stopped-steps}

-- No runner and no thread that could start one.
abbrev pub Released : Supervisor → Type 0
Released s = (s.runner ≡ false) × (s.attempt ≡ no_attempt)

pub advance_none : (w : World) (a : Attempt) (s : Supervisor) → a ≡ no_attempt → advance w a s ≡ s
unfolding advance
advance_none w a s e = rw e refl

idle_none : (a : Attempt) → is_idle a ≡ true → a ≡ no_attempt
idle_none no_attempt h = refl
idle_none a h = ground arith

stopped_wants_none : (now : ℕ) (s : Supervisor) → s.stop ≡ true → wants_attempt now s ≡ false
unfolding wants_attempt
stopped_wants_none now s h = ground arith

Released-dispose : (closes : Bool) (s : Supervisor) → Released s → Released (dispose closes s).1
unfolding dispose
Released-dispose closes s k =
    if-cases (λ (r : Bool × Supervisor). Released r.1) s.runner (λ t. cc) (λ _. k)

dispose-Released :
    (closes : Bool) (s : Supervisor)
    → s.attempt ≡ no_attempt
    → (dispose closes s).0 ≡ true
    → Released (dispose closes s).1
unfolding dispose
dispose-Released closes s i =
    let P : Bool × Supervisor → Type 0 = λ r. r.0 ≡ true → Released r.1 in
    if-cases P s.runner (λ _. if-cases P closes (λ _ _. (refl, i)) (λ _ e. cc)) (λ f _. (f, i))

Released-step : (e : Event) (s : Supervisor) → Stopped s → Released s → Released (step e s)
unfolding step start retry tick close_begin close_end
Released-step starts s h k = rw h.0 k
Released-step retries s h k = rw h.0 k
Released-step (ticks now) s h k = rw (stopped_wants_none now s h.0) k
Released-step (observes w) s h k = rw (advance_none w s.attempt s k.1) k
Released-step close_begins s h k = k
Released-step (close_ends closes) s h k =
    let P : Closing × Supervisor → Type 0 = λ r. Released r.1 in
    if-cases P (not (is_idle s.attempt)) (λ _. k)
      (λ _.
        if-cases P (dispose closes s).0 (λ _. Released-dispose closes s k)
          (λ _. Released-dispose closes s k))

Released-steps : (es : List Event) (s : Supervisor) → Stopped s → Released s → Released (steps es s)
unfolding steps
Released-steps [] s h k = k
Released-steps (e ∷ es) s h k =
    Released-steps es (step e s) (Stopped-step e s h) (Released-step e s h k)

Released-close_end :
    (closes : Bool) (s : Supervisor)
    → (close_end closes s).0 ≡ closed
    → Released (close_end closes s).1
unfolding close_end
Released-close_end closes s =
    let P : Closing × Supervisor → Type 0 = λ r. r.0 ≡ closed → Released r.1 in
    if-cases P (not (is_idle s.attempt)) (λ _ e. cc)
      (λ i.
        if-cases P (dispose closes s).0
          (λ d _. dispose-Released closes s (idle_none s.attempt (ground arith)) d) (λ _ e. cc))

-- A close that returns leaves no runner and no recovery thread, and whatever is called after, none comes
-- back.
pub close_is_final :
    (s : Supervisor) (before after : List Event) (closes : Bool)
    → (close_end closes (steps before (close_begin s))).0 ≡ closed
    → Released (steps after (close_end closes (steps before (close_begin s))).1)
unfolding close_begin step
close_is_final s before after closes e =
    let t = steps before (close_begin s) in
    let h = Stopped-steps before (close_begin s) (refl, refl, refl) in
    Released-steps after (close_end closes t).1 (Stopped-step (close_ends closes) t h)
      (Released-close_end closes t e)
