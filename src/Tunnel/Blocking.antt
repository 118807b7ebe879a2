-- ===== src/Tunnel/Blocking.antt =====
-- personal_mcp/tunnel_supervisor.py: failures that need the user.
use unified_personal_mcp.Prelude.{
  ℕ, String, Bool, true, false, not, Option, List, [], ◌∷◌, ◌≡◌, refl, arith, All, contains,
  if-cases,
}
use unified_personal_mcp.Tunnel.Supervisor.{
  Supervisor, Closing, no_attempt, is_idle, action_required, wants_attempt, start, tick, dispose,
  failed, close_begin, close_end,
}
use unified_personal_mcp.Tunnel.Observe.{observe_end}
use unified_personal_mcp.Tunnel.Events.{
  Event, starts, retries, ticks, observes, close_begins, close_ends, step, steps, or_same,
}
use unified_personal_mcp.Tunnel.Releasing.{advance_none}

abbrev pub is_retry : Event → Bool
is_retry retries = true
is_retry _ = false

-- Blocked, with no thread that could unblock it, after this many starts.
abbrev pub Waits : ℕ → Supervisor → Type 0
Waits n s = (s.blocked ≡ true) × (s.refresh ≡ false) × (s.attempt ≡ no_attempt) × (s.starts ≡ n)

Waits-dispose : (n : ℕ) (closes : Bool) (s : Supervisor) → Waits n s → Waits n (dispose closes s).1
unfolding dispose
Waits-dispose n closes s h =
    let P : Bool × Supervisor → Type 0 = λ r. Waits n r.1 in
    if-cases P s.runner (λ _. if-cases P closes (λ _. h) (λ _. h)) (λ _. h)

Waits-start : (n : ℕ) (s : Supervisor) → Waits n s → Waits n (or_same s (start s))
unfolding start
Waits-start n s h =
    let P : Option Supervisor → Type 0 = λ r. Waits n (or_same s r) in
    if-cases P s.stop (λ _. h) (λ _. if-cases P s.worker (λ _. h) (λ _. h))

blocked_wants_none :
    (now : ℕ) (s : Supervisor) → s.blocked ≡ true → s.refresh ≡ false → wants_attempt now s ≡ false
unfolding wants_attempt
blocked_wants_none now s b r = ground arith

Waits-step :
    (n : ℕ) (e : Event) (s : Supervisor) → is_retry e ≡ false → Waits n s → Waits n (step e s)
unfolding step tick close_begin close_end
Waits-step n starts s ne h = Waits-start n s h
Waits-step n retries s ne h = cc
Waits-step n (ticks now) s ne h = rw (blocked_wants_none now s h.0 h.1) h
Waits-step n (observes w) s ne h = rw (advance_none w s.attempt s h.2) h
Waits-step n close_begins s ne h = h
Waits-step n (close_ends closes) s ne h =
    let P : Closing × Supervisor → Type 0 = λ r. Waits n r.1 in
    if-cases P (not (is_idle s.attempt)) (λ _. h)
      (λ _.
        if-cases P (dispose closes s).0 (λ _. Waits-dispose n closes s h)
          (λ _. Waits-dispose n closes s h))

Waits-steps :
    (n : ℕ) (es : List Event) (s : Supervisor)
    → All (λ e. is_retry e ≡ false) es
    → Waits n s
    → Waits n (steps es s)
unfolding steps
Waits-steps n [] s ne h = h
Waits-steps n (e ∷ es) s ne h = Waits-steps n es (step e s) ne.1 (Waits-step n e s ne.0 h)

-- After a failure that needs the user, of a supervisor that is not closed and not asked to refresh, no
-- event but retry starts a runner or a recovery thread.
pub only_retry_unblocks :
    (base jitter now : ℕ) (code : String) (closes : Bool) (s : Supervisor) (es : List Event)
    → s.stop ≡ false
    → s.refresh ≡ false
    → contains code action_required ≡ true
    → All (λ e. is_retry e ≡ false) es
    → Waits s.starts (steps es (observe_end closes (failed base jitter now code s)))
unfolding observe_end failed
only_retry_unblocks base jitter now code closes s es going fresh needed ne =
    Waits-steps s.starts es (observe_end closes (failed base jitter now code s)) ne
      (rw (going, needed) (refl, fresh, refl, refl))
