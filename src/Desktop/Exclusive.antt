-- ===== src/Desktop/Exclusive.antt =====
-- bf_automation/lease.py: one caller at a time has the desktop.
use unified_personal_mcp.Prelude.{
  ℕ, zero, suc, ◌≤◌, String, true, false, none, some, List, [], ◌∷◌, ◌≡◌, refl, arith, eq_refl, leb,
  length, is_some, if-cases,
}
use unified_personal_mcp.Desktop.Lease.{
  DesktopLease, Round, take, free, hold_round, hold_async_round, release, Holder, holds,
  holds_async, World, Event, tries, tries_async, leaves, enter, leave, leave_at, step, steps,
}

abbrev token_of : Holder → String
token_of (holds token) = token
token_of (holds_async token) = token

-- The lease is free and no caller is inside, or one is and the lease names it.
abbrev pub Exclusive : DesktopLease → List Holder → Type 0
Exclusive lease [] = lease.owner ≡ none
Exclusive lease (h ∷ []) = lease.owner ≡ some (token_of h)
Exclusive lease (h ∷ g ∷ hs) = true ≡ false

Exclusive-leave :
    (h : Holder) (lease : DesktopLease)
    → lease.owner ≡ some (token_of h)
    → (leave h lease).owner ≡ none
unfolding release
Exclusive-leave (holds token) lease e = rw (e, eq_refl token) refl
Exclusive-leave (holds_async token) lease e = refl

Exclusive-leave_at :
    (n : ℕ) (hs : List Holder) (lease : DesktopLease)
    → Exclusive lease hs
    → let w = leave_at n [] hs lease in Exclusive w.lease w.inside
unfolding leave_at
Exclusive-leave_at n [] lease h = h
Exclusive-leave_at zero (k ∷ []) lease h = Exclusive-leave k lease h
Exclusive-leave_at (suc n) (k ∷ []) lease h = h
Exclusive-leave_at n (k ∷ j ∷ hs) lease h = cc

entered_alone :
    (now : ℕ) (hs : List Holder) (h : Holder) (lease : DesktopLease)
    → Exclusive lease hs
    → is_some lease.owner ≡ false
    → Exclusive (take now (token_of h)) (h ∷ hs)
entered_alone now [] h lease x f = refl
entered_alone now (k ∷ []) h lease x f = let absurd : true ≡ false = rw x at f in cc
entered_alone now (k ∷ j ∷ hs) h lease x f = cc

-- A round of a loop keeps the callers apart.
Exclusive-enter :
    (h : Holder) (deadline now : ℕ) (w : World)
    → Exclusive w.lease w.inside
    → let v = enter h (hold_round deadline now (token_of h) w.lease) w in Exclusive v.lease v.inside
unfolding hold_round
Exclusive-enter h deadline now w x =
    let P : Round × DesktopLease → Type 0 =
      λ r. let v = enter h r w in Exclusive v.lease v.inside in
    if-cases P (is_some w.lease.owner) (λ _. if-cases P (leb deadline now) (λ _. x) (λ _. x))
      (λ f. entered_alone now w.inside h w.lease x f)

Exclusive-step :
    (e : Event) (w : World)
    → Exclusive w.lease w.inside
    → let v = step e w in Exclusive v.lease v.inside
unfolding step hold_async_round hold_round
Exclusive-step (tries deadline now token) w x = Exclusive-enter (holds token) deadline now w x
Exclusive-step (tries_async deadline now token) w x =
    Exclusive-enter (holds_async token) deadline now w x
Exclusive-step (leaves n) w x = Exclusive-leave_at n w.inside w.lease x

Exclusive-steps :
    (es : List Event) (w : World)
    → Exclusive w.lease w.inside
    → let v = steps es w in Exclusive v.lease v.inside
unfolding steps
Exclusive-steps [] w x = x
Exclusive-steps (e ∷ es) w x = Exclusive-steps es (step e w) (Exclusive-step e w x)

Exclusive-length : (lease : DesktopLease) (hs : List Holder) → Exclusive lease hs → length hs ≤ 1
Exclusive-length lease [] x = omega arith
Exclusive-length lease (h ∷ []) x = omega arith
Exclusive-length lease (h ∷ j ∷ hs) x = cc

-- From a free lease, however the rounds of waiting callers and the ends of blocks are mixed, of both kinds
-- and with any tokens: at most one caller is inside a block, the lease names its token, and the lease is
-- free when none is inside.
pub one_caller_at_a_time :
    (es : List Event)
    → let w = steps es (record { lease = free; inside = [] }) in
      (length w.inside ≤ 1) × Exclusive w.lease w.inside
one_caller_at_a_time es =
    let w = steps es (record { lease = free; inside = [] }) in
    let x = Exclusive-steps es (record { lease = free; inside = [] }) refl in
    (Exclusive-length w.lease w.inside x, x)
