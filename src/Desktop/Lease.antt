-- ===== src/Desktop/Lease.antt =====
-- bf_automation/lease.py: `DesktopLease`; a round of a waiting loop and a release are one step each, since
-- both hold the condition.
use unified_personal_mcp.Prelude.{
  ℕ, zero, suc, ◌++◌, ◌-◌, String, Bool, false, Option, none, some, List, [], ◌∷◌, ◌==◌, leb,
  is_some, if◌then◌else◌,
}

pub record DesktopLease : Type 0 where
  pub owner : Option String
  pub acquired_at : Option ℕ

pub data Round : Type 0 where
  acquired waits timed_out : Round

abbrev pub take : ℕ → String → DesktopLease
take now token = record { owner = some token; acquired_at = some now }

abbrev pub free : DesktopLease
free = record { owner = none; acquired_at = none }

-- A round of the loop of `hold`: the owner is looked at before the deadline.
unfoldable pub hold_round : ℕ → ℕ → String → DesktopLease → Round × DesktopLease
hold_round deadline now token lease =
    if is_some lease.owner
    then (if leb deadline now then (timed_out, lease) else (waits, lease))
    else (acquired, take now token)

-- A round of the loop of `hold_async`.
unfoldable pub hold_async_round : ℕ → ℕ → String → DesktopLease → Round × DesktopLease
hold_async_round deadline now token lease =
    if is_some lease.owner
    then (if leb deadline now then (timed_out, lease) else (waits, lease))
    else (acquired, take now token)

abbrev pub owned_by : String → Option String → Bool
owned_by token none = false
owned_by token (some owner) = owner == token

-- The `finally` of `hold`.
unfoldable pub release : String → DesktopLease → DesktopLease
release token lease = if owned_by token lease.owner then free else lease

-- The `finally` of `hold_async`.
abbrev pub release_async : DesktopLease → DesktopLease
release_async lease = free

pub data Availability : Type 0 where
  available owned_by_task owned_by_other_task : Availability

abbrev pub age : ℕ → Option ℕ → ℕ
age now none = 0
age now (some since) = if leb since 0 then 0 else now - since

-- `status`: the state and the age, before it is rounded. A time of zero counts as none.
unfoldable pub status : ℕ → Option String → DesktopLease → Availability × ℕ
status now token lease = elim lease.owner [
  | none ↦ (available, 0)
  | some owner ↦
      if owned_by owner token
      then (owned_by_task, age now lease.acquired_at)
      else (owned_by_other_task, age now lease.acquired_at)
]

-- A caller in the block of `hold` or `hold_async`.
pub data Holder : Type 0 where
  holds holds_async : String → Holder

-- The lease, and the callers that are inside a block.
pub record World : Type 0 where
  pub lease : DesktopLease
  pub inside : List Holder

-- A round of a waiting loop, and the end of a block: of the caller at this place among those inside.
pub data Event : Type 0 where
  tries tries_async : ℕ → ℕ → String → Event
  leaves : ℕ → Event

-- The caller enters its block exactly when its round acquires the lease.
abbrev pub enter : Holder → Round × DesktopLease → World → World
enter h (acquired, lease) w = record { lease = lease; inside = h ∷ w.inside }
enter h (_, lease) w = record w { lease = lease }

abbrev pub leave : Holder → DesktopLease → DesktopLease
leave (holds token) = release token
leave (holds_async token) = release_async

-- The caller at a place of the list leaves.
unfoldable pub leave_at : ℕ → List Holder → List Holder → DesktopLease → World
unfolding release
leave_at n before [] lease = record { lease = lease; inside = before }
leave_at zero before (h ∷ hs) lease = record { lease = leave h lease; inside = before ++ hs }
leave_at (suc n) before (h ∷ hs) lease = leave_at n (before ++ h ∷ []) hs lease

unfoldable pub step : Event → World → World
unfolding hold_round hold_async_round leave_at
step (tries deadline now token) w = enter (holds token) (hold_round deadline now token w.lease) w
step (tries_async deadline now token) w =
    enter (holds_async token) (hold_async_round deadline now token w.lease) w
step (leaves n) w = leave_at n [] w.inside w.lease

unfoldable pub steps : List Event → World → World
unfolding step
steps [] w = w
steps (e ∷ es) w = steps es (step e w)
