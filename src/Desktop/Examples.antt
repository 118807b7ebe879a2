-- ===== src/Desktop/Examples.antt =====
-- Runs of the desktop lease, and its theorem at one.
use unified_personal_mcp.Prelude.{◌≤◌, some, List, [], ◌∷◌, ◌≡◌, refl, length}
use unified_personal_mcp.Desktop.Lease.{
  World, Event, free, tries, tries_async, leaves, holds_async, steps, status, owned_by_task,
}
use unified_personal_mcp.Desktop.Exclusive.{Exclusive, one_caller_at_a_time}

-- One request has the desktop, another of the same workflow waits and gets it.
abbrev two_requests : List Event
two_requests = tries 30 1 "a" ∷ tries_async 31 2 "a" ∷ leaves 0 ∷ tries_async 31 3 "a" ∷ []

abbrev start : World
start = record { lease = free; inside = [] }

second_is_inside : (steps two_requests start).inside ≡ holds_async "a" ∷ []
unfolding steps
second_is_inside = refl

second_is_shown : status 5 (some "a") (steps two_requests start).lease ≡ (owned_by_task, 2)
unfolding status steps
second_is_shown = refl

one_caller_at_a_time_example :
    (length (steps two_requests start).inside ≤ 1)
    × Exclusive (steps two_requests start).lease (steps two_requests start).inside
one_caller_at_a_time_example = one_caller_at_a_time two_requests
