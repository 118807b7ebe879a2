-- ===== src/Tasks/Examples.antt =====
-- Runs of the task store, and its theorems at them.
use unified_personal_mcp.Prelude.{
  ◌≤◌, length, Bool, ◌≡◌, refl, true, false, none, some, List, [], ◌∷◌, contains, All,
}
use unified_personal_mcp.Table.{select}
use unified_personal_mcp.Tasks.State.{is_ok, Store, new_store, Project, Codec, no_such_process}
use unified_personal_mcp.Tasks.Store.{require}
use unified_personal_mcp.Tasks.End.{Cleanup, end, owned_by}
use unified_personal_mcp.Tasks.Events.{
  Event, begins, adds_hook, spawns, binds, fences, claims, steps, spares,
}
use unified_personal_mcp.Tasks.Exclusive.{owns, windows_are_exclusive}
use unified_personal_mcp.Tasks.Ending.{claims_of, late_of, ended_task_leaves_nothing}

-- Texts stand for themselves.
abbrev codec : Codec
codec = record {
  sha256 = λ t. t;
  first_16 = λ t. t;
  window_id = λ token hwnd pid title. title;
  is_context_id = λ t. true;
}

abbrev project : Project
project = record { path = "project"; is_inside = true; is_dir = true }

-- Two tasks begin; the first claims a window and has a process in a job.
abbrev two_tasks : List Event
two_tasks =
    begins false 1 project none "bf_a"
    ∷ begins false 2 project none "bf_b"
    ∷ adds_hook "browser"
    ∷ binds 3 "bf_a" 10 20 "window"
    ∷ claims 4 10 20 "bf_a"
    ∷ spawns "bf_a" 1 (some 30) no_such_process true
    ∷ []

abbrev busy : Store
busy = steps codec two_tasks new_store

-- The second task asks for the window of the first, which goes on to end.
abbrev other_asks : List Event
other_asks = claims 5 10 20 "bf_b" ∷ fences "bf_a" ∷ claims 6 10 20 "bf_b" ∷ []

other_asks-spares : (free : Bool) → All (λ e. spares codec free "bf_a" e ≡ true) other_asks
other_asks-spares free = (refl, (refl, (refl, tt)))

windows_are_exclusive_example : owns "bf_a" 10 20 (steps codec other_asks busy).claims ≡ true
unfolding steps
windows_are_exclusive_example =
    windows_are_exclusive "bf_a" 10 20 codec other_asks busy (other_asks-spares false) refl refl

-- An end at which a hook raises, and one that meets no failure; while its hooks run the second task asks
-- for the window, and after the deletion a claim of the first one comes late.
abbrev broken : Cleanup
broken = record {
  raises = λ hook. true;
  closes = λ job. true;
  database = true;
  written = true;
  before_fence = λ s. s;
  during_hooks = λ s. s;
  before_drop = [];
  after_drop = [];
}

abbrev fine : Cleanup
fine = record broken {
  raises = λ hook. false;
  during_hooks = steps codec other_asks;
  after_drop = record { now = 8; hwnd = 10; pid = 20; key = "bf_a" } ∷ [];
}

abbrev after_failure : Store
after_failure = (end codec 7 broken "bf_a" busy).1

abbrev after_end : Store
after_end = (end codec 8 fine "bf_a" after_failure).1

ended_task_leaves_nothing_example :
    (length (claims_of "bf_a" after_end) ≤ length (late_of "bf_a" fine.after_drop))
    × (is_ok (require codec false "bf_a" (steps codec other_asks after_end)) ≡ false)
    × (select (owned_by "bf_a") (steps codec other_asks after_end).jobs ≡ [])
    × (contains "bf_a" (steps codec other_asks after_end).ending ≡ false)
unfolding steps require end
ended_task_leaves_nothing_example =
    ended_task_leaves_nothing codec "bf_a" 8 fine after_failure after_end "bf_a" other_asks false
      refl (other_asks-spares true)
