-- ===== src/Search/Examples.antt =====
-- Runs of a search session, and its theorems at them.
use unified_personal_mcp.Prelude.{ℕ, ◌≡◌, refl, true, false, none, List, [], ◌∷◌, arith}
use unified_personal_mcp.Search.Sessions.{Record, Session, Limits, running, match, other}
use unified_personal_mcp.Search.Bounds.{
  Bounded, Event, reads_line, ends, steps, search_stays_within_limits,
}
use unified_personal_mcp.Search.Paging.{read_all, pages_cover}

abbrev limits : Limits
limits = record { max_records = 3; max_bytes = 100000; max_sessions = 4 }

abbrev new_session : Session
new_session = record {
  id = "search_1";
  owner = "task";
  state = running;
  reason = none;
  results = [];
  size = 0;
  collecting = true;
}

abbrev hit : ℕ → Record
hit line = record { path = "a.txt"; line = line; text = "x"; bytes = 40000 }

-- Two results that do not fit in one page, and the end.
abbrev two_hits : List Event
two_hits =
    reads_line (match (hit 1))
    ∷ reads_line other
    ∷ reads_line (match (hit 2))
    ∷ ends false true
    ∷ []

new_session-Bounded : Bounded limits new_session
new_session-Bounded = record { few = omega arith; small = omega arith; summed = refl; fits = tt }

abbrev found : Session
found = steps limits two_hits new_session

search_stays_within_limits_example : Bounded limits found
search_stays_within_limits_example =
    search_stays_within_limits limits two_hits new_session new_session-Bounded

pages_cover_example : read_all 3 10 0 found ≡ hit 1 ∷ hit 2 ∷ []
unfolding steps
pages_cover_example =
    pages_cover limits found
      (search_stays_within_limits limits two_hits new_session new_session-Bounded) refl 10
      (omega arith) (omega arith) 3 0 (omega arith) (omega arith)
