-- ===== src/Search/Sessions.antt =====
-- personal_mcp/search.py: `Search` and `SearchManager`. The reader thread is cut at its lock regions: a line
-- of ripgrep is one step, and so is its end.
use unified_personal_mcp.Prelude.{
  ℕ, ◌+◌, String, Bool, true, false, not, ◌||◌, Option, none, some, List, [], ◌∷◌, ◌++◌, ◌==◌, ltb,
  leb, length, take, drop, if◌then◌else◌,
}
use unified_personal_mcp.Table.{select_one, select, delete}

pub data Code : Type 0 where
  search_manager_closed search_session_limit search_not_owned invalid_cursor_or_limit
        invalid_cursor :
      Code
  search_cleanup_incomplete spawn_failed : Code

pub data Result {ℓ} (A : Type ℓ) : Type ℓ where
  ok : A → Result A
  err : Code → Result A

pub data State : Type 0 where
  running partial stopped failed completed : State

pub data Reason : Type 0 where
  time_limit result_line_limit non_utf8_result result_limit ripgrep_failed : Reason

-- A result, with the size of its JSON text in bytes.
pub record Record : Type 0 where
  pub path : String
  pub line : ℕ
  pub text : String
  pub bytes : ℕ

-- `Search`
pub record Session : Type 0 where
  pub id : String
  pub owner : String
  pub state : State
  pub reason : Option Reason
  pub results : List Record
  pub size : ℕ
  pub collecting : Bool

pub record Limits : Type 0 where
  pub max_records : ℕ
  pub max_bytes : ℕ
  pub max_sessions : ℕ

pub record Manager : Type 0 where
  pub sessions : List Session
  pub closed : Bool

abbrev pub new_manager : Manager
new_manager = record { sessions = []; closed = false }

abbrev pub max_per_owner : ℕ
max_per_owner = 2

abbrev pub read_bytes : ℕ
read_bytes = 60000

abbrev pub is_running : State → Bool
is_running running = true
is_running _ = false

abbrev pub has_id : String → Session → Bool
has_id id s = s.id == id

abbrev pub owned_by : String → Session → Bool
owned_by owner s = s.owner == owner

-- The part of `start` under the lock; `spawned` says whether ripgrep could be started.
unfoldable pub start : Limits → String → String → Bool → Manager → Result String × Manager
start l owner id spawned m =
    if m.closed
    then (err search_manager_closed, m)
    else if leb l.max_sessions (length m.sessions)
        || leb max_per_owner (length (select (owned_by owner) m.sessions))
    then (err search_session_limit, m)
    else if not spawned
    then (err spawn_failed, m)
    else (
      ok id,
      record m {
        sessions =
            delete (has_id id) m.sessions
            ++ record {
              id = id;
              owner = owner;
              state = running;
              reason = none;
              results = [];
              size = 0;
              collecting = true;
            }
              ∷ [];
      },
    )

-- `_timeout`
unfoldable pub timeout : Session → Session
timeout s = if is_running s.state then record s { state = partial; reason = some time_limit } else s

-- What a line of ripgrep is: too long, no JSON, no match, a match whose path is refused, one without text,
-- or a result.
pub data Line : Type 0 where
  too_long unreadable other refused not_text : Line
  match : Record → Line

-- Whether the loop goes on, and whether it has seen a failure.
pub data Next : Type 0 where
  onward failing leaves raises : Next

abbrev pub out_of : Reason → Session → Next × Session
out_of reason s = (leaves, record s { state = partial; reason = some reason })

-- What the loop does with a line.
unfoldable pub collect_line : Limits → Line → Session → Next × Session
collect_line l too_long s = out_of result_line_limit s
collect_line l unreadable s = (failing, s)
collect_line l other s = (onward, s)
collect_line l refused s = (raises, s)
collect_line l not_text s = out_of non_utf8_result s
collect_line l (match r) s =
    if leb l.max_records (length s.results)
      || ltb l.max_bytes (s.size + r.bytes)
      || ltb read_bytes r.bytes
    then out_of result_limit s
    else (onward, record s { results = s.results ++ r ∷ []; size = s.size + r.bytes })

-- One round of the loop of `_collect`.
unfoldable pub collect : Limits → Line → Session → Next × Session
unfolding collect_line
collect l line s = if not (is_running s.state) then (leaves, s) else collect_line l line s

-- The end of `_collect`: whether it has failed, and whether ripgrep's code was 0 or 1.
unfoldable pub finish : Bool → Bool → Session → Session
finish has_failed code_ok s =
    let over : Session = record s { collecting = false } in
    if not (is_running s.state)
    then over
    else if has_failed || not code_ok
    then record over { state = failed; reason = some ripgrep_failed }
    else record over { state = completed }

-- `_owned`
abbrev pub owned : String → Option Session → Result Session
owned owner none = err search_not_owned
owned owner (some s) = if s.owner == owner then ok s else err search_not_owned

-- The reply of `read`.
pub record Page : Type 0 where
  pub state : State
  pub reason : Option Reason
  pub results : List Record
  pub next_cursor : ℕ
  pub has_more : Bool

-- The loop of `read`, with the bytes that it has.
unfoldable pub fill : ℕ → List Record → List Record
fill size [] = []
fill size (r ∷ rs) = elim (ltb read_bytes (size + r.bytes)) [
  | true ↦ []
  | false ↦ r ∷ fill (size + r.bytes) rs
]

unfoldable pub page : ℕ → ℕ → Session → Page
unfolding fill
page cursor limit s =
    let results = fill 0 (take limit (drop cursor s.results)) in
    record {
      state = s.state;
      reason = s.reason;
      results = results;
      next_cursor = cursor + length results;
      has_more = ltb (cursor + length results) (length s.results) || is_running s.state;
    }

-- The part of `read` after `_owned`.
unfoldable pub read_session : ℕ → ℕ → Session → Result Page
unfolding page
read_session cursor limit s =
    if leb limit 0 || ltb 1000 limit
    then err invalid_cursor_or_limit
    else if ltb (length s.results) cursor
    then err invalid_cursor
    else ok (page cursor limit s)

-- `read`
unfoldable pub read : String → String → ℕ → ℕ → Manager → Result Page
unfolding read_session
read owner id cursor limit m = elim (owned owner (select_one (has_id id) m.sessions)) [
  | err code ↦ err code
  | ok s ↦ read_session cursor limit s
]

-- `_stop`, and whether the reader thread has ended in time.
unfoldable pub stop_session : Bool → Session → Session
stop_session joined s =
    let asked : Session = if is_running s.state then record s { state = stopped } else s in
    if joined then record asked { collecting = false } else asked
