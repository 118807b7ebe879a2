-- ===== src/Transfers/Neighbours.antt =====
-- personal_mcp/file_transfer.py: the caches of other processes, `_cache_snapshot`, `_recover_cache` and
-- `_refresh_caches`.
use unified_personal_mcp.Prelude.{
  ℕ, suc, ◌+◌, ◌*◌, max, String, Bool, true, false, not, ◌&&◌, ◌||◌, Option, none, some, List, [],
  ◌∷◌, ◌==◌, eqb, ltb, leb, length, starts_with, if◌then◌else◌,
}
use unified_personal_mcp.Table.{select_one}
use unified_personal_mcp.Transfers.State.{Registered}

abbrev pub ttl_seconds : ℕ
ttl_seconds = 15 * 60

abbrev pub max_cache_files : ℕ
max_cache_files = 512

abbrev pub max_cache_dirs : ℕ
max_cache_dirs = 1024

abbrev pub max_marker_bytes : ℕ
max_marker_bytes = 262144

-- An entry of a cache directory as `lstat` shows it.
pub record Entry : Type 0 where
  pub name : String
  pub regular : Bool
  pub identity : ℕ
  pub size : ℕ
  pub mtime : ℕ

-- The content of a marker, once it is decoded and its fields have their types and ranges.
pub record Metadata : Type 0 where
  pub is_this_format : Bool
  pub pid : ℕ
  pub created_at : ℕ
  pub nonce : String
  pub files : List Registered

-- A directory beside the private root. `is_direct` says that it is an ordinary directory of the data
-- root; `marker` is the marker's entry, if there is one, and `metadata` what it holds, if that can be
-- read. The last four are what a recovery meets: whether a second look finds the same, whether the
-- process lives then, the time, and whether each removal succeeds on what it has seen.
pub record Neighbour : Type 0 where
  pub name : String
  pub is_direct : Bool
  pub identity : ℕ
  pub marker : Option Entry
  pub metadata : Option Metadata
  pub entries : List Entry
  pub alive : Bool
  pub unchanged : Bool
  pub alive_again : Bool
  pub time_again : ℕ
  pub removable : Bool

-- The regular expressions of a nonce and of a file's name, and the joined directory name.
pub record Patterns : Type 0 where
  pub is_nonce : String → Bool
  pub is_part : String → String → Bool
  pub directory : String → String

pub record Snapshot : Type 0 where
  pub reserved : ℕ
  pub newest : ℕ

abbrev pub named : String → Registered → Bool
named name r = r.name == name

-- The checks of the marker's content.
unfoldable pub is_recognized : Patterns → String → Metadata → Bool
is_recognized p name m =
    m.is_this_format
    && not (leb m.pid 0)
    && p.is_nonce m.nonce
    && name == p.directory m.nonce
    && not (ltb max_cache_files (length m.files))

unfoldable pub are_parts : Patterns → String → List Registered → Bool
are_parts p nonce [] = true
are_parts p nonce (r ∷ rs) = p.is_part nonce r.name && are_parts p nonce rs

-- One round of the loop over the entries: the sum of the reservations and the newest time.
unfoldable pub add_member : String → List Registered → Entry → Snapshot → Option Snapshot
add_member marker_name files e s =
    if e.name == marker_name
    then some s
    else if not e.regular
    then none
    else elim (select_one (named e.name) files) [
      | none ↦ none
      | some r ↦
          if not (eqb e.identity r.identity) || ltb r.reserved e.size
          then none
          else some (record { reserved = s.reserved + r.reserved; newest = max s.newest e.mtime })
    ]

unfoldable pub members : String → List Registered → List Entry → Snapshot → Option Snapshot
unfolding add_member
members marker_name files [] s = some s
members marker_name files (e ∷ es) s = elim (add_member marker_name files e s) [
  | none ↦ none
  | some t ↦ members marker_name files es t
]

-- The checks of `_cache_snapshot` once the marker is read.
unfoldable pub snapshot_of : Patterns → Neighbour → Entry → Metadata → Option Snapshot
unfolding is_recognized are_parts members
snapshot_of p n marker m =
    if not (is_recognized p n.name m)
    then none
    else if not (are_parts p m.nonce m.files)
    then none
    else if ltb (max_cache_files + 1) (length n.entries)
    then none
    else members marker.name m.files n.entries
        (record { reserved = 0; newest = max m.created_at marker.mtime })

-- `_cache_snapshot`; `none` if it raises.
unfoldable pub cache_snapshot : Patterns → Neighbour → Option Snapshot
unfolding snapshot_of
cache_snapshot p n = if not n.is_direct then none else elim n.marker [
  | none ↦ none
  | some marker ↦
      if not marker.regular || ltb max_marker_bytes marker.size
      then none
      else elim n.metadata [ none ↦ none | some m ↦ snapshot_of p n marker m ]
]

-- The test that a cache is given up: its process has ended and its newest file is as old as a transfer
-- may get.
abbrev pub is_given_up : Bool → ℕ → Snapshot → Bool
is_given_up alive time s = not alive && leb (s.newest + ttl_seconds) time

-- `_recover_cache`: whether the cache is gone; otherwise it raised, and what it had not removed is kept.
unfoldable pub recover_cache : Neighbour → Snapshot → Bool
recover_cache n s = n.unchanged && is_given_up n.alive_again n.time_again s && n.removable

-- What `_refresh_caches` finds, and the caches that it has removed.
pub record Refreshed : Type 0 where
  pub external_bytes : ℕ
  pub cleanup_required : Bool
  pub orphan_pending : Bool
  pub removed : List String

-- The body of the loop for one cache.
unfoldable pub refresh_cache : Patterns → ℕ → Neighbour → Refreshed → Refreshed
unfolding cache_snapshot recover_cache
refresh_cache p time n r = elim (cache_snapshot p n) [
  | none ↦ record r { cleanup_required = true }
  | some s ↦
      if is_given_up n.alive time s
      then (if recover_cache n s
          then record r { removed = n.name ∷ r.removed }
          else record r { cleanup_required = true })
      else record r {
        external_bytes = r.external_bytes + s.reserved;
        orphan_pending = r.orphan_pending || not n.alive;
      }
]

-- The loop; `count` is the number of entries seen.
unfoldable pub refresh_loop : Patterns → String → ℕ → ℕ → List Neighbour → Refreshed → Refreshed
unfolding refresh_cache
refresh_loop p own time count [] r = r
refresh_loop p own time count (n ∷ ns) r =
    let next =
      if not (starts_with n.name "file-transfers-") || n.name == own
      then r
      else refresh_cache p time n r in
    let rest = refresh_loop p own time (suc count) ns next in
    if ltb max_cache_dirs (suc count) then record r { cleanup_required = true } else rest

-- `_refresh_caches`
unfoldable pub refresh_caches : Patterns → String → ℕ → List Neighbour → Refreshed
unfolding refresh_loop
refresh_caches p own time ns =
    refresh_loop p own time 0 ns (record {
      external_bytes = 0;
      cleanup_required = false;
      orphan_pending = false;
      removed = [];
    })
