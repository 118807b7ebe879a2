-- ===== src/Transfers/Cache.antt =====
-- personal_mcp/file_transfer.py: the private cache, `_ensure_cache`, `_write_marker`, `_allocate`,
-- `_remove_staged`, `_capacity`, `_discard` and `_prune`.
use unified_personal_mcp.Prelude.{
  ℕ, ◌+◌, String, Bool, true, false, not, ◌||◌, Option, none, some, List, [], ◌∷◌, ◌++◌, ◌==◌, eqb,
  ltb, leb, length, sum_by, is_some, if◌then◌else◌,
}
use unified_personal_mcp.Table.{select_one, select, delete}
use unified_personal_mcp.Transfers.State.{
  Code, io_error, file_too_large, owner_limit, cleanup_required, capacity_exceeded, Result, ok, err,
  and_then, Transfer, Registered, StagedFile, Limits, Manager, new_manager, Look, Source, Codec,
}
use unified_personal_mcp.Transfers.Neighbours.{
  Neighbour, Patterns, named, refresh_caches, ttl_seconds, max_cache_files,
}

-- What one call meets outside the manager: the clocks, the other caches at each refresh, new names and
-- identities, whether the marker with these entries can be written (`none`) or what it raises, whether
-- files can be opened and removed, and the files that are not the manager's.
pub record World : Type 0 where
  pub codec : Codec
  pub patterns : Patterns
  pub private_name : String
  pub now : ℕ
  pub time : ℕ
  pub neighbours : List Neighbour
  pub neighbours_again : List Neighbour
  pub mkdir : Bool
  pub marker_error : List Registered → Option Code
  pub new_name : String
  pub new_identity : ℕ
  pub new_key : String
  pub opens : String → Bool
  pub unlinks : String → Bool
  pub look : String → Look
  pub look_again : String → Look
  pub copies : Bool
  pub link_taken : Bool
  pub unlinks_temporary : Bool
  pub removes_cache : Bool
  pub source : String → Source

abbrev pub max_owner_transfers : ℕ
max_owner_transfers = 2

abbrev pub is_file : String → StagedFile → Bool
is_file name f = f.name == name

abbrev pub has_key : String → Transfer → Bool
has_key key t = t.key == key

-- `self._transfers[key] = …`
abbrev pub put_transfer : Transfer → List Transfer → List Transfer
put_transfer t ts = delete (has_key t.key) ts ++ t ∷ []

-- The manager after a refresh.
unfoldable pub refresh : World → List Neighbour → Manager → Manager
unfolding refresh_caches
refresh w ns m =
    let found = refresh_caches w.patterns w.private_name w.time ns in
    record m {
      external_bytes = found.external_bytes;
      cleanup_required = found.cleanup_required;
      orphan_pending = found.orphan_pending;
    }

-- `_capacity`
unfoldable pub capacity : World → Limits → String → ℕ → Manager → Result (Unit {0}) × Manager
unfolding refresh
capacity w l owner size m =
    if ltb l.max_file_bytes size
    then (err file_too_large, m)
    else if leb max_owner_transfers
        (length (select (λ (t : Transfer). t.owner == owner) m.transfers))
    then (err owner_limit, m)
    else let seen = refresh w w.neighbours m in
      if seen.cleanup_required
      then (err cleanup_required, seen)
      else if ltb l.max_total_bytes
          (size + seen.external_bytes + sum_by (λ (t : Transfer). t.size) seen.transfers)
      then (err (if seen.orphan_pending then cleanup_required else capacity_exceeded), seen)
      else (ok tt, seen)

-- `_ensure_cache`
unfoldable pub ensure_cache : World → Manager → Result (Unit {0}) × Manager
ensure_cache w m =
    if m.cache_created
    then (ok tt, m)
    else if not w.mkdir
    then (err io_error, m)
    else elim (w.marker_error m.marker) [
      | none ↦ (ok tt, record m { cache_created = true; root_exists = true })
      | some code ↦ (err code, record m { cache_created = true; root_exists = true })
    ]

-- The end of `__init__`: the first refresh, and the cache if that needs no clean-up.
unfoldable pub construct : World → Result (Unit {0}) × Manager
unfolding refresh ensure_cache
construct w =
    let seen = refresh w w.neighbours new_manager in
    if seen.cleanup_required then (ok tt, seen) else ensure_cache w seen

abbrev pub empty_file : World → StagedFile
empty_file w = record { name = w.new_name; identity = w.new_identity; regular = true; content = [] }

-- The new file, once the cache is there: it is registered, or removed again.
unfoldable pub allocate_file : World → ℕ → Manager → Result (String × String) × Manager
allocate_file w size m =
    if not (w.opens w.new_name) || is_some (select_one (is_file w.new_name) m.files)
    then (err io_error, m)
    else let marker =
        delete (named w.new_name) m.marker
        ++ record { name = w.new_name; identity = w.new_identity; reserved = size } ∷ [] in
      elim (w.marker_error marker) [
        | none ↦ (
          ok (w.new_key, w.new_name),
          record m { marker = marker; files = m.files ++ empty_file w ∷ [] },
        )
        | some code ↦
            if w.unlinks w.new_name
            then (err code, record m { marker = delete (named w.new_name) m.marker })
            else (
              err io_error,
              record m {
                marker = delete (named w.new_name) m.marker;
                files = m.files ++ empty_file w ∷ [];
              },
            )
      ]

-- `_allocate`
unfoldable pub allocate : World → Limits → ℕ → Manager → Result (String × String) × Manager
unfolding refresh ensure_cache allocate_file
allocate w l size m =
    let seen = refresh w w.neighbours_again m in
    if seen.cleanup_required
    then (err cleanup_required, seen)
    else if leb max_cache_files (length seen.marker)
        || ltb l.max_total_bytes
            (size + seen.external_bytes + sum_by (λ (r : Registered). r.reserved) seen.marker)
    then (err capacity_exceeded, seen)
    else and_then (ensure_cache w seen) (λ _ after. allocate_file w size after)

-- The end of `_remove_staged`: the entry goes, and the marker is written; `err` if that raises.
unfoldable pub forget_staged : World → String → Manager → Result Bool × Manager
forget_staged w name m =
    let after : Manager = record m { marker = delete (named name) m.marker } in
    elim (w.marker_error after.marker) [ none ↦ (ok true, after) | some code ↦ (err code, after) ]

abbrev pub is_registered : StagedFile → Option Registered → Bool
is_registered f none = false
is_registered f (some r) = eqb f.identity r.identity

-- `_remove_staged`
unfoldable pub remove_staged : World → String → Manager → Result Bool × Manager
unfolding forget_staged
remove_staged w name m = elim (select_one (is_file name) m.files) [
  | none ↦ forget_staged w name m
  | some f ↦
      if not f.regular || not (is_registered f (select_one (named name) m.marker))
      then (ok false, m)
      else if not (w.unlinks name)
      then (err io_error, m)
      else forget_staged w name (record m { files = delete (is_file name) m.files })
]

-- `_discard` of a transfer that is there.
unfoldable pub discard_transfer : World → Transfer → Manager → Result Bool × Manager
unfolding remove_staged
discard_transfer w t m =
    remove_staged w t.staged (record m { transfers = delete (has_key t.key) m.transfers })

-- The loop over a copy of the transfers that discards those that pass the test, until one raises.
unfoldable pub discard_all :
    World → (Transfer → Bool) → List Transfer → Manager → Result (Unit {0}) × Manager
unfolding discard_transfer
discard_all w test [] m = (ok tt, m)
discard_all w test (t ∷ ts) m = elim (test t) [
  | false ↦ discard_all w test ts m
  | true ↦ and_then (discard_transfer w t m) (λ _ after. discard_all w test ts after)
]

abbrev pub is_expired : ℕ → Transfer → Bool
is_expired now t = leb (t.created + ttl_seconds) now

-- `_prune`
unfoldable pub prune : World → Manager → Result (Unit {0}) × Manager
unfolding discard_all
prune w m = discard_all w (is_expired w.now) m.transfers m
