-- ===== src/Transfers/Handle.antt =====
-- personal_mcp/file_transfer.py: `handle`, `close_owner` and `close`.
use unified_personal_mcp.Prelude.{
  ℕ, String, Bool, true, false, not, ◌&&◌, ◌||◌, Option, none, some, ◌==◌, eqb, leb, length,
  if◌then◌else◌,
}
use unified_personal_mcp.Table.{select_one}
use unified_personal_mcp.Transfers.State.{
  io_error, transfer_closed, invalid_argument, transfer_not_found, direction_mismatch, Result, ok,
  err, and_then, Direction, upload, download, Transfer, Limits, Manager, Argument, given, fitting,
  Action, upload_begin, download_begin, upload_chunk, upload_commit, download_chunk, status,
  release, unsupported, Args, Reply, shown, released,
}
use unified_personal_mcp.Transfers.Cache.{World, has_key, discard_transfer, discard_all, prune}
use unified_personal_mcp.Transfers.Upload
use unified_personal_mcp.Transfers.Upload.Chunks
use unified_personal_mcp.Transfers.Upload.Commit
use unified_personal_mcp.Transfers.Download
use unified_personal_mcp.Transfers.Upload.{status_of}

abbrev pub is_upload : Direction → Bool
is_upload upload = true
is_upload download = false

-- `item.owner != owner or item.runtime is not runtime` refuses.
abbrev pub owned : String → ℕ → Option Transfer → Option Transfer
owned owner runtime none = none
owned owner runtime (some t) = if t.owner == owner && eqb t.runtime runtime then some t else none

-- The transfer of this task.
abbrev pub find : String → ℕ → Argument String → Manager → Option Transfer
find owner runtime (given key) m = owned owner runtime (select_one (has_key key) m.transfers)
find owner runtime _ m = none

-- `_discard` as the action `release`.
unfoldable pub release_transfer : World → Transfer → Manager → Result Reply × Manager
unfolding discard_transfer
release_transfer w t m = and_then (discard_transfer w t m) (λ _ after. (ok (released t.key), after))

-- The actions on a transfer that is there.
unfoldable pub act : World → Limits → Transfer → Action → Args → Manager → Result Reply × Manager
unfolding status_of release_transfer Chunks.upload_chunk Commit.upload_commit
    Download.download_chunk
act w l t status args m = (ok (shown (status_of w l t)), m)
act w l t release args m = release_transfer w t m
act w l t upload_chunk args m =
    if is_upload t.direction then Chunks.upload_chunk w l t args m else (err direction_mismatch, m)
act w l t upload_commit args m =
    if is_upload t.direction then Commit.upload_commit w l t m else (err direction_mismatch, m)
act w l t download_chunk args m =
    if is_upload t.direction
    then (err direction_mismatch, m)
    else (Download.download_chunk w l t args m, m)
act w l t _ args m = (err invalid_argument, m)

-- An action on a transfer that is to be found.
unfoldable pub act_on :
    World → Limits → String → ℕ → Action → Args → Manager → Result Reply × Manager
unfolding act
act_on w l owner runtime action args m = elim (find owner runtime args.transfer_id m) [
  | none ↦ (err transfer_not_found, m)
  | some t ↦ act w l t action args m
]

unfoldable pub dispatch :
    World → Limits → String → ℕ → Action → Args → Manager → Result Reply × Manager
unfolding Upload.upload_begin Download.download_begin act_on
dispatch w l owner runtime upload_begin args m = Upload.upload_begin w l owner runtime args m
dispatch w l owner runtime download_begin args m = Download.download_begin w l owner runtime args m
dispatch w l owner runtime unsupported args m = (err invalid_argument, m)
dispatch w l owner runtime action args m = act_on w l owner runtime action args m

-- The action that the arguments name.
unfoldable pub requested : World → Limits → String → ℕ → Args → Manager → Result Reply × Manager
unfolding dispatch
requested w l owner runtime args m = elim (fitting args.action) [
  | none ↦ (err invalid_argument, m)
  | some action ↦ dispatch w l owner runtime action args m
]

-- `handle`; an error is the reply of a call that raised.
unfoldable pub handle : World → Limits → String → ℕ → Args → Manager → Result Reply × Manager
unfolding prune requested
handle w l owner runtime args m =
    if m.closed
    then (err transfer_closed, m)
    else if owner == ""
    then (err invalid_argument, m)
    else and_then (prune w m) (λ _ after. requested w l owner runtime args after)

-- `close_owner`
unfoldable pub close_owner : World → String → Manager → Result (Unit {0}) × Manager
unfolding discard_all
close_owner w owner m = discard_all w (λ t. t.owner == owner) m.transfers m

-- The end of `close`: a private root with nothing but its marker is removed.
unfoldable pub remove_cache : World → Manager → Result (Unit {0}) × Manager
remove_cache w m =
    if not m.cache_created || not (leb (length m.files) 0)
    then (ok tt, m)
    else if w.removes_cache
    then (ok tt, record m { root_exists = false })
    else (err io_error, m)

-- `close`
unfoldable pub close : World → Manager → Result (Unit {0}) × Manager
unfolding discard_all remove_cache
close w m =
    if m.closed
    then (ok tt, m)
    else and_then (discard_all w (λ t. true) m.transfers (record m { closed = true }))
        (λ _ after. remove_cache w after)
