-- ===== src/Transfers/Upload.antt =====
-- personal_mcp/file_transfer.py: `_target`, `_upload_begin` and `_status`.
pub mod Chunks
pub mod Commit
use unified_personal_mcp.Prelude.{
  ℕ, zero, suc, ◌+◌, ◌-◌, ◌*◌, ◌/◌, String, count, Bool, true, false, not, ◌&&◌, ◌||◌, Option, none,
  some, List, [], ◌∷◌, ◌++◌, ◌==◌, eqb, ltb, leb, length, take, drop, is_some, if◌then◌else◌,
}
use unified_personal_mcp.Table.{select_one, update}
use unified_personal_mcp.Transfers.State.{
  io_error, invalid_argument, target_exists, write_path_denied, parent_not_found, already_committed,
  chunk_too_large, size_mismatch, chunk_conflict, offset_mismatch, incomplete, hash_mismatch,
  target_changed, Result, ok, err, and_then, upload, Transfer, StagedFile, Created, Limits, Manager,
  Look, Argument, given, fitting, Args, Status, Committed, Reply, shown, committed,
}
use unified_personal_mcp.Transfers.Neighbours.{ttl_seconds}
use unified_personal_mcp.Transfers.Cache.{
  World, is_file, has_key, put_transfer, capacity, allocate, remove_staged,
}

-- `_status`; `-` stops at 0, which is the source's `max(0, …)`.
unfoldable pub status_of : World → Limits → Transfer → Status
status_of w l t = record {
  transfer_id = t.key;
  direction = t.direction;
  is_committed = is_some t.committed;
  size = t.size;
  sha256 = t.sha256;
  next_offset = t.next_offset;
  chunk_bytes = l.chunk_bytes;
  expires_in_seconds = t.created + ttl_seconds - w.now;
}

abbrev pub is_created : String → Created → Bool
is_created path f = f.path == path

-- `_target` of a path, by what the look at it finds.
unfoldable pub target : (String → Look) → Argument String → List Created → Result Look
target look (given raw) project =
    if raw == "" then err invalid_argument else elim (look raw).refused [
      | some code ↦ err code
      | none ↦
          if (look raw).existed || is_some (select_one (is_created (look raw).path) project)
          then err target_exists
          else if not (look raw).full_control && (look raw).ignored
          then err write_path_denied
          else if not (look raw).parent_is_dir
          then err parent_not_found
          else ok (look raw)
    ]
target look _ project = err invalid_argument

abbrev pub new_upload : World → String → ℕ → String → Look → String → String → ℕ → String → Transfer
new_upload w owner runtime path seen key staged size digest = record {
  key = key;
  owner = owner;
  runtime = runtime;
  direction = upload;
  path = path;
  staged = staged;
  size = size;
  sha256 = digest;
  created = w.now;
  target = some seen.path;
  parent_identity = some seen.parent_identity;
  next_offset = 0;
  committed = none;
}

abbrev pub text_of : Argument String → String
text_of (given raw) = raw
text_of _ = ""

-- The end of `_upload_begin`, once there is a staged file.
unfoldable pub add_transfer : World → Limits → Transfer → Manager → Result Reply × Manager
unfolding status_of
add_transfer w l t m =
    (ok (shown (status_of w l t)), record m { transfers = put_transfer t m.transfers })

-- The part of `_upload_begin` after the look at the target.
unfoldable pub begin_target :
    World
    → Limits
    → String
    → ℕ
    → ℕ
    → String
    → Argument String
    → Result Look
    → Manager
    → Result Reply × Manager
unfolding allocate add_transfer
begin_target w l owner runtime size digest path (err code) m = (err code, m)
begin_target w l owner runtime size digest path (ok look) m =
    and_then (allocate w l size m) (λ (key, staged) after.
      add_transfer w l
        (new_upload w owner runtime (text_of path) look key staged size (w.codec.lower digest))
        after)

-- The part of `_upload_begin` after the checks of its arguments.
unfoldable pub begin_checked :
    World → Limits → String → ℕ → ℕ → String → Argument String → Manager → Result Reply × Manager
unfolding capacity target begin_target
begin_checked w l owner runtime size digest path m = and_then (capacity w l owner size m) (λ _ seen.
    begin_target w l owner runtime size digest path (target w.look path seen.project) seen)

-- `_upload_begin`
unfoldable pub upload_begin : World → Limits → String → ℕ → Args → Manager → Result Reply × Manager
unfolding begin_checked
upload_begin w l owner runtime args m = elim (fitting args.size) [
  | none ↦ (err invalid_argument, m)
  | some size ↦ elim (fitting args.sha256) [
    | none ↦ (err invalid_argument, m)
    | some digest ↦
        if not (w.codec.is_sha256 digest)
        then (err invalid_argument, m)
        else begin_checked w l owner runtime size digest args.path m
  ]
]

-- `item.staged.open(…)`; `none` if it raises.
abbrev pub open_staged : World → Transfer → Manager → Option StagedFile
open_staged w t m = if w.opens t.staged then select_one (is_file t.staged) m.files else none
