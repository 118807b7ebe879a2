-- ===== src/Transfers/Upload/Commit.antt =====
-- personal_mcp/file_transfer.py: `_upload_commit`.
use unified_personal_mcp.Prelude.{
  ℕ, zero, suc, String, Bool, false, not, ◌&&◌, ◌||◌, Option, none, some, List, [], ◌∷◌, ◌++◌, ◌==◌,
  eqb, length, take, drop, is_some, if◌then◌else◌,
}
use unified_personal_mcp.Table.{select_one, update, delete}
use unified_personal_mcp.Transfers.State.{
  io_error, target_exists, incomplete, hash_mismatch, target_changed, Result, ok, err, and_then,
  Transfer, Limits, Manager, Look, given, Committed, Reply, committed,
}
use unified_personal_mcp.Transfers.Cache.{World, has_key, remove_staged}
use unified_personal_mcp.Transfers.Upload.{target, is_created, open_staged}

-- `while data := source.read(self.chunk_bytes): output.write(data)`; the fuel is a bound on the rounds.
unfoldable pub copy : ℕ → ℕ → List ℕ → List ℕ
copy zero chunk_bytes source = []
copy (suc fuel) chunk_bytes source = elim (take chunk_bytes source) [
  | [] ↦ []
  | b ∷ bs ↦ (b ∷ bs) ++ copy fuel chunk_bytes (drop chunk_bytes source)
]

-- `resolved.path != item.target or _identity(…) != item.parent_identity`, the other way round.
abbrev pub is_target : Option String → Option ℕ → Look → Bool
is_target (some path) (some parent) look = look.path == path && eqb look.parent_identity parent
is_target _ _ look = false

-- `item.committed = …`, and the staged file goes.
unfoldable pub record_commit : World → Transfer → String → Manager → Result Reply × Manager
unfolding remove_staged
record_commit w t display m =
    let done : Committed = record {
      transfer_id = t.key;
      path = display;
      size = t.size;
      sha256 = t.sha256;
    } in
    and_then
      (remove_staged w t.staged (record m {
        transfers = update (has_key t.key) (λ u. record u { committed = some done }) m.transfers;
      }))
      (λ _ after. (ok (committed done), after))

-- The copy into a temporary file, the link that makes it the target, and the removal of the temporary
-- file, which comes in any case. Whatever was under the path is no longer there after it: it is the test
-- before it that keeps it.
unfoldable pub link_copy :
    World → Limits → Transfer → List ℕ → Look → Manager → Result Reply × Manager
unfolding copy record_commit
link_copy w l t content look m =
    if not w.copies
    then (err io_error, m)
    else if w.link_taken || is_some (select_one (is_created look.path) m.project)
    then (err (if w.unlinks_temporary then target_exists else io_error), m)
    else let linked : Manager = record m {
      project =
          delete (is_created look.path) m.project
          ++ record {
            path = look.path;
            content = copy (suc (length content)) l.chunk_bytes content;
          }
            ∷ [];
    } in
      if w.unlinks_temporary then record_commit w t look.display linked else (err io_error, linked)

-- Both looks at the target, and the copy. The reply shows the path of the first.
unfoldable pub commit_content :
    World → Limits → Transfer → List ℕ → Manager → Result Reply × Manager
unfolding target link_copy
commit_content w l t content m = elim (target w.look (given t.path) m.project) [
  | err code ↦ (err code, m)
  | ok first ↦
      if not (is_target t.target t.parent_identity first)
      then (err target_changed, m)
      else elim (target w.look_again (given t.path) m.project) [
        | err code ↦ (err code, m)
        | ok again ↦
            if not (is_target t.target t.parent_identity again)
            then (err target_changed, m)
            else link_copy w l t content (record again { display = first.display }) m
      ]
]

-- `_upload_commit`
unfoldable pub upload_commit : World → Limits → Transfer → Manager → Result Reply × Manager
unfolding commit_content
upload_commit w l t m = elim t.committed [
  | some done ↦ (ok (committed done), m)
  | none ↦
      if not (eqb t.next_offset t.size) then (err incomplete, m) else elim (open_staged w t m) [
        | none ↦ (err io_error, m)
        | some f ↦
            if not (w.codec.sha256 f.content == t.sha256)
            then (err hash_mismatch, m)
            else commit_content w l t f.content m
      ]
]
