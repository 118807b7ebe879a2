-- ===== src/Transfers/Uploading.antt =====
-- personal_mcp/file_transfer.py: the chunks and the end of an upload refine Spec.
use unified_personal_mcp.Prelude.{
  stop, ℕ, suc, ◌+◌, ◌≤◌, ◌≡◌, refl, sym, ap, String, true, not, ◌&&◌, ◌||◌, Option, none, some,
  List, [], ◌∷◌, ◌++◌, ◌==◌, arith, inl, inr, eq_iff, eqb, ltb, leb, ltb→ge, eqb→eq, length, take,
  drop, is_some, if-cases, Option-cases,
}
use unified_personal_mcp.Table.{select_one, update, delete, delete-absent}
use unified_personal_mcp.Transfers.State.{
  ok, Transfer, Created, Committed, Limits, Manager, Look, given, fitting, Args, committed,
}
use unified_personal_mcp.Transfers.Cache.{World, has_key, remove_staged}
use unified_personal_mcp.Transfers.Steps.{not_some}
use unified_personal_mcp.Transfers.Blocks.{copy-all}
use unified_personal_mcp.Transfers.Spec.{
  Aim, writing, committing, advanced, created, recorded, Steps, one_step, Steps-trans,
}
use unified_personal_mcp.Transfers.Upload.{is_created, target, open_staged}
use unified_personal_mcp.Transfers.Upload.Chunks.{
  same_bytes, place_chunk, decoded_chunk, chunk_at, upload_chunk,
}
use unified_personal_mcp.Transfers.Upload.Commit.{
  copy, is_target, record_commit, link_copy, commit_content, upload_commit,
}
use unified_personal_mcp.Transfers.Refines.{
  Result-cases, Goes, Replies, Goes-and_then, Goes-remove_staged,
}

target-path :
    (path : Option String) (parent : Option ℕ) (look : Look)
    → is_target path parent look ≡ true
    → path ≡ some look.path
target-path (some path) (some parent) look h =
    let same_path : look.path ≡ path = (eq_iff look.path path).0 (ground arith) in
    ap some (sym same_path)
target-path (some path) none look h = cc
target-path none parent look h = cc

module _ (w : World) (l : Limits) (aim : Aim) where
  -- The transfer that a call works on.
  module _ (t : Transfer) (m : Manager) (found : select_one (has_key t.key) m.transfers ≡ some t)
      (writes : aim ≡ writing t) where
    Goes-place_chunk :
        (offset : ℕ) (bytes : List ℕ)
        → offset + length bytes ≤ t.size
        → Goes w l aim m (place_chunk w l t offset bytes m)
    unfolding place_chunk
    Goes-place_chunk offset bytes fits =
        let at_end = ltb offset t.next_offset && leb (offset + length bytes) t.next_offset in
        elim (Option-cases (open_staged w t m)) [
          | inl e ↦
              rw (e, place_chunk)
                (if-cases (Replies w l aim m) (at_end || eqb offset t.next_offset)
                  (λ _. stop m m refl) (λ _. stop m m refl))
          | inr (f, e) ↦
              rw (e, place_chunk)
                (if-cases (Replies w l aim m) at_end
                  (λ _.
                    if-cases (Replies w l aim m)
                      (same_bytes (take (length bytes) (drop offset f.content)) bytes)
                      (λ _. stop m m refl) (λ _. stop m m refl))
                  (λ _.
                    if-cases (Replies w l aim m) (not (eqb offset t.next_offset))
                      (λ _. stop m m refl)
                      (λ _.
                        one_step w l aim m _
                          (advanced t (offset + length bytes) writes found fits refl refl))))
        ]

    Goes-chunk_at :
        (offset : ℕ) (encoded : String) → Goes w l aim m (chunk_at w l t offset encoded m)
    unfolding chunk_at
    Goes-chunk_at offset encoded = elim (Result-cases (decoded_chunk w l encoded)) [
      | inl (code, e) ↦ rw (e, chunk_at) (stop m m refl)
      | inr (bytes, e) ↦
          rw (e, chunk_at)
            (if-cases (Replies w l aim m) (ltb t.size (offset + length bytes)) (λ _. stop m m refl)
              (λ fits. Goes-place_chunk offset bytes (ltb→ge _ _ fits)))
    ]

    pub Goes-upload_chunk : (args : Args) → Goes w l aim m (upload_chunk w l t args m)
    unfolding upload_chunk
    Goes-upload_chunk args =
        if-cases (Replies w l aim m) (is_some t.committed) (λ _. stop m m refl)
          (λ _. elim (Option-cases (fitting args.offset)) [
            | inl e ↦ rw e (stop m m refl)
            | inr (offset, e) ↦ elim (Option-cases (fitting args.data_base64)) [
              | inl f ↦ rw (e, f) (stop m m refl)
              | inr (encoded, f) ↦ rw (e, f) (Goes-chunk_at offset encoded)
            ]
          ])

  Goes-record_commit :
      (t : Transfer) (display : String) (m : Manager)
      → aim ≡ committing t
      → Goes w l aim m (record_commit w t display m)
  unfolding record_commit
  Goes-record_commit t display m commits =
      let finished : Committed = record {
        transfer_id = t.key;
        path = display;
        size = t.size;
        sha256 = t.sha256;
      } in
      let marked : Manager = record m {
        transfers =
            update (has_key t.key) (λ u. record u { committed = some finished }) m.transfers;
      } in
      Goes-and_then w l aim m (remove_staged w t.staged marked)
        (λ _ after. (ok (committed finished), after))
        (Steps-trans w l aim m marked _
          (one_step w l aim m marked (recorded t finished commits refl refl))
          (Goes-remove_staged w l aim t.staged marked))
        (λ _ n _. stop n n refl)

  module _ (t : Transfer) (m : Manager) (found : select_one (has_key t.key) m.transfers ≡ some t)
      (commits : aim ≡ committing t) (fresh : t.committed ≡ none) (whole : t.next_offset ≡ t.size)
      (content : List ℕ) (declared : (w.codec.sha256 content == t.sha256) ≡ true)
      (blocks : 1 ≤ l.chunk_bytes) where
    Goes-link_copy :
        (look : Look) → t.target ≡ some look.path → Goes w l aim m (link_copy w l t content look m)
    unfolding link_copy
    Goes-link_copy look aimed =
        let f : Created = record {
          path = look.path;
          content = copy (suc (length content)) l.chunk_bytes content;
        } in
        let linked : Manager = record m {
          project = delete (is_created look.path) m.project ++ f ∷ [];
        } in
        if-cases (Replies w l aim m) (not w.copies) (λ _. stop m m refl)
          (λ _.
            if-cases (Replies w l aim m)
              (w.link_taken || is_some (select_one (is_created look.path) m.project))
              (λ _. stop m m refl)
              (λ free.
                let exact : (w.codec.sha256 f.content == t.sha256) ≡ true =
                  rw (copy-all (suc (length content)) l.chunk_bytes content blocks (omega arith))
                    declared in
                let absent : select_one (is_created look.path) m.project ≡ none =
                  not_some (select_one (is_created look.path) m.project) (ground arith) in
                let link : Steps w l aim m linked = one_step w l aim m linked (
                  created t f commits found fresh whole aimed exact absent refl (
                    ap (λ fs. fs ++ f ∷ [])
                      (delete-absent (is_created look.path) m.project absent))) in
                if-cases (Replies w l aim m) w.unlinks_temporary
                  (λ _.
                    Steps-trans w l aim m linked _ link
                      (Goes-record_commit t look.display linked commits))
                  (λ _. link)))

    Goes-commit_content : Goes w l aim m (commit_content w l t content m)
    unfolding commit_content
    Goes-commit_content = elim (Result-cases (target w.look (given t.path) m.project)) [
      | inl (code, e) ↦ rw (e, commit_content) (stop m m refl)
      | inr (first, e) ↦
          rw (e, commit_content)
            (if-cases (Replies w l aim m) (not (is_target t.target t.parent_identity first))
              (λ _. stop m m refl)
              (λ _. elim (Result-cases (target w.look_again (given t.path) m.project)) [
                | inl (code, f) ↦ rw f (stop m m refl)
                | inr (again, f) ↦ rw f (
                    if-cases (Replies w l aim m) (not (is_target t.target t.parent_identity again))
                      (λ _. stop m m refl)
                      (λ aimed.
                        Goes-link_copy (record again { display = first.display })
                          (target-path t.target t.parent_identity again (ground arith))))
              ]))
    ]

  pub Goes-upload_commit :
      (t : Transfer) (m : Manager)
      → 1 ≤ l.chunk_bytes
      → select_one (has_key t.key) m.transfers ≡ some t
      → aim ≡ committing t
      → Goes w l aim m (upload_commit w l t m)
  unfolding upload_commit
  Goes-upload_commit t m blocks found commits = elim (Option-cases t.committed) [
    | inr (finished, e) ↦ rw (e, upload_commit) (stop m m refl)
    | inl fresh ↦
        rw (fresh, upload_commit)
          (if-cases (Replies w l aim m) (not (eqb t.next_offset t.size)) (λ _. stop m m refl)
            (λ whole. elim (Option-cases (open_staged w t m)) [
              | inl e ↦ rw e (stop m m refl)
              | inr (f, e) ↦ rw e (
                  if-cases (Replies w l aim m) (not (w.codec.sha256 f.content == t.sha256))
                    (λ _. stop m m refl)
                    (λ declared.
                      Goes-commit_content t m found commits fresh (eqb→eq _ _ (ground arith))
                        f.content (ground arith) blocks))
            ]))
  ]
