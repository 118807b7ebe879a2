-- ===== src/Transfers/Uploads.antt =====
-- personal_mcp/file_transfer.py: an upload from its offset to the file that it creates.
use unified_personal_mcp.Prelude.{
  ℕ, suc, ◌≤◌, ◌≡◌, refl, sym, ap, subst, ◌∙◌, String, Bool, true, false, not, ◌&&◌, ◌||◌, none,
  some, List, [], ◌∷◌, ◌++◌, ◌==◌, arith, inl, inr, eqb, length, length-append, is_some, All,
  Option-cases, if-cases,
}
use unified_personal_mcp.Table.{select_one, update, delete, delete-absent}
use unified_personal_mcp.Transfers.State.{
  Result, ok, err, and_then, Transfer, StagedFile, Created, Committed, Limits, Manager, Registered,
  Look, Argument, given, Args, upload_commit, Reply, committed,
}
use unified_personal_mcp.Transfers.Neighbours.{named}
use unified_personal_mcp.Transfers.Cache.{
  World, is_file, has_key, is_expired, is_registered, forget_staged, remove_staged,
}
use unified_personal_mcp.Transfers.Upload.{is_created, target, open_staged}
use unified_personal_mcp.Transfers.Upload.Commit.{
  copy, is_target, record_commit, link_copy, commit_content,
}
use unified_personal_mcp.Transfers.Upload.Commit
use unified_personal_mcp.Transfers.Handle.{act, act_on, dispatch, requested, handle}
use unified_personal_mcp.Transfers.Steps.{not_some}
use unified_personal_mcp.Transfers.Blocks.{copy-all}
use unified_personal_mcp.Transfers.Found.{handle-requested, find-owned}
use unified_personal_mcp.Transfers.Fetching.{no_args}
use unified_personal_mcp.Transfers.Sending.{Piece, send, Sending, Fits, joined, Sent, send-Sent}

abbrev pub commit_args : String → Args
commit_args key = record no_args { action = given upload_commit; transfer_id = given key }

-- Surroundings of a commit in which both looks find the target free and as it was, and nothing fails.
pub record Lands (w : World) (t : Transfer) (first again : Look) (project : List Created)
    : Type 0 where
  pub found : target w.look (given t.path) project ≡ ok first
  pub same : is_target t.target t.parent_identity first ≡ true
  pub found_again : target w.look_again (given t.path) project ≡ ok again
  pub same_again : is_target t.target t.parent_identity again ≡ true
  pub copies : w.copies ≡ true
  pub link_free : w.link_taken ≡ false
  pub temporary : w.unlinks_temporary ≡ true
  pub marker : (entries : List Registered) → w.marker_error entries ≡ none
  pub opens : (name : String) → w.opens name ≡ true
  pub unlinks : (name : String) → w.unlinks name ≡ true

-- A target that is found is not among the files created.
target-free :
    (look : String → Look) (raw : Argument String) (project : List Created) (seen : Look)
    → target look raw project ≡ ok seen
    → is_some (select_one (is_created seen.path) project) ≡ false
unfolding target
target-free look (given raw) project seen =
    let Q : Result Look → Type 0 =
      λ r. r ≡ ok seen → is_some (select_one (is_created seen.path) project) ≡ false in
    if-cases Q (raw == "") (λ _ e. cc)
      (λ _. elim (Option-cases (look raw).refused) [
        | inr (code, f) ↦ rw f (λ e. cc)
        | inl f ↦ rw f (
            if-cases Q
              ((look raw).existed || is_some (select_one (is_created (look raw).path) project))
              (λ _ e. cc)
              (λ free.
                if-cases Q (not (look raw).full_control && (look raw).ignored) (λ _ e. cc)
                  (λ _.
                    if-cases Q (not (look raw).parent_is_dir) (λ _ e. cc)
                      (λ _ e.
                        let same : look raw ≡ seen = cc in
                        subst (λ s. is_some (select_one (is_created s.path) project) ≡ false) same
                          (ground arith)))))
      ])
target-free look raw project seen = λ e. cc

-- A staged file goes, or is left to others, and the project stays.
abbrev Removes : Manager → Result Bool × Manager → Type 0
Removes m x = (b : Bool) × (x.0 ≡ ok b) × (x.1.project ≡ m.project)

module _ (w : World) (marker : (entries : List Registered) → w.marker_error entries ≡ none)
    (unlinks : (name : String) → w.unlinks name ≡ true) where
  forget_staged-Removes : (name : String) (m : Manager) → Removes m (forget_staged w name m)
  unfolding forget_staged
  forget_staged-Removes name m = rw (marker, forget_staged) (true, refl, refl)

  remove_staged-Removes : (name : String) (m : Manager) → Removes m (remove_staged w name m)
  unfolding remove_staged
  remove_staged-Removes name m = elim (Option-cases (select_one (is_file name) m.files)) [
    | inl e ↦ rw (e, remove_staged) (forget_staged-Removes name m)
    | inr (f, e) ↦
        rw (e, remove_staged)
          (if-cases (Removes m)
            (not f.regular || not (is_registered f (select_one (named name) m.marker)))
            (λ _. (false, refl, refl))
            (λ _.
              rw (unlinks name)
                (forget_staged-Removes name (record m { files = delete (is_file name) m.files }))))
  ]

abbrev receipt : Transfer → Look → Committed
receipt t first = record {
  transfer_id = t.key;
  path = first.display;
  size = t.size;
  sha256 = t.sha256;
}

-- The commit is answered, and this file is there besides those that were.
abbrev pub Arrives :
    Transfer → Look → Look → List ℕ → List Created → Result Reply × Manager → Type 0
Arrives t first again content project x =
    (x.0 ≡ ok (committed (receipt t first)))
    × (x.1.project ≡ project ++ record { path = again.path; content = content } ∷ [])

finished :
    (k : Manager) (x : Result Bool × Manager) (d : Committed)
    → Removes k x
    → ((and_then x (λ _ after. (ok (committed d), after))).0 ≡ ok (committed d))
      × ((and_then x (λ _ after. (ok (committed d), after))).1.project ≡ k.project)
finished k (ok b, n) d (c, f, p) = (refl, p)
finished k (err code, n) d (c, f, p) = let clash : err code ≡ ok c = f in (cc, cc)

module _ (w : World) (l : Limits) (blocks : 1 ≤ l.chunk_bytes) (t : Transfer) (first again : Look)
    (m : Manager) (lands : Lands w t first again m.project) where
  link_copy-Arrives :
      (content : List ℕ)
      → Arrives t first again content m.project
          (link_copy w l t content (record again { display = first.display }) m)
  unfolding link_copy record_commit
  link_copy-Arrives content =
      let free = target-free w.look_again (given t.path) m.project again lands.found_again in
      let whole = copy-all (suc (length content)) l.chunk_bytes content blocks (omega arith) in
      let calm : World = record w { copies = true; link_taken = false; unlinks_temporary = true } in
      let marked : Manager = record m {
        transfers =
            update (has_key t.key) (λ u. record u { committed = some (receipt t first) })
              m.transfers;
        project = m.project ++ record { path = again.path; content = content } ∷ [];
      } in
      let nothing = delete-absent (is_created again.path) m.project (not_some _ free) in
      rw (lands.copies, lands.link_free, free, lands.temporary, whole, nothing, link_copy)
        (finished marked (remove_staged calm t.staged marked) (receipt t first)
          (remove_staged-Removes calm lands.marker lands.unlinks t.staged marked))

  commit_content-Arrives :
      (content : List ℕ) → Arrives t first again content m.project (commit_content w l t content m)
  unfolding commit_content
  commit_content-Arrives content =
      rw (lands.found, commit_content)
        (rw lands.same (rw lands.found_again (rw lands.same_again (link_copy-Arrives content))))

  -- A commit of an upload that has all its bytes, of the declared digest.
  upload_commit-Arrives :
      (f : StagedFile)
      → t.committed ≡ none
      → t.next_offset ≡ t.size
      → select_one (is_file t.staged) m.files ≡ some f
      → (w.codec.sha256 f.content == t.sha256) ≡ true
      → Arrives t first again f.content m.project (Commit.upload_commit w l t m)
  unfolding Commit.upload_commit
  upload_commit-Arrives f new complete file declared =
      let full : eqb t.next_offset t.size ≡ true = ground arith in
      let opened : open_staged w t m ≡ some f = rw (lands.opens, file) refl in
      rw (new, Commit.upload_commit)
        (rw full (rw opened (rw declared (commit_content-Arrives f.content))))

module _ (l : Limits) (owner : String) (runtime : ℕ) (named : (owner == "") ≡ false)
    (blocks : 1 ≤ l.chunk_bytes) where
  handle-upload_commit :
      (w : World) (t : Transfer) (f : StagedFile) (m : Manager)
      → Sending owner runtime t f m
      → All (λ u. is_expired w.now u ≡ false) m.transfers
      → handle w l owner runtime (commit_args t.key) m ≡ Commit.upload_commit w l t m
  unfolding requested dispatch act_on act
  handle-upload_commit w t f m s fresh =
      let mine = find-owned owner runtime t m s.found s.owner_is s.runtime_is in
      let acted : requested w l owner runtime (commit_args t.key) m ≡ Commit.upload_commit w l t m =
        rw (mine, act_on) (rw s.direction refl) in
      handle-requested w l owner runtime (commit_args t.key) m s.is_open named fresh ∙ acted

  Lands-moved :
      (w : World) (t : Transfer) (offset : ℕ) (first again : Look) (project later : List Created)
      → later ≡ project
      → Lands w t first again project
      → Lands w (record t { next_offset = offset }) first again later
  Lands-moved w t offset first again project later e h = record {
    found = rw e h.found;
    same = h.same;
    found_again = rw e h.found_again;
    same_again = h.same_again;
    copies = h.copies;
    link_free = h.link_free;
    temporary = h.temporary;
    marker = h.marker;
    opens = h.opens;
    unlinks = h.unlinks;
  }

  -- An upload that is there, with what has arrived of it: chunks that go on from its offset, within the
  -- limits, up to its size, and then a commit, create the file at its path with all the bytes, those that
  -- had arrived and those of the chunks, and nothing else, if they have the declared digest, the target is
  -- free and as it was, no transfer expires and the operating system refuses nothing.
  pub uploads_arrive :
      (t : Transfer) (f : StagedFile) (m : Manager) (ps : List Piece) (w : World)
      (first again : Look)
      → Sending owner runtime t f m
      → All (Fits l) ps
      → All (λ p. All (λ u. is_expired p.world.now u ≡ false) m.transfers) ps
      → All (λ u. is_expired w.now u ≡ false) m.transfers
      → length (f.content ++ joined ps) ≡ t.size
      → (w.codec.sha256 (f.content ++ joined ps) == t.sha256) ≡ true
      → Lands w t first again m.project
      → Arrives t first again (f.content ++ joined ps) m.project (
          handle w l owner runtime
            (commit_args t.key)
            (send l owner runtime t.key t.next_offset ps m))
  uploads_arrive t f m ps w first again s fit fresh fresh_commit size declared lands =
      let n = send l owner runtime t.key t.next_offset ps m in
      let whole = length-append f.content (joined ps) in
      let r : Sent owner runtime t (f.content ++ joined ps) m n =
        send-Sent l owner runtime named ps t f m s fit fresh
          (omega (arith, whole, size, s.reached)) in
      let u : Transfer = record t { next_offset = r.offset } in
      let complete : r.offset ≡ t.size = sym r.sending.reached ∙ ap length r.filled ∙ size in
      let digest : (w.codec.sha256 r.staged.content == t.sha256) ≡ true =
        ap (λ c. w.codec.sha256 c == t.sha256) r.filled ∙ declared in
      let arrived =
        upload_commit-Arrives w l blocks u first again n
          (Lands-moved w t r.offset first again m.project n.project r.project lands) r.staged
          r.sending.uncommitted complete r.sending.file digest in
      let answer = handle-upload_commit w u r.staged n r.sending (r.ages w.now fresh_commit) in
      (
        ap (λ x. x.0) answer ∙ arrived.0,
        ap (λ x. x.1.project) answer
            ∙ arrived.1
            ∙ ap (λ pr. pr ++ record { path = again.path; content = r.staged.content } ∷ [])
                r.project
            ∙ ap (λ c. m.project ++ record { path = again.path; content = c } ∷ []) r.filled,
      )
