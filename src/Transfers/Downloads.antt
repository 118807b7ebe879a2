-- ===== src/Transfers/Downloads.antt =====
-- personal_mcp/file_transfer.py: a download from its beginning to the last chunk.
use unified_personal_mcp.Prelude.{
  ℕ, ◌≤◌, ◌<◌, ◌≡◌, refl, sym, ap, subst, ◌∙◌, String, Bool, false, not, some, List, [], ◌∷◌, ◌==◌,
  arith, inl, inr, eq_refl, length, All, Bool-cases, Option-cases, if-cases, if◌then◌else◌,
}
use unified_personal_mcp.Table.{select_one, select_one-update, select_one-passes}
use unified_personal_mcp.Table.Keys.{select_one-put}
use unified_personal_mcp.Transfers.State.{
  Code, io_error, Result, ok, err, and_then, Transfer, StagedFile, Limits, Manager, Source, given,
  Args, download_begin, Reply, Status, shown, began, committed, chunk, released,
}
use unified_personal_mcp.Transfers.Cache.{
  World, is_file, allocate, remove_staged, discard_all, is_expired, prune, empty_file,
}
use unified_personal_mcp.Transfers.Download.{
  stable_copy, new_download, keep_snapshot, take_snapshot, download_source,
}
use unified_personal_mcp.Transfers.Download
use unified_personal_mcp.Transfers.Handle.{dispatch, requested, handle}
use unified_personal_mcp.Transfers.Steps.{capacity-cases, allocate-cases, discard_transfer-cases}
use unified_personal_mcp.Transfers.Downloading.{stable_copy-ok}
use unified_personal_mcp.Transfers.Fetching.{no_args, fetch, Held, Serves, fetch-rest}

and_then-closed :
    (r : Result Bool) (n : Manager) (shut : Bool) (next : Manager → Result (Unit {0}) × Manager)
    → ((k : Manager) → (next k).1.closed ≡ k.closed)
    → n.closed ≡ shut
    → (and_then (r, n) (λ _ after. next after)).1.closed ≡ shut
and_then-closed (ok b) n shut next keep h = keep n ∙ h
and_then-closed (err code) n shut next keep h = h

-- Discards leave the manager open or closed as it is.
discard_all-closed :
    (w : World) (test : Transfer → Bool) (ts : List Transfer) (m : Manager)
    → (discard_all w test ts m).1.closed ≡ m.closed
unfolding discard_all
discard_all-closed w test [] m = refl
discard_all-closed w test (t ∷ ts) m = elim (Bool-cases (test t)) [
  | inr e ↦ rw (e, discard_all) (discard_all-closed w test ts m)
  | inl e ↦
      rw (e, discard_all)
        (discard_transfer-cases w t m
          (λ r. (and_then r (λ _ after. discard_all w test ts after)).1.closed ≡ m.closed)
          (λ r n d.
            and_then-closed r n m.closed (discard_all w test ts) (discard_all-closed w test ts)
              d.2))
]

abbrev pub begin_args : String → Args
begin_args path = record no_args { action = given download_begin; path = given path }

-- What a download begins with: the transfer, the staged copy, and what the reply says of them.
pub record Begins (w : World) (owner : String) (runtime : ℕ) (content : List ℕ) (s : Status)
    (n : Manager) : Type 0 where
  pub transfer : Transfer
  pub staged : StagedFile
  pub held : Held owner runtime transfer staged n
  pub copied : staged.content ≡ content
  pub id : s.transfer_id ≡ transfer.key
  pub size : s.size ≡ length content
  pub digest : s.sha256 ≡ w.codec.sha256 content

module _ (w : World) (l : Limits) (owner : String) (runtime : ℕ) where
  abbrev Starts : List ℕ → Result Reply × Manager → Type 0
  Starts content (ok (began s name), n) = Begins w owner runtime content s n
  Starts content (ok (shown s), n) = Unit {0}
  Starts content (ok (committed c), n) = Unit {0}
  Starts content (ok (chunk c), n) = Unit {0}
  Starts content (ok (released key), n) = Unit {0}
  Starts content (err code, n) = Unit {0}

  no_reply :
      (content : List ℕ) (r : Result Bool × Manager) (code : Code)
      → Starts content (and_then r (λ _ after. (err code, after)))
  no_reply content (ok b, m) code = tt
  no_reply content (err c, m) code = tt

  keep_snapshot-Starts :
      (source : Source) (key staged : String) (copied : Result (List ℕ)) (m : Manager)
      → ((bytes : List ℕ) → copied ≡ ok bytes → source.content ≡ bytes)
      → m.closed ≡ false
      → select_one (is_file staged) m.files ≡ some (empty_file w)
      → Starts source.content (keep_snapshot w l owner runtime source key staged copied m)
  unfolding keep_snapshot
  keep_snapshot-Starts source key staged (err code) m all is_open file =
      no_reply source.content (remove_staged w staged m) code
  keep_snapshot-Starts source key staged (ok bytes) m all is_open file =
      let t = new_download w owner runtime source key staged bytes in
      let same : source.content ≡ bytes = all bytes refl in
      record {
        transfer = t;
        staged = record (empty_file w) { content = bytes };
        held = record {
          is_open = is_open;
          found =
              select_one-put (λ (u : Transfer). u.key) key t m.transfers ∙ rw (eq_refl key) refl;
          owner_is = refl;
          runtime_is = refl;
          direction = refl;
          file =
              select_one-update (is_file staged) (is_file staged)
                (λ f. record f { content = bytes }) m.files (λ r. refl) file
              ∙ rw (select_one-passes (is_file staged) m.files file) refl;
          sized = refl;
        };
        copied = sym same;
        id = refl;
        size = ap length (sym same);
        digest = ap w.codec.sha256 (sym same);
      }

  take_snapshot-Starts :
      (source : Source) (key staged : String) (m : Manager)
      → 1 ≤ l.chunk_bytes
      → m.closed ≡ false
      → select_one (is_file staged) m.files ≡ some (empty_file w)
      → Starts source.content (take_snapshot w l owner runtime source key staged m)
  unfolding take_snapshot
  take_snapshot-Starts source key staged m blocks is_open file =
      keep_snapshot-Starts source key staged
        (if w.opens staged then stable_copy l source else err io_error) m
        (λ bytes.
          if-cases (λ (r : Result (List ℕ)). r ≡ ok bytes → source.content ≡ bytes) (w.opens staged)
            (λ _ e. (stable_copy-ok l source bytes blocks e).0) (λ _ e. cc))
        is_open file

  download_source-Starts :
      (source : Source) (m : Manager)
      → 1 ≤ l.chunk_bytes
      → m.closed ≡ false
      → Starts source.content (download_source w l owner runtime source m)
  unfolding download_source
  download_source-Starts source m blocks is_open =
      let P : Result Reply × Manager → Type 0 = λ r. Starts source.content r in
      let with_file : String × String → Manager → Result Reply × Manager =
        λ (key, staged) after. take_snapshot w l owner runtime source key staged after in
      if-cases P (not source.regular) (λ _. tt)
        (λ _.
          capacity-cases w l owner source.size m
            (λ r. P (and_then r (λ _ seen. and_then (allocate w l source.size seen) with_file)))
            (λ code n s _. tt)
            (λ n s _ room.
              allocate-cases w l source.size n (λ r. P (and_then r with_file)) (λ code k t. tt)
                (λ key staged k (t, _, _, file).
                  take_snapshot-Starts source key staged k blocks (t.2 ∙ s.2 ∙ is_open) file)))

  requested-Starts :
      (path : String) (m : Manager)
      → 1 ≤ l.chunk_bytes
      → m.closed ≡ false
      → Starts (w.source path).content (requested w l owner runtime (begin_args path) m)
  unfolding requested dispatch Download.download_begin
  requested-Starts path m blocks is_open =
      let P : Result Reply × Manager → Type 0 = λ r. Starts (w.source path).content r in
      if-cases P (path == "") (λ _. tt)
        (λ _. elim (Option-cases (w.source path).refused) [
          | inr (code, e) ↦ rw e tt
          | inl e ↦ rw e (download_source-Starts (w.source path) m blocks is_open)
        ])

  after_prune :
      (path : String) (r : Result (Unit {0}) × Manager)
      → 1 ≤ l.chunk_bytes
      → r.1.closed ≡ false
      → Starts
          (w.source path).content
          (and_then r (λ _ after. requested w l owner runtime (begin_args path) after))
  after_prune path (err code, n) blocks is_open = tt
  after_prune path (ok done, n) blocks is_open = requested-Starts path n blocks is_open

  -- Every reply that a download has begun says what is there.
  handle-Starts :
      (path : String) (m : Manager)
      → 1 ≤ l.chunk_bytes
      → Starts (w.source path).content (handle w l owner runtime (begin_args path) m)
  unfolding handle prune
  handle-Starts path m blocks =
      let P : Result Reply × Manager → Type 0 = λ r. Starts (w.source path).content r in
      if-cases P m.closed (λ _. tt)
        (λ is_open.
          if-cases P (owner == "") (λ _. tt)
            (λ _.
              after_prune path (prune w m) blocks
                (discard_all-closed w (is_expired w.now) m.transfers m ∙ is_open)))

  -- A call that is answered is that of a task with a name.
  handle-owner :
      (args : Args) (m n : Manager) (r : Reply)
      → handle w l owner runtime args m ≡ (ok r, n)
      → (owner == "") ≡ false
  unfolding handle
  handle-owner args m n r =
      let P : Result Reply × Manager → Type 0 = λ x. x.0 ≡ ok r → (owner == "") ≡ false in
      let answered : P (handle w l owner runtime args m) =
        if-cases P m.closed (λ _ e. cc)
          (λ _. if-cases P (owner == "") (λ _ e. cc) (λ named _. named)) in
      λ e. answered (ap (λ x. x.0) e)

  -- If a download begins, then a client that asks for chunks of any size that is allowed, until the end of
  -- the file, gets the content of the source and no more, as long as no transfer expires, files can be
  -- opened and decoding undoes the encoding of its pieces; as many calls as there are bytes, and one, are enough. The reply
  -- to the first call gives the content's length and its digest.
  pub downloads_return :
      (path name : String) (limit : ℕ) (m n : Manager) (s : Status) (ws : List World)
      → handle w l owner runtime (begin_args path) m ≡ (ok (began s name), n)
      → All (Serves limit (w.source path).content n) ws
      → 1 ≤ limit
      → limit ≤ l.chunk_bytes
      → length (w.source path).content < length ws
      → (fetch ws l owner runtime s.transfer_id limit 0 n ≡ some (w.source path).content)
        × (s.size ≡ length (w.source path).content)
        × (s.sha256 ≡ w.codec.sha256 (w.source path).content)
  downloads_return path name limit m n s ws e served positive fits enough =
      let b : Begins w owner runtime (w.source path).content s n =
        subst (Starts (w.source path).content) e
          (handle-Starts path m (omega (arith, positive, fits))) in
      let size : b.transfer.size ≡ length (w.source path).content =
        sym b.held.sized ∙ ap length b.copied in
      let fetched =
        fetch-rest l owner runtime b.transfer b.staged n limit b.held
          (handle-owner (begin_args path) m n (began s name) e) positive fits ws 0
          (subst (λ c. All (Serves limit c n) ws) (sym b.copied) served) (omega arith)
          (omega (arith, size, enough)) in
      (
        ap (λ key. fetch ws l owner runtime key limit 0 n) b.id ∙ fetched ∙ ap some b.copied,
        b.size,
        b.digest,
      )
