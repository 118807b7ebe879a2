-- ===== src/Transfers/Sending.antt =====
-- personal_mcp/file_transfer.py: the chunks of an upload, one after the other.
use unified_personal_mcp.Prelude.{
  ℕ, ◌+◌, ◌-◌, ◌*◌, ◌/◌, ◌≤◌, ◌≡◌, refl, sym, ap, subst, ◌∙◌, String, count, true, false, ◌&&◌,
  none, some, List, [], ◌∷◌, ◌++◌, ◌==◌, arith, eqb_refl, ltb, leb, length, take, drop,
  take_of-append, drop_whole, length-append, is_some, All, All-map,
}
use mathlib.Core.List.{append-nil, append_assoc}
use unified_personal_mcp.Table.{
  select_one, update, select_one-update, select_one-passes, All-update,
}
use unified_personal_mcp.Transfers.State.{
  ok, Transfer, StagedFile, Limits, Manager, given, Args, upload_chunk,
}
use unified_personal_mcp.Transfers.Cache.{World, is_file, has_key, is_expired}
use unified_personal_mcp.Transfers.Upload.{open_staged}
use unified_personal_mcp.Transfers.Upload.Chunks.{
  zeros, write_at, write_file, place_chunk, decoded_chunk, chunk_at,
}
use unified_personal_mcp.Transfers.Upload.Chunks
use unified_personal_mcp.Transfers.Handle.{is_upload, act, act_on, dispatch, requested, handle}
use unified_personal_mcp.Transfers.Found.{handle-requested, find-owned}
use unified_personal_mcp.Transfers.Fetching.{no_args}

-- A chunk as the client sends it, with the bytes that it encodes, and the surroundings of the call.
pub record Piece : Type 0 where
  pub world : World
  pub text : String
  pub bytes : List ℕ

abbrev pub chunk_of_upload : String → ℕ → String → Args
chunk_of_upload key offset text = record no_args {
  action = given upload_chunk;
  transfer_id = given key;
  offset = given offset;
  data_base64 = given text;
}

-- The manager after these chunks, each at the offset where the one before it ends.
unfoldable pub send : Limits → String → ℕ → String → ℕ → List Piece → Manager → Manager
unfolding handle
send l owner runtime key offset [] m = m
send l owner runtime key offset (p ∷ ps) m =
    send l owner runtime key (offset + length p.bytes) ps
      (handle p.world l owner runtime (chunk_of_upload key offset p.text) m).1

-- An upload that is there, not committed, with as many bytes in its staged file as its offset says.
pub record Sending (owner : String) (runtime : ℕ) (t : Transfer) (f : StagedFile) (m : Manager)
    : Type 0 where
  pub is_open : m.closed ≡ false
  pub found : select_one (has_key t.key) m.transfers ≡ some t
  pub owner_is : t.owner ≡ owner
  pub runtime_is : t.runtime ≡ runtime
  pub direction : is_upload t.direction ≡ true
  pub uncommitted : t.committed ≡ none
  pub file : select_one (is_file t.staged) m.files ≡ some f
  pub reached : length f.content ≡ t.next_offset

-- A piece that is within the limits, and surroundings in which files can be opened.
pub record Fits (l : Limits) (p : Piece) : Type 0 where
  pub decodes : p.world.codec.b64decode p.text ≡ some p.bytes
  pub some_text : (p.text == "") ≡ false
  pub short_text : count p.text ≤ 4 * ((l.chunk_bytes + 2) / 3)
  pub some_bytes : 1 ≤ length p.bytes
  pub few_bytes : length p.bytes ≤ l.chunk_bytes
  pub opens : (name : String) → p.world.opens name ≡ true

decoded_chunk-Fits :
    (l : Limits) (p : Piece) → Fits l p → decoded_chunk p.world l p.text ≡ ok p.bytes
unfolding decoded_chunk
decoded_chunk-Fits l p h =
    let short : ltb (4 * ((l.chunk_bytes + 2) / 3)) (count p.text) ≡ false =
      ground (arith, h.short_text) in
    let some_ : leb (length p.bytes) 0 ≡ false = ground (arith, h.some_bytes) in
    let few : ltb l.chunk_bytes (length p.bytes) ≡ false = ground (arith, h.few_bytes) in
    rw (h.some_text, short, h.decodes, decoded_chunk) (rw (some_, few) refl)

-- A write at the end of the file.
write_at-end : (bytes content : List ℕ) → write_at (length content) bytes content ≡ content ++ bytes
unfolding write_at
write_at-end bytes content =
    let n = length content in
    let kept : take n (content ++ zeros (n - n)) ≡ content =
      take_of-append content (zeros (n - n)) in
    let nothing : drop (n + length bytes) content ≡ [] =
      drop_whole (n + length bytes) content (omega arith) in
    ap (λ xs. xs ++ bytes ++ drop (n + length bytes) content) kept
    ∙ ap (λ ys. content ++ bytes ++ ys) nothing
    ∙ append-nil (content ++ bytes)

module _ (l : Limits) (owner : String) (runtime : ℕ) (named : (owner == "") ≡ false) where
  abbrev sent : Transfer → StagedFile → List ℕ → Manager → Manager
  sent t f bytes m = record m {
    files = write_file t.staged t.next_offset bytes m.files;
    transfers =
        update (has_key t.key) (λ u. record u { next_offset = t.next_offset + length bytes })
          m.transfers;
  }

  pub handle-sent :
      (t : Transfer) (f : StagedFile) (m : Manager) (p : Piece)
      → Sending owner runtime t f m
      → Fits l p
      → All (λ u. is_expired p.world.now u ≡ false) m.transfers
      → t.next_offset + length p.bytes ≤ t.size
      → (handle p.world l owner runtime (chunk_of_upload t.key t.next_offset p.text) m).1
        ≡ sent t f p.bytes m
  unfolding requested dispatch act_on act Chunks.upload_chunk chunk_at place_chunk
  handle-sent t f m p s h fresh inside =
      let mine = find-owned owner runtime t m s.found s.owner_is s.runtime_is in
      let new : is_some t.committed ≡ false = ap is_some s.uncommitted in
      let within : ltb t.size (t.next_offset + length p.bytes) ≡ false = ground (arith, inside) in
      let onward : ltb t.next_offset t.next_offset
            && leb (t.next_offset + length p.bytes) t.next_offset
          ≡ false =
        ground arith in
      let opened : open_staged p.world t m ≡ some f = rw (h.opens, s.file) refl in
      let answer =
        requested p.world l owner runtime (chunk_of_upload t.key t.next_offset p.text) m in
      let acted : answer.1 ≡ sent t f p.bytes m =
        rw (mine, act_on)
          (rw s.direction (
            rw (new, Chunks.upload_chunk)
              (rw (decoded_chunk-Fits l p h, chunk_at)
                (rw within
                  (rw (opened, place_chunk) (rw (onward, eqb_refl t.next_offset) refl)))))) in
      ap (λ r. r.1)
        (handle-requested p.world l owner runtime (chunk_of_upload t.key t.next_offset p.text) m
          s.is_open named fresh)
      ∙ acted

  abbrev moved : Transfer → List ℕ → Transfer
  moved t bytes = record t { next_offset = t.next_offset + length bytes }

  abbrev longer : StagedFile → List ℕ → StagedFile
  longer f bytes = record f { content = f.content ++ bytes }

  pub Sending-sent :
      (t : Transfer) (f : StagedFile) (m : Manager) (bytes : List ℕ)
      → Sending owner runtime t f m
      → Sending owner runtime (moved t bytes) (longer f bytes) (sent t f bytes m)
  Sending-sent t f m bytes s =
      let written : write_at t.next_offset bytes f.content ≡ f.content ++ bytes =
        ap (λ n. write_at n bytes f.content) (sym s.reached) ∙ write_at-end bytes f.content in
      record {
        is_open = s.is_open;
        found =
            select_one-update (has_key t.key) (has_key t.key)
              (λ u. record u { next_offset = t.next_offset + length bytes }) m.transfers (λ u. refl)
              s.found
            ∙ rw (select_one-passes (has_key t.key) m.transfers s.found) refl;
        owner_is = s.owner_is;
        runtime_is = s.runtime_is;
        direction = s.direction;
        uncommitted = s.uncommitted;
        file =
            select_one-update (is_file t.staged) (is_file t.staged)
              (λ g. record g { content = write_at t.next_offset bytes g.content }) m.files
              (λ g. refl) s.file
            ∙ rw (select_one-passes (is_file t.staged) m.files s.file)
                (ap (λ c. some (record f { content = c })) written);
        reached = length-append f.content bytes ∙ ap (λ n. n + length bytes) s.reached;
      }

-- The bytes of the pieces, one after the other.
abbrev pub joined : List Piece → List ℕ
joined [] = []
joined (p ∷ ps) = p.bytes ++ joined ps

-- What the pieces leave: the transfer with its offset moved, the staged file with their bytes at its end,
-- the project as before, and no transfer older.
pub record Sent (owner : String) (runtime : ℕ) (t : Transfer) (content : List ℕ) (m n : Manager)
    : Type 0 where
  pub offset : ℕ
  pub staged : StagedFile
  pub sending : Sending owner runtime (record t { next_offset = offset }) staged n
  pub filled : staged.content ≡ content
  pub project : n.project ≡ m.project
  pub ages :
      (now : ℕ)
      → All (λ u. is_expired now u ≡ false) m.transfers
      → All (λ u. is_expired now u ≡ false) n.transfers

module _ (l : Limits) (owner : String) (runtime : ℕ) (named : (owner == "") ≡ false) where
  -- Pieces that fit and go on from the offset all arrive.
  pub send-Sent :
      (ps : List Piece) (t : Transfer) (f : StagedFile) (m : Manager)
      → Sending owner runtime t f m
      → All (Fits l) ps
      → All (λ p. All (λ u. is_expired p.world.now u ≡ false) m.transfers) ps
      → t.next_offset + length (joined ps) ≤ t.size
      → Sent owner runtime t
          (f.content ++ joined ps)
          m
          (send l owner runtime t.key t.next_offset ps m)
  unfolding send
  send-Sent [] t f m s fit fresh inside = record {
    offset = t.next_offset;
    staged = f;
    sending = s;
    filled = sym (append-nil f.content);
    project = refl;
    ages = λ now h. h;
  }
  send-Sent (p ∷ ps) t f m s fit fresh inside =
      let whole = length-append p.bytes (joined ps) in
      let after = sent l owner runtime named t f p.bytes m in
      let younger : (now : ℕ)
          → All (λ u. is_expired now u ≡ false) m.transfers
          → All (λ u. is_expired now u ≡ false) after.transfers =
        λ now h.
          All-update (has_key t.key) (λ u. is_expired now u ≡ false)
            (λ u. record u { next_offset = t.next_offset + length p.bytes }) m.transfers
            (λ u _ k. k) h in
      let r =
        send-Sent ps (moved l owner runtime named t p.bytes)
          (longer l owner runtime named f p.bytes) after
          (Sending-sent l owner runtime named t f m p.bytes s) fit.1
          (All-map (λ (q : Piece). All (λ u. is_expired q.world.now u ≡ false) m.transfers)
            (λ (q : Piece). All (λ u. is_expired q.world.now u ≡ false) after.transfers) ps
            (λ q h. younger q.world.now h) fresh.1)
          (omega (arith, whole, inside)) in
      let arrived : (handle p.world l owner runtime (chunk_of_upload t.key t.next_offset p.text)
            m).1
          ≡ after =
        handle-sent l owner runtime named t f m p s fit.0 fresh.0 (omega (arith, whole, inside)) in
      subst
        (λ k.
          Sent owner runtime t (f.content ++ joined (p ∷ ps)) m
            (send l owner runtime t.key (t.next_offset + length p.bytes) ps k))
        (sym arrived)
        (record {
          offset = r.offset;
          staged = r.staged;
          sending = r.sending;
          filled = r.filled ∙ append_assoc f.content p.bytes (joined ps);
          project = r.project;
          ages = λ now h. r.ages now (younger now h);
        })
