-- ===== src/Transfers/Fetching.antt =====
-- personal_mcp/file_transfer.py: a client's loop over the chunks of a download.
use unified_personal_mcp.Prelude.{
  ℕ, ◌+◌, ◌-◌, ◌≤◌, ◌<◌, ◌≡◌, refl, sym, ap, ◌∙◌, String, true, false, Option, none, some, List, [],
  ◌∷◌, ◌++◌, ◌==◌, arith, inl, inr, eqb, eqb→eq, ltb, leb, length, take, drop, take-append-drop,
  length-take, length-drop, drop-drop, take_whole, All, Bool-cases, if◌then◌else◌,
}
use unified_personal_mcp.Table.{select_one}
use unified_personal_mcp.Transfers.State.{
  Result, ok, err, Transfer, StagedFile, Limits, Manager, absent, given, Args, download_chunk,
  Chunk, Reply, shown, began, committed, chunk, released,
}
use unified_personal_mcp.Transfers.Cache.{World, is_file, has_key, is_expired}
use unified_personal_mcp.Transfers.Download.{read_chunk}
use unified_personal_mcp.Transfers.Download
use unified_personal_mcp.Transfers.Handle.{is_upload, act, act_on, dispatch, requested, handle}
use unified_personal_mcp.Transfers.Blocks.{drop-length-take}
use unified_personal_mcp.Transfers.Found.{handle-requested, find-owned}

abbrev pub no_args : Args
no_args = record {
  action = absent;
  transfer_id = absent;
  size = absent;
  sha256 = absent;
  path = absent;
  offset = absent;
  limit = absent;
  data_base64 = absent;
}

abbrev pub chunk_args : String → ℕ → ℕ → Args
chunk_args key limit offset = record no_args {
  action = given download_chunk;
  transfer_id = given key;
  offset = given offset;
  limit = given limit;
}

abbrev pub chunk_of : Result Reply → Option Chunk
chunk_of (ok (chunk c)) = some c
chunk_of (ok (shown s)) = none
chunk_of (ok (began s name)) = none
chunk_of (ok (committed c)) = none
chunk_of (ok (released key)) = none
chunk_of (err code) = none

-- What a client puts together that asks for chunk after chunk until the end of the file, each call in its
-- own surroundings; `none` if a call is refused, or there is none left.
unfoldable pub fetch : List World → Limits → String → ℕ → String → ℕ → ℕ → Manager → Option (List ℕ)
unfolding handle
fetch [] l owner runtime key limit offset m = none
fetch (w ∷ ws) l owner runtime key limit offset m =
    let answer = handle w l owner runtime (chunk_args key limit offset) m in
    elim (chunk_of answer.0) [
      | none ↦ none
      | some c ↦ elim (w.codec.b64decode c.data_base64) [
        | none ↦ none
        | some bytes ↦
            let rest = fetch ws l owner runtime key limit c.next_offset answer.1 in
            if c.eof
            then some bytes
            else elim rest [ none ↦ none | some more ↦ some (bytes ++ more) ]
      ]
    ]

-- A download that is there, with its staged file.
pub record Held (owner : String) (runtime : ℕ) (t : Transfer) (f : StagedFile) (m : Manager)
    : Type 0 where
  pub is_open : m.closed ≡ false
  pub found : select_one (has_key t.key) m.transfers ≡ some t
  pub owner_is : t.owner ≡ owner
  pub runtime_is : t.runtime ≡ runtime
  pub direction : is_upload t.direction ≡ false
  pub file : select_one (is_file t.staged) m.files ≡ some f
  pub sized : length f.content ≡ t.size

-- Surroundings in which no transfer has expired, files can be opened, and decoding undoes the encoding of
-- each piece of the content.
pub record Serves (limit : ℕ) (content : List ℕ) (m : Manager) (w : World) : Type 0 where
  pub fresh : All (λ t. is_expired w.now t ≡ false) m.transfers
  pub opens : (name : String) → w.opens name ≡ true
  pub decodes :
      (offset : ℕ)
      → w.codec.b64decode (w.codec.b64encode (take limit (drop offset content)))
        ≡ some (take limit (drop offset content))

module _ (l : Limits) (owner : String) (runtime : ℕ) (t : Transfer) (f : StagedFile) (m : Manager)
    (limit : ℕ) (held : Held owner runtime t f m) (named : (owner == "") ≡ false)
    (some_bytes : 1 ≤ limit) (fits : limit ≤ l.chunk_bytes) where
  handle-read_chunk :
      (w : World) (offset : ℕ)
      → Serves limit f.content m w
      → handle w l owner runtime (chunk_args t.key limit offset) m
        ≡ (read_chunk w l t offset limit m, m)
  unfolding requested dispatch act_on act Download.download_chunk
  handle-read_chunk w offset h =
      let mine = find-owned owner runtime t m held.found held.owner_is held.runtime_is in
      let positive : leb limit 0 ≡ false = ground (arith, some_bytes) in
      let acted : requested w l owner runtime (chunk_args t.key limit offset) m
          ≡ (read_chunk w l t offset limit m, m) =
        rw (mine, act_on) (rw held.direction (rw (positive, Download.download_chunk) refl)) in
      handle-requested w l owner runtime (chunk_args t.key limit offset) m held.is_open named
        h.fresh
      ∙ acted

  abbrev piece : ℕ → List ℕ
  piece offset = take limit (drop offset f.content)

  read_chunk-piece :
      (w : World) (offset : ℕ)
      → Serves limit f.content m w
      → offset ≤ t.size
      → read_chunk w l t offset limit m
        ≡ ok (
            chunk (record {
              transfer_id = t.key;
              offset = offset;
              next_offset = offset + length (piece offset);
              data_base64 = w.codec.b64encode (piece offset);
              eof = eqb (offset + length (piece offset)) t.size;
            }))
  unfolding read_chunk
  read_chunk-piece w offset h inside =
      let small : ltb l.chunk_bytes limit ≡ false = ground (arith, fits) in
      let within : ltb t.size offset ≡ false = ground (arith, inside) in
      rw (small, within, h.opens, held.file, read_chunk) refl

  whole :
      (offset : ℕ)
      → piece offset ++ drop (offset + length (piece offset)) f.content ≡ drop offset f.content
  whole offset =
      let after = drop offset f.content in
      ap (λ ys. piece offset ++ ys)
        (sym (drop-drop offset (length (piece offset)) f.content) ∙ drop-length-take limit after)
      ∙ take-append-drop limit after

  -- The client gets what is left of the file.
  pub fetch-rest :
      (ws : List World) (offset : ℕ)
      → All (Serves limit f.content m) ws
      → offset ≤ t.size
      → t.size - offset < length ws
      → fetch ws l owner runtime t.key limit offset m ≡ some (drop offset f.content)
  unfolding fetch
  fetch-rest [] offset h inside enough = absurd (omega (arith, enough))
  fetch-rest (w ∷ ws) offset h inside enough =
      let answer =
        handle-read_chunk w offset h.0 ∙ ap (λ r. (r, m)) (read_chunk-piece w offset h.0 inside) in
      let taken = length-take limit (drop offset f.content) in
      let left = length-drop offset f.content in
      elim (Bool-cases (eqb (offset + length (piece offset)) t.size)) [
        | inl e ↦
            rw (answer, (h.0).decodes offset, e, fetch)
              (ap some (
                take_whole limit (drop offset f.content)
                  (omega (arith, eqb→eq _ _ e, taken, left, held.sized))))
        | inr e ↦
            let on : 1 ≤ length (piece offset) =
              ground (arith, e, taken, left, held.sized, inside, some_bytes) in
            let further : offset + length (piece offset) ≤ t.size =
              omega (arith, taken, left, held.sized, inside) in
            let rest =
              fetch-rest ws (offset + length (piece offset)) h.1 further
                (omega (arith, on, enough, further)) in
            rw (answer, (h.0).decodes offset, e, fetch)
              (rw (ap (λ r. r.1) answer, rest) (ap some (whole offset)))
      ]
