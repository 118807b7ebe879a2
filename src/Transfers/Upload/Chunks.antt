-- ===== src/Transfers/Upload/Chunks.antt =====
-- personal_mcp/file_transfer.py: `_upload_chunk`.
use unified_personal_mcp.Prelude.{
  ℕ, zero, suc, ◌+◌, ◌-◌, ◌*◌, ◌/◌, String, count, Bool, true, false, not, ◌&&◌, ◌||◌, none, some,
  List, [], ◌∷◌, ◌++◌, ◌==◌, eqb, ltb, leb, length, take, drop, is_some, if◌then◌else◌,
}
use unified_personal_mcp.Table.{update}
use unified_personal_mcp.Transfers.State.{
  io_error, invalid_argument, already_committed, chunk_too_large, size_mismatch, chunk_conflict,
  offset_mismatch, Result, ok, err, Transfer, StagedFile, Limits, Manager, fitting, Args, Reply,
  shown,
}
use unified_personal_mcp.Transfers.Cache.{World, is_file, has_key}
use unified_personal_mcp.Transfers.Upload.{status_of, open_staged}

-- `seek(offset)` and `write(data)`; a gap that the seek leaves is filled with zeros.
abbrev pub zeros : ℕ → List ℕ
zeros zero = []
zeros (suc n) = 0 ∷ zeros n

unfoldable pub write_at : ℕ → List ℕ → List ℕ → List ℕ
write_at offset bytes content =
    take offset (content ++ zeros (offset - length content))
    ++ bytes
    ++ drop (offset + length bytes) content

-- `data != stream.read(len(data))`, as lists of bytes.
abbrev pub same_bytes : List ℕ → List ℕ → Bool
same_bytes [] [] = true
same_bytes (x ∷ xs) (y ∷ ys) = eqb x y && same_bytes xs ys
same_bytes _ _ = false

abbrev pub write_file : String → ℕ → List ℕ → List StagedFile → List StagedFile
write_file name offset bytes =
    update (is_file name) (λ f. record f { content = write_at offset bytes f.content })

-- The chunk's place: a repeated chunk is compared, one that goes on is written.
unfoldable pub place_chunk :
    World → Limits → Transfer → ℕ → List ℕ → Manager → Result Reply × Manager
unfolding status_of write_at
place_chunk w l t offset bytes m = elim (open_staged w t m) [
  | none ↦
      if ltb offset t.next_offset && leb (offset + length bytes) t.next_offset
        || eqb offset t.next_offset
      then (err io_error, m)
      else (err offset_mismatch, m)
  | some f ↦
      if ltb offset t.next_offset && leb (offset + length bytes) t.next_offset
      then (if same_bytes (take (length bytes) (drop offset f.content)) bytes
          then (ok (shown (status_of w l t)), m)
          else (err chunk_conflict, m))
      else if not (eqb offset t.next_offset)
      then (err offset_mismatch, m)
      else let moved : Transfer = record t { next_offset = offset + length bytes } in
        (
          ok (shown (status_of w l moved)),
          record m {
            files = write_file t.staged offset bytes m.files;
            transfers =
                update (has_key t.key) (λ u. record u { next_offset = offset + length bytes })
                  m.transfers;
          },
        )
]

-- The checks of the chunk's text and bytes.
unfoldable pub decoded_chunk : World → Limits → String → Result (List ℕ)
decoded_chunk w l encoded =
    if encoded == ""
    then err invalid_argument
    else if ltb (4 * ((l.chunk_bytes + 2) / 3)) (count encoded)
    then err chunk_too_large
    else elim (w.codec.b64decode encoded) [
      | none ↦ err invalid_argument
      | some bytes ↦
          if leb (length bytes) 0
          then err invalid_argument
          else if ltb l.chunk_bytes (length bytes)
          then err chunk_too_large
          else ok bytes
    ]

unfoldable pub chunk_at : World → Limits → Transfer → ℕ → String → Manager → Result Reply × Manager
unfolding decoded_chunk place_chunk
chunk_at w l t offset encoded m = elim (decoded_chunk w l encoded) [
  | err code ↦ (err code, m)
  | ok bytes ↦
      if ltb t.size (offset + length bytes)
      then (err size_mismatch, m)
      else place_chunk w l t offset bytes m
]

-- `_upload_chunk`
unfoldable pub upload_chunk : World → Limits → Transfer → Args → Manager → Result Reply × Manager
unfolding chunk_at
upload_chunk w l t args m =
    if is_some t.committed then (err already_committed, m) else elim (fitting args.offset) [
      | none ↦ (err invalid_argument, m)
      | some offset ↦ elim (fitting args.data_base64) [
        | none ↦ (err invalid_argument, m)
        | some encoded ↦ chunk_at w l t offset encoded m
      ]
    ]
