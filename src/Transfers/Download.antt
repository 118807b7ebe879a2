-- ===== src/Transfers/Download.antt =====
-- personal_mcp/file_transfer.py: `_download_begin` and `_download_chunk`.
use unified_personal_mcp.Prelude.{
  ℕ, zero, suc, ◌+◌, ◌-◌, min, String, not, ◌||◌, Option, none, some, List, [], ◌∷◌, ◌++◌, ◌==◌,
  eqb, ltb, leb, length, take, drop, if◌then◌else◌,
}
use unified_personal_mcp.Table.{update}
use unified_personal_mcp.Transfers.State.{
  io_error, invalid_argument, not_regular_file, source_changed, chunk_too_large, offset_mismatch,
  Result, ok, err, and_then, download, Transfer, Limits, Manager, Source, Argument, absent, unfit,
  given, fitting, Args, Reply, began, chunk,
}
use unified_personal_mcp.Transfers.Cache.{
  World, is_file, put_transfer, capacity, allocate, remove_staged,
}
use unified_personal_mcp.Transfers.Upload.{status_of, open_staged}

-- The loop that copies the source: each read asks for at most one byte more than is left of the size.
-- `none` if the source has grown. The fuel is a bound on the rounds.
unfoldable pub snapshot : ℕ → ℕ → ℕ → ℕ → List ℕ → Option (List ℕ)
snapshot zero chunk_bytes size total source = some []
snapshot (suc fuel) chunk_bytes size total source =
    let block = take (min chunk_bytes (size + 1 - total)) source in
    elim block [
      | [] ↦ some []
      | b ∷ bs ↦
          if ltb size (total + length (b ∷ bs))
          then none
          else elim (snapshot fuel chunk_bytes size (total + length (b ∷ bs))
              (drop (length (b ∷ bs)) source)) [ none ↦ none | some rest ↦ some ((b ∷ bs) ++ rest) ]
    ]

-- The checks after the copy.
unfoldable pub checked_copy : Source → List ℕ → Result (List ℕ)
checked_copy source bytes =
    if not (eqb (length bytes) source.size) || not source.times_kept
    then err source_changed
    else elim source.refused_again [
      | some code ↦ err code
      | none ↦
          if not (source.path_again == source.path)
            || not (eqb source.identity_again source.identity)
          then err source_changed
          else ok bytes
    ]

-- The copy, and the checks after it.
unfoldable pub stable_copy : Limits → Source → Result (List ℕ)
unfolding snapshot checked_copy
stable_copy l source =
    elim (snapshot (suc (length source.content)) l.chunk_bytes source.size 0 source.content) [
      | none ↦ err source_changed
      | some bytes ↦ checked_copy source bytes
    ]

abbrev pub new_download : World → String → ℕ → Source → String → String → List ℕ → Transfer
new_download w owner runtime source key staged bytes = record {
  key = key;
  owner = owner;
  runtime = runtime;
  direction = download;
  path = source.display;
  staged = staged;
  size = length bytes;
  sha256 = w.codec.sha256 bytes;
  created = w.now;
  target = none;
  parent_identity = none;
  next_offset = 0;
  committed = none;
}

-- The new transfer of what has been copied; if anything raised, the staged file goes.
unfoldable pub keep_snapshot :
    World
    → Limits
    → String
    → ℕ
    → Source
    → String
    → String
    → Result (List ℕ)
    → Manager
    → Result Reply × Manager
unfolding remove_staged status_of
keep_snapshot w l owner runtime source key staged (err code) m =
    and_then (remove_staged w staged m) (λ _ after. (err code, after))
keep_snapshot w l owner runtime source key staged (ok bytes) m =
    let item = new_download w owner runtime source key staged bytes in
    (
      ok (began (status_of w l item) source.name),
      record m {
        files = update (is_file staged) (λ f. record f { content = bytes }) m.files;
        transfers = put_transfer item m.transfers;
      },
    )

-- The snapshot into the staged file.
unfoldable pub take_snapshot :
    World → Limits → String → ℕ → Source → String → String → Manager → Result Reply × Manager
unfolding stable_copy keep_snapshot
take_snapshot w l owner runtime source key staged m =
    keep_snapshot w l owner runtime source key staged
      (if w.opens staged then stable_copy l source else err io_error) m

-- The part of `_download_begin` after the source is known.
unfoldable pub download_source :
    World → Limits → String → ℕ → Source → Manager → Result Reply × Manager
unfolding capacity allocate take_snapshot
download_source w l owner runtime source m =
    if not source.regular
    then (err not_regular_file, m)
    else and_then (capacity w l owner source.size m) (λ _ seen.
      and_then (allocate w l source.size seen)
        (λ (key, staged) after. take_snapshot w l owner runtime source key staged after))

-- `_download_begin`
unfoldable pub download_begin :
    World → Limits → String → ℕ → Args → Manager → Result Reply × Manager
unfolding download_source
download_begin w l owner runtime args m = elim (fitting args.path) [
  | none ↦ (err invalid_argument, m)
  | some raw ↦ if raw == "" then (err invalid_argument, m) else elim (w.source raw).refused [
    | some code ↦ (err code, m)
    | none ↦ download_source w l owner runtime (w.source raw) m
  ]
]

-- `args.get("limit", self.chunk_bytes)`, an integer of at least 1.
abbrev pub limit_of : Limits → Argument ℕ → Option ℕ
limit_of l absent = some l.chunk_bytes
limit_of l unfit = none
limit_of l (given limit) = if leb limit 0 then none else some limit

unfoldable pub read_chunk : World → Limits → Transfer → ℕ → ℕ → Manager → Result Reply
read_chunk w l t offset limit m =
    if ltb l.chunk_bytes limit
    then err chunk_too_large
    else if ltb t.size offset
    then err offset_mismatch
    else elim (open_staged w t m) [
      | none ↦ err io_error
      | some f ↦
          let bytes = take limit (drop offset f.content) in
          ok (
            chunk (record {
              transfer_id = t.key;
              offset = offset;
              next_offset = offset + length bytes;
              data_base64 = w.codec.b64encode bytes;
              eof = eqb (offset + length bytes) t.size;
            }))
    ]

-- `_download_chunk`
unfoldable pub download_chunk : World → Limits → Transfer → Args → Manager → Result Reply
unfolding read_chunk
download_chunk w l t args m = elim (fitting args.offset) [
  | none ↦ err invalid_argument
  | some offset ↦ elim (limit_of l args.limit) [
    | none ↦ err invalid_argument
    | some limit ↦ read_chunk w l t offset limit m
  ]
]
