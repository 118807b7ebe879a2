-- ===== src/Transfers/Rounds.antt =====
-- Round trips of the file transfers, at concrete files.
use unified_personal_mcp.Prelude.{
  ℕ, zero, suc, ◌≡◌, refl, none, some, List, [], ◌∷◌, arith, take, drop, drop_whole, All, true,
  false,
}
use unified_personal_mcp.Transfers.State.{
  Manager, new_manager, Transfer, Status, StagedFile, upload, download,
}
use unified_personal_mcp.Transfers.Cache.{World, is_expired}
use unified_personal_mcp.Transfers.Upload.{target}
use unified_personal_mcp.Transfers.Handle.{handle}
use unified_personal_mcp.Transfers.Fetching.{fetch, Serves}
use unified_personal_mcp.Transfers.Downloads.{begin_args, downloads_return}
use unified_personal_mcp.Transfers.Sending.{Piece, send, Sending, Fits}
use unified_personal_mcp.Transfers.Uploads.{commit_args, Lands, Arrives, uploads_arrive}
use unified_personal_mcp.Transfers.Examples.{decoded, encoded, world, limits, free_path, begin_two}

abbrev source_world : World
source_world = world 1 "t1"

-- The download of two bytes, byte by byte.
abbrev begun : Manager
begun = (handle source_world limits "task" 0 (begin_args "b.txt") new_manager).1

abbrev begun_status : Status
begun_status = record {
  transfer_id = "t1";
  direction = download;
  is_committed = false;
  size = 2;
  sha256 = "d2";
  next_offset = 0;
  chunk_bytes = 4;
  expires_in_seconds = 900;
}

abbrev begun_transfer : Transfer
begun_transfer = record {
  key = "t1";
  owner = "task";
  runtime = 0;
  direction = download;
  path = "b.txt";
  staged = "t1";
  size = 2;
  sha256 = "d2";
  created = 1;
  target = none;
  parent_identity = none;
  next_offset = 0;
  committed = none;
}

pieces_decode :
    (offset : ℕ)
    → decoded (encoded (take 1 (drop offset (97 ∷ 98 ∷ []))))
      ≡ some (take 1 (drop offset (97 ∷ 98 ∷ [])))
pieces_decode zero = refl
pieces_decode (suc zero) = refl
pieces_decode (suc (suc n)) = rw (drop_whole {A = ℕ} n [] (omega arith)) refl

serves :
    (now : ℕ)
    → is_expired now (begun_transfer) ≡ false
    → Serves 1 (97 ∷ 98 ∷ []) begun (world now "t")
unfolding handle
serves now e = record { fresh = (e, tt); opens = λ name. refl; decodes = pieces_decode }

downloads_return_example :
    (fetch (world 2 "t" ∷ world 3 "t" ∷ world 4 "t" ∷ []) limits "task" 0 "t1" 1 0 begun
      ≡ some (97 ∷ 98 ∷ []))
    × (begun_status.size ≡ 2)
    × (begun_status.sha256 ≡ "d2")
unfolding handle
downloads_return_example =
    downloads_return source_world limits "task" 0 "b.txt" "b.txt" 1 new_manager begun begun_status
      (world 2 "t" ∷ world 3 "t" ∷ world 4 "t" ∷ []) refl
      (serves 2 refl, (serves 3 refl, (serves 4 refl, tt))) (omega arith) (omega arith)
      (omega arith)

-- The upload of two bytes, in two chunks.
abbrev ready : Manager
ready = (handle source_world limits "task" 0 begin_two new_manager).1

abbrev upload_a : Transfer
upload_a = record {
  key = "t1";
  owner = "task";
  runtime = 0;
  direction = upload;
  path = "a.txt";
  staged = "t1";
  size = 2;
  sha256 = "d2";
  created = 1;
  target = some "a.txt";
  parent_identity = some 7;
  next_offset = 0;
  committed = none;
}

abbrev staged_a : StagedFile
staged_a = record { name = "t1"; identity = 1; regular = true; content = [] }

upload_a-Sending : Sending "task" 0 upload_a staged_a ready
unfolding handle
upload_a-Sending = record {
  is_open = refl;
  found = refl;
  owner_is = refl;
  runtime_is = refl;
  direction = refl;
  uncommitted = refl;
  file = refl;
  reached = refl;
}

abbrev pieces_a : List Piece
pieces_a =
    record { world = world 2 "t"; text = "YQ=="; bytes = 97 ∷ [] }
    ∷ record { world = world 3 "t"; text = "Yg=="; bytes = 98 ∷ [] }
    ∷ []

pieces_a-Fits : All (Fits limits) pieces_a
pieces_a-Fits = (
  record {
    decodes = refl;
    some_text = refl;
    short_text = omega arith;
    some_bytes = omega arith;
    few_bytes = omega arith;
    opens = λ name. refl;
  },
  (
    record {
      decodes = refl;
      some_text = refl;
      short_text = omega arith;
      some_bytes = omega arith;
      few_bytes = omega arith;
      opens = λ name. refl;
    },
    tt,
  ),
)

upload_a-Lands : Lands (world 4 "t") upload_a (free_path "a.txt") (free_path "a.txt") []
unfolding target
upload_a-Lands = record {
  found = refl;
  same = refl;
  found_again = refl;
  same_again = refl;
  copies = refl;
  link_free = refl;
  temporary = refl;
  marker = λ entries. refl;
  opens = λ name. refl;
  unlinks = λ name. refl;
}

uploads_arrive_example :
    Arrives upload_a (free_path "a.txt") (free_path "a.txt") (97 ∷ 98 ∷ []) [] (
      handle
        (world 4 "t")
        limits
        "task"
        0
        (commit_args "t1")
        (send limits "task" 0 "t1" 0 pieces_a ready))
unfolding handle
uploads_arrive_example =
    uploads_arrive limits "task" 0 refl (omega arith) upload_a staged_a ready pieces_a (world 4 "t")
      (free_path "a.txt") (free_path "a.txt") upload_a-Sending pieces_a-Fits
      ((refl, tt), ((refl, tt), tt)) (refl, tt) refl refl upload_a-Lands
