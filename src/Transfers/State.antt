-- ===== src/Transfers/State.antt =====
-- personal_mcp/file_transfer.py: the fields of `FileTransferManager`, its transfers, the files of its
-- private cache, and what it asks of the outside.
use unified_personal_mcp.Prelude.{ℕ, String, Bool, Option, List, none, some, [], false}

-- The codes of ToolFailure, with what the runtime raises by itself, and TRANSFER_IO_ERROR.
pub data Code : Type 0 where
  invalid_argument transfer_closed transfer_not_found direction_mismatch file_too_large : Code
  owner_limit cleanup_required capacity_exceeded target_exists write_path_denied : Code
  parent_not_found already_committed chunk_too_large size_mismatch chunk_conflict : Code
  offset_mismatch incomplete hash_mismatch target_changed not_regular_file : Code
  source_changed symlink_escape io_error : Code
  runtime_failure : String → Code

pub data Result {ℓ} (A : Type ℓ) : Type ℓ where
  ok : A → Result A
  err : Code → Result A

pub data Direction : Type 0 where
  upload download : Direction

-- The dict that a commit keeps; its state is `committed`.
pub record Committed : Type 0 where
  pub transfer_id : String
  pub path : String
  pub size : ℕ
  pub sha256 : String

-- `_Transfer`, with its key in `_transfers`. `runtime` is the identity of the runtime, `staged` the name
-- of the file in the private root; `target` and `parent_identity` are those of an upload.
pub record Transfer : Type 0 where
  pub key : String
  pub owner : String
  pub runtime : ℕ
  pub direction : Direction
  pub path : String
  pub staged : String
  pub size : ℕ
  pub sha256 : String
  pub created : ℕ
  pub target : Option String
  pub parent_identity : Option ℕ
  pub next_offset : ℕ
  pub committed : Option Committed

-- An entry of the marker's `files`; `identity` stands for the device and inode.
pub record Registered : Type 0 where
  pub name : String
  pub identity : ℕ
  pub reserved : ℕ

-- A file of the private root; `regular` says that it is a private regular file.
pub record StagedFile : Type 0 where
  pub name : String
  pub identity : ℕ
  pub regular : Bool
  pub content : List ℕ

-- A file that an upload has created.
pub record Created : Type 0 where
  pub path : String
  pub content : List ℕ

pub record Limits : Type 0 where
  pub max_file_bytes : ℕ
  pub max_total_bytes : ℕ
  pub chunk_bytes : ℕ

-- The manager, its private root, and the files that it has created.
pub record Manager : Type 0 where
  pub transfers : List Transfer
  pub closed : Bool
  pub cache_created : Bool
  pub root_exists : Bool
  pub marker : List Registered
  pub files : List StagedFile
  pub external_bytes : ℕ
  pub cleanup_required : Bool
  pub orphan_pending : Bool
  pub project : List Created

abbrev pub new_manager : Manager
new_manager = record {
  transfers = [];
  closed = false;
  cache_created = false;
  root_exists = false;
  marker = [];
  files = [];
  external_bytes = 0;
  cleanup_required = false;
  orphan_pending = false;
  project = [];
}

-- The standard library's part: the digest, the test of a digest's text and its lower case, base64.
pub record Codec : Type 0 where
  pub sha256 : List ℕ → String
  pub is_sha256 : String → Bool
  pub lower : String → String
  pub b64decode : String → Option (List ℕ)
  pub b64encode : List ℕ → String

-- What a look at an upload's path finds: what the runtime or the test for links refuses, or the resolved
-- path, whether it exists apart from the files created here, and what is known of its parent.
pub record Look : Type 0 where
  pub refused : Option Code
  pub path : String
  pub display : String
  pub existed : Bool
  pub full_control : Bool
  pub ignored : Bool
  pub parent_is_dir : Bool
  pub parent_identity : ℕ

-- What a download's source is: what the runtime refuses, or the file, its size and bytes as they are
-- read, and what is found after that.
pub record Source : Type 0 where
  pub refused : Option Code
  pub regular : Bool
  pub path : String
  pub display : String
  pub name : String
  pub identity : ℕ
  pub size : ℕ
  pub content : List ℕ
  pub times_kept : Bool
  pub refused_again : Option Code
  pub path_again : String
  pub identity_again : ℕ

-- An argument of the dict: absent, of the wrong type or range, or given.
pub data Argument {ℓ} (A : Type ℓ) : Type ℓ where
  absent unfit : Argument A
  given : A → Argument A

-- The argument, if it is given and fit.
abbrev pub fitting {ℓ} : {A : Type ℓ} → Argument A → Option A
fitting (given a) = some a
fitting absent = none
fitting unfit = none

pub data Action : Type 0 where
  upload_begin download_begin upload_chunk upload_commit download_chunk status release : Action
  unsupported : Action

pub record Args : Type 0 where
  pub action : Argument Action
  pub transfer_id : Argument String
  pub size : Argument ℕ
  pub sha256 : Argument String
  pub path : Argument String
  pub offset : Argument ℕ
  pub limit : Argument ℕ
  pub data_base64 : Argument String

-- `_status`
pub record Status : Type 0 where
  pub transfer_id : String
  pub direction : Direction
  pub is_committed : Bool
  pub size : ℕ
  pub sha256 : String
  pub next_offset : ℕ
  pub chunk_bytes : ℕ
  pub expires_in_seconds : ℕ

pub record Chunk : Type 0 where
  pub transfer_id : String
  pub offset : ℕ
  pub next_offset : ℕ
  pub data_base64 : String
  pub eof : Bool

pub data Reply : Type 0 where
  shown : Status → Reply
  began : Status → String → Reply
  committed : Committed → Reply
  chunk : Chunk → Reply
  released : String → Reply

-- Go on with the result, unless the call raised; what it has changed stays changed.
abbrev pub and_then {ℓ κ} :
    {A : Type ℓ} {B : Type κ}
    → Result A × Manager
    → (A → Manager → Result B × Manager)
    → Result B × Manager
and_then (err code, m) next = (err code, m)
and_then (ok a, m) next = next a m
