-- ===== src/Transfers/Examples.antt =====
-- Runs of the file transfers, and their theorems at them.
use unified_personal_mcp.Prelude.{
  ℕ, ◌≡◌, refl, String, true, false, Option, none, some, List, [], ◌∷◌, arith, eqb, ltb, ◌+◌,
  contains, inl, inr, length, ◌==◌, if◌then◌else◌,
}
use unified_personal_mcp.Table.{select_one}
use unified_personal_mcp.Transfers.State.{
  Created, Limits, Manager, new_manager, Codec, Look, Source, given, Args, upload_begin,
  upload_chunk, upload_commit,
}
use unified_personal_mcp.Transfers.Neighbours.{Entry, Metadata, Neighbour, Patterns, refresh_caches}
use unified_personal_mcp.Transfers.Cache.{World, construct}
use unified_personal_mcp.Transfers.Upload.{is_created}
use unified_personal_mcp.Transfers.Upload.Commit.{copy}
use unified_personal_mcp.Transfers.Download.{snapshot}
use unified_personal_mcp.Transfers.Blocks.{copy-all, snapshot-all}
use unified_personal_mcp.Transfers.Recovery.{living_caches_stay}
use unified_personal_mcp.Transfers.Fetching.{no_args}
use unified_personal_mcp.Transfers.Calls.{Call, handles, closes_owner, closes, calls}
use unified_personal_mcp.Transfers.Quotas.{WithinQuotas, quotas_hold}
use unified_personal_mcp.Transfers.Files.{uploads_never_overwrite}

-- A digest by length, and an encoding of some texts.
abbrev digest : ℕ → String
digest n = if eqb n 1 then "d1" else if eqb n 2 then "d2" else "many"

abbrev pub decoded : String → Option (List ℕ)
decoded s =
    if s == "YQ=="
    then some (97 ∷ [])
    else if s == "Yg=="
    then some (98 ∷ [])
    else if s == "YWI="
    then some (97 ∷ 98 ∷ [])
    else if s == ""
    then some []
    else none

abbrev pub encoded : List ℕ → String
encoded [] = ""
encoded (b ∷ []) = if eqb b 97 then "YQ==" else "Yg=="
encoded (b ∷ c ∷ bs) = "YWI="

abbrev codec : Codec
codec = record {
  sha256 = λ bytes. digest (length bytes);
  is_sha256 = λ t. true;
  lower = λ t. t;
  b64decode = decoded;
  b64encode = encoded;
}

abbrev patterns : Patterns
patterns = record { is_nonce = λ t. true; is_part = λ nonce name. true; directory = λ nonce. nonce }

abbrev pub free_path : String → Look
free_path raw = record {
  refused = none;
  path = raw;
  display = raw;
  existed = false;
  full_control = false;
  ignored = false;
  parent_is_dir = true;
  parent_identity = 7;
}

abbrev two_bytes : String → Source
two_bytes raw = record {
  refused = none;
  regular = true;
  path = raw;
  display = raw;
  name = raw;
  identity = 3;
  size = 2;
  content = 97 ∷ 98 ∷ [];
  times_kept = true;
  refused_again = none;
  path_again = raw;
  identity_again = 3;
}

-- Surroundings in which nothing fails, at a time; new names and keys are the given ones.
abbrev pub world : ℕ → String → World
world now name = record {
  codec = codec;
  patterns = patterns;
  private_name = "file-transfers-own";
  now = now;
  time = now;
  neighbours = [];
  neighbours_again = [];
  mkdir = true;
  marker_error = λ entries. none;
  new_name = name;
  new_identity = now;
  new_key = name;
  opens = λ t. true;
  unlinks = λ t. true;
  look = free_path;
  look_again = free_path;
  copies = true;
  link_taken = false;
  unlinks_temporary = true;
  removes_cache = true;
  source = two_bytes;
}

abbrev pub limits : Limits
limits = record { max_file_bytes = 10; max_total_bytes = 20; chunk_bytes = 4 }

abbrev pub begin_two : Args
begin_two = record no_args {
  action = given upload_begin;
  path = given "a.txt";
  size = given 2;
  sha256 = given "d2";
}

abbrev send_two : Args
send_two = record no_args {
  action = given upload_chunk;
  transfer_id = given "t1";
  offset = given 0;
  data_base64 = given "YWI=";
}

abbrev commit_t1 : Args
commit_t1 = record no_args { action = given upload_commit; transfer_id = given "t1" }

-- An upload, the same target a second time, and the end of the task.
abbrev one_upload : List Call
one_upload =
    handles (world 1 "t1") "task" 0 begin_two
    ∷ handles (world 2 "t2") "task" 0 send_two
    ∷ handles (world 3 "t3") "task" 0 commit_t1
    ∷ []

abbrev after_upload : List Call
after_upload =
    handles (world 4 "t4") "task" 0 begin_two
    ∷ closes_owner (world 5 "t5") "task"
    ∷ closes (world 6 "t6")
    ∷ []

upload_arrives :
    (calls limits one_upload (construct (world 0 "t0")).1).project
    ≡ record { path = "a.txt"; content = 97 ∷ 98 ∷ [] } ∷ []
unfolding calls construct
upload_arrives = refl

quotas_hold_example :
    WithinQuotas limits (calls limits one_upload (construct (world 0 "t0")).1).transfers
quotas_hold_example = quotas_hold limits (world 0 "t0") one_upload (omega arith)

abbrev uploaded : Created
uploaded = record { path = "a.txt"; content = 97 ∷ 98 ∷ [] }

abbrev with_file : Manager
with_file = record new_manager { project = uploaded ∷ [] }

uploads_never_overwrite_example :
    select_one (is_created "a.txt") (calls limits after_upload with_file).project ≡ some uploaded
uploads_never_overwrite_example =
    uploads_never_overwrite limits "a.txt" uploaded after_upload with_file (omega arith) refl

abbrev three_bytes : List ℕ
three_bytes = 1 ∷ 2 ∷ 3 ∷ []

copy-all_example : copy 4 2 three_bytes ≡ three_bytes
copy-all_example = copy-all 4 2 three_bytes (omega arith) (omega arith)

-- The source has grown from two bytes to three.
snapshot-all_example :
    snapshot 4 2 2 0 three_bytes
    ≡ (if ltb 2 (0 + length three_bytes) then none else some three_bytes)
snapshot-all_example = snapshot-all 4 2 2 0 three_bytes (omega arith) (omega arith) (omega arith)

abbrev marker_entry : Entry
marker_entry = record { name = "marker"; regular = true; identity = 6; size = 10; mtime = 1 }

abbrev marker_content : Metadata
marker_content = record {
  is_this_format = true;
  pid = 4;
  created_at = 1;
  nonce = "file-transfers-x";
  files = [];
}

abbrev neighbour : Neighbour
neighbour = record {
  name = "file-transfers-x";
  is_direct = true;
  identity = 5;
  marker = some marker_entry;
  metadata = some marker_content;
  entries =
      marker_entry
      ∷ record { name = "notes"; regular = true; identity = 9; size = 1; mtime = 1 }
      ∷ [];
  alive = false;
  unchanged = true;
  alive_again = false;
  time_again = 5000;
  removable = true;
}

-- A cache that is old and whose process has ended, but with a file that its marker does not register.
living_caches_stay_example :
    contains "file-transfers-x"
      (refresh_caches patterns "file-transfers-own" 5000 (neighbour ∷ [])).removed
    ≡ false
living_caches_stay_example =
    living_caches_stay patterns "file-transfers-own" 5000 "file-transfers-x" (neighbour ∷ []) (
      (λ _. inr (
          inr (
            inr (
              inr (
                inr (
                  marker_entry,
                  marker_content,
                  refl,
                  refl,
                  inr (inr (inl (inr (inl (refl, inr tt))))),
                )))))),
      tt,
    )
