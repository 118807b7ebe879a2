-- ===== src/Operations/Examples.antt =====
-- Runs of the operation journal, and its theorems at them.
use unified_personal_mcp.Prelude.{
  String, true, some, List, [], ◌∷◌, ◌≡◌, refl, ◌≤◌, arith, length, All,
}
use unified_personal_mcp.Table.{select_one}
use unified_personal_mcp.Operations.Json.{text, object, end}
use unified_personal_mcp.Operations.Journal.{Operation, Limits, Codec, completed, at}
use unified_personal_mcp.Operations.Run.{Request, Setting, returned}
use unified_personal_mcp.Operations.Receipts.{Later}
use unified_personal_mcp.Operations.Events.{
  Event, requests, returns, reopens, steps, executions, spares,
}
use unified_personal_mcp.Operations.Once.{receipts_are_kept, run_at_most_once}
use unified_personal_mcp.Operations.Capacity.{records_are_bounded}

abbrev limits : Limits
limits = record {
  max_result_bytes = 1000;
  retention_seconds = 600;
  max_records = 2;
  max_retained_bytes = 1500;
}

abbrev plain : String → String
plain t = t

-- A codec that writes every value as one text.
abbrev codec : Codec
codec = record {
  dumps = λ v. some "{}";
  loads = λ t. some (object end);
  sha256 = plain;
  encode_request = λ name arguments. some name;
  decimal = λ n. "n";
  preview = λ n t. t;
}

abbrev request : String → Request
request key = record { owner = "me"; request_id = key; name = "write_file"; arguments = text "x" }

abbrev setting : Setting
setting = record { now = 100; closed_owners = "old" ∷ []; may_dispatch = true }

-- A request, its end, the same request again, a restart, another request, and the first one once more.
abbrev history : List Event
history =
    requests setting (request "a")
    ∷ returns 101 (request "a") (returned (object end))
    ∷ requests setting (request "a")
    ∷ reopens
    ∷ requests setting (request "b")
    ∷ requests setting (request "a")
    ∷ []

executed_once : executions limits codec "me" "a" history [] ≡ 1
unfolding executions
executed_once = refl

history-spares : All (λ e. spares "me" e ≡ true) history
history-spares = (refl, (refl, (refl, (refl, (refl, (refl, tt))))))

run_at_most_once_example : executions limits codec "me" "a" history [] ≤ 1
run_at_most_once_example = run_at_most_once limits codec "me" "a" history [] history-spares

abbrev receipt : Operation
receipt = record {
  owner = "me";
  request_id = "a";
  digest = "write_file";
  state = completed;
  result = some "{}";
  name = "write_file";
  updated = 100;
}

receipts_are_kept_example :
    (s : Operation) × (select_one (at "me" "a") (steps limits codec history (receipt ∷ []))
      ≡ some s)
    × Later receipt s
receipts_are_kept_example =
    receipts_are_kept limits codec "me" "a" history (receipt ∷ []) receipt history-spares refl

one_record : length (receipt ∷ []) ≤ limits.max_records
one_record = omega arith

records_are_bounded_example : length (steps limits codec history (receipt ∷ [])) ≤ 2
records_are_bounded_example = records_are_bounded limits codec history (receipt ∷ []) one_record
