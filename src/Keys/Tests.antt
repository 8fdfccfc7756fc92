-- ===== src/Keys/Tests.antt =====
-- Runs of src/db/repos/api-keys.ts on one key, and instances of what is proved of it.
use emcp.Prelude.{◌≡◌, refl, ◌⊎◌, true, false, none, some, List, [], ◌∷◌, arith}
use emcp.Keys.{
  active, deleted, ApiKeyRecord, Db, CreateApiKeyInput, RecordUsageInput, first, update, select,
  find_by_id, find_by_hash, find_by_prefix_unique, one, create, blacklist, unblacklist, soft_delete,
  set_rate_limit, touch_last_used,
}
use emcp.Keys.Usage.{
  Connection, counted_key, count_on_keys, counted_tool, upsert, count_on_tool, transaction,
  record_usage,
}
use emcp.Keys.Usage.Atomic.{Recorded, record_usage-atomic}
use emcp.Keys.Usage.Covered.{IsCovered, run-IsCovered}
use emcp.Keys.Operations.{
  Op, creates, blacklists, unblacklists, soft_deletes, records, touches, run, empty,
}
use emcp.Keys.Lifecycle.{HasStatus, final_status, run-HasStatus, run-deleted, unblacklist-blacklist}

abbrev input : CreateApiKeyInput
input = record {
  key_prefix = "mcp_live_abcdefg";
  key_hash = "h1";
  name = "client";
  rate_limit_per_minute = none;
  allow_no_origin = none;
}

abbrev usage : RecordUsageInput
usage = record {
  key_id = "k1";
  tool_name = some "calculator";
  bytes_in = 10;
  bytes_out = 20;
  compute_ms = 3;
}

abbrev healthy : Connection
healthy = record { connects = true; begins = true; updates = true; upserts = true; commits = true }

abbrev no_commit : Connection
no_commit = record {
  connects = true;
  begins = true;
  updates = true;
  upserts = true;
  commits = false;
}

abbrev script : List Op
script = creates "k1" 5 60 input ∷ records usage 6 healthy ∷ records usage 7 no_commit ∷ []

abbrev row : ApiKeyRecord
row = record {
  id = "k1";
  key_prefix = "mcp_live_abcdefg";
  key_hash = "h1";
  name = "client";
  status = deleted;
  rate_limit_per_minute = 60;
  allow_no_origin = false;
  created_at = 5;
  last_used_at = none;
  blacklisted_at = none;
  deleted_at = some 9;
  request_count = 1;
  bytes_in = 10;
  bytes_out = 20;
  total_compute_ms = 3;
}

abbrev gone : Db
gone = record { api_keys = row ∷ []; tool_usage = [] }

all_keys : Unit {0}
unfolding first update select find_by_id find_by_hash find_by_prefix_unique create blacklist
    unblacklist soft_delete set_rate_limit touch_last_used counted_key count_on_keys counted_tool
    upsert count_on_tool transaction record_usage run
all_keys = tt

-- the second request is rolled back
counts_once :
    first (λ r. true) (run empty script).api_keys
    ≡ some (record row { status = active; deleted_at = none; last_used_at = some 6 })
unfolding all_keys
counts_once = refl

found_by_prefix : find_by_prefix_unique gone "mcp_live_abcdefg" ≡ one row
unfolding all_keys
found_by_prefix = refl

gone-HasStatus : HasStatus "k1" deleted (find_by_id gone "k1")
unfolding all_keys
gone-HasStatus = record { row = row; found = refl; named = refl; status = refl }

run-IsCovered_example : IsCovered (run empty script)
run-IsCovered_example = run-IsCovered script

record_usage-atomic_example :
    (record_usage gone usage 8 no_commit ≡ gone)
    ⊎ Recorded usage gone (record_usage gone usage 8 no_commit)
record_usage-atomic_example = record_usage-atomic gone usage 8 no_commit

run-HasStatus_example :
    HasStatus "k1"
      (final_status (unblacklists "k1" ∷ blacklists "k1" 9 ∷ []) "k1" deleted)
      (find_by_id (run gone (unblacklists "k1" ∷ blacklists "k1" 9 ∷ [])) "k1")
run-HasStatus_example =
    run-HasStatus gone (unblacklists "k1" ∷ blacklists "k1" 9 ∷ []) "k1" deleted gone-HasStatus

run-deleted_example :
    HasStatus "k1" deleted
      (find_by_id (run gone (unblacklists "k1" ∷ soft_deletes "k1" 9 ∷ touches "k1" 9 ∷ [])) "k1")
run-deleted_example =
    run-deleted gone (unblacklists "k1" ∷ soft_deletes "k1" 9 ∷ touches "k1" 9 ∷ []) "k1"
      gone-HasStatus (omega arith)

unblacklist-blacklist_example :
    HasStatus "k1" active (find_by_id (unblacklist (blacklist gone "k1" 10) "k1") "k1")
unblacklist-blacklist_example = unblacklist-blacklist gone "k1" 10 deleted gone-HasStatus
