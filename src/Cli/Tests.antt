-- ===== src/Cli/Tests.antt =====
-- Runs of src/cli/keys.ts on a database with one key, and an instance.
use emcp.Prelude.{
  ℕ, ◌≡◌, refl, true, false, String, Option, none, some, List, [], ◌∷◌, codes, same_text, split,
  strip_prefix, to_lower, is_decimal, decimal_from, is_lower_hex,
}
use emcp.Keys.{
  ApiKeyRecord, ApiKeyStatus, active, blacklisted, deleted, Db, first, select, update, find_by_id,
  find_by_hash, find_by_prefix_unique, create, blacklist, unblacklist, soft_delete, set_rate_limit,
}
use emcp.Address.{trim_start, trim_end}
use emcp.Address.Cidr.{is_canonical}
use emcp.Cli.{
  Arguments, Surroundings, are_uuid_parts, is_uuid, find_key, confirm, digits_of, parse_positive,
  parse_canonical,
}
use emcp.Cli.Commands.{
  on_target, run_blacklist, run_unblacklist, run_delete, run_show, run_set_rate_limit, create_named,
  run_create, run_list, command_named, run_command, dispatch, inherited_named, ends, no_code,
}

all_cli : Unit {0}
unfolding same_text split strip_prefix to_lower is_decimal decimal_from is_lower_hex first select
    update find_by_id find_by_hash find_by_prefix_unique create blacklist unblacklist soft_delete
    set_rate_limit trim_start trim_end is_canonical are_uuid_parts is_uuid find_key confirm
    digits_of parse_positive parse_canonical on_target run_blacklist run_unblacklist run_delete
    run_show run_set_rate_limit create_named run_create run_list command_named inherited_named
    run_command dispatch
all_cli = tt

abbrev uuid : String
uuid = "0a1b2c3d-0000-4000-8000-0123456789ab"

abbrev row : ApiKeyStatus → Option ℕ → ApiKeyRecord
row status blacklisted_at = record {
  id = uuid;
  key_prefix = "mcp_live_AAAA";
  key_hash = "h1";
  name = "client";
  status = status;
  rate_limit_per_minute = 60;
  allow_no_origin = false;
  created_at = 5;
  last_used_at = none;
  blacklisted_at = blacklisted_at;
  deleted_at = some 6;
  request_count = 0;
  bytes_in = 0;
  bytes_out = 0;
  total_compute_ms = 0;
}

abbrev db_of : ApiKeyRecord → Db
db_of r = record { api_keys = r ∷ []; tool_usage = [] }

abbrev around : Surroundings
around = record {
  reads = true;
  writes = true;
  answer = codes " No ";
  now = 7;
  new_id = "k2";
  new_prefix = "mcp_live_BBBB";
  new_hash = "h2";
  default_limit = 100;
}

abbrev arguments : List String → Arguments
arguments positionals = record {
  positionals = positionals;
  yes = true;
  name = none;
  rate_limit = none;
  allow_no_origin = false;
  status = none;
}

abbrev same : String → String
same id = id

-- a deleted key, named by its id, is blacklisted
blacklists_deleted :
    dispatch same
      (db_of (row deleted none))
      around
      (some "blacklist")
      (some (arguments (uuid ∷ [])))
    ≡ ends 0 (db_of (row blacklisted (some 7)))
unfolding all_cli
blacklists_deleted = refl

-- and then made active
revives_deleted :
    dispatch same
      (db_of (row blacklisted (some 7)))
      around
      (some "unblacklist")
      (some (arguments ("mcp_live_AAAA" ∷ [])))
    ≡ ends 0 (db_of (row active none))
unfolding all_cli
revives_deleted = refl

misses_key :
    dispatch same (db_of (row active none)) around (some "delete") (some (arguments ("other" ∷ [])))
    ≡ ends 1 (db_of (row active none))
unfolding all_cli
misses_key = refl

wants_canonical_limit :
    dispatch same
      (db_of (row active none))
      around
      (some "set-rate-limit")
      (some (arguments (uuid ∷ "010" ∷ [])))
    ≡ ends 2 (db_of (row active none))
unfolding all_cli
wants_canonical_limit = refl

asks_before_it_deletes :
    dispatch same
      (db_of (row active none))
      around
      (some "delete")
      (some (record (arguments (uuid ∷ [])) { yes = false }))
    ≡ ends 0 (db_of (row active none))
unfolding all_cli
asks_before_it_deletes = refl

-- a name that every object inherits
inherits_command :
    (dispatch same (db_of (row active none)) around (some "constructor") none ≡ no_code)
    × (dispatch same (db_of (row active none)) around (some "valueOf") none
        ≡ ends 3 (db_of (row active none)))
unfolding all_cli
inherits_command = (refl, refl)
