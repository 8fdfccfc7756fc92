-- ===== src/Server/ToolCall/Tests.antt =====
-- Runs of the tool wrapper of src/server.ts.
use emcp.Prelude.{◌≡◌, refl, true, false, none, [], ◌∷◌}
use emcp.Errors.{rate_limit_error, transient_error}
use emcp.Keys.{Db, active}
use emcp.Keys.Usage.{Connection}
use emcp.Server.ToolCall.{app, foreign, Ended, threw, ToolCall, by_shutdown, throws, call_tool}

abbrev connection : Connection
connection = record {
  connects = true;
  begins = true;
  updates = true;
  upserts = true;
  commits = true;
}

abbrev call : Ended → ToolCall
call ended = record {
  key_id = "k1";
  tool = "echo";
  bytes_in = 10;
  duration_ms = 5;
  ended = ended;
  aborted = false;
  now = 9;
  connection = connection;
}

abbrev db : Db
db = record {
  api_keys =
      record {
        id = "k1";
        key_prefix = "mcp_live_AAAAAAA";
        key_hash = "h1";
        name = "client";
        status = active;
        rate_limit_per_minute = 60;
        allow_no_origin = true;
        created_at = 5;
        last_used_at = none;
        blacklisted_at = none;
        deleted_at = none;
        request_count = 0;
        bytes_in = 0;
        bytes_out = 0;
        total_compute_ms = 0;
      }
      ∷ [];
  tool_usage = [];
}

-- what is no AppError is hidden
hides_error : (call_tool db (call (threw foreign))).answer ≡ throws transient_error
unfolding call_tool
hides_error = refl

counts_no_rate_limit : (call_tool db (call (threw (app rate_limit_error)))).status ≡ none
unfolding call_tool
counts_no_rate_limit = refl

tells_shutdown :
    (call_tool db (record (call (threw foreign)) { aborted = true })).outcome ≡ by_shutdown
unfolding call_tool
tells_shutdown = refl
