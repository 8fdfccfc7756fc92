-- ===== src/Server/Tests.antt =====
-- Runs of src/server.ts with one key, one session and a reader of two bodies, and instances.
use emcp.Prelude.{
  ℕ, ◌+◌, ◌≤◌, ◌-◌, ◌≡◌, refl, true, false, Option, none, some, String, List, [], ◌∷◌, arith, codes,
  same_text, to_lower, eq_iff, split, strip_prefix, if◌then◌else◌,
}
use emcp.Errors.{session_not_found_error, http_status, json_rpc_code}
use emcp.Keys.{ApiKeyRecord, active, first, find_by_hash, touch_last_used, update}
use emcp.Auth.{
  is_base64url, matches_key_body, neg_cache_key, cached, forget, remember, key_of, admit, judge,
  look_up, check_token, authenticate, AuthenticatedKey,
}
use emcp.Headers.{
  single, get_header, after_first, before_colon, colons, strip_port, one_value, validate_headers,
}
use emcp.Address.{get_client_ip, is_trusted}
use emcp.RateLimit.{
  Store, RateLimitResult, keep, live, zadd, oldest, oldest_from, sliding_window, validate_input,
  to_result, check,
}
use emcp.Server.Json.{Json, null, object, member, no_member, text, find_member, property, peek_tool}
use emcp.Server.Sessions.{
  Sessions, get, set, remove, touch, remove_session, touch_session, evict_over, evict_idle,
  close_over, close, per_key_count, check_caps, finish_create,
}
use emcp.Server.Gate.{
  Config, Method, get_method, post_method, Request, Tick, Moment, Backend, Response,
  write_json_rpc_error, too_many, limit_scope, read_body, tool_limit,
}
use emcp.Server.Gate.Stages.{
  after_tool, per_tool, after_parse, after_body, after_key, per_key, after_auth, after_address,
  gate,
}
use emcp.Server.Route.{
  to_session, to_new, route, after_gate, handle_mcp, handed, unanswered, answered, answers,
}
use emcp.Server.Requests.{
  is_loopback, status_of, all_ok_of, compute_health_all_ok, handle_health, handle_metrics,
  handle_request, status, mcp,
}
use emcp.Server.Sessions.Kept.{IsConsistent}
use emcp.Server.Sessions.Steps.{start, Reach, here, next, begins, finishes, Reach-IsConsistent}
use emcp.Server.Sessions.Bounds.{Reach-caps}
use emcp.Server.Admission.{Admitted, Answered, HasNullBody}
use emcp.Server.Entitled.{IsOwn, handle_mcp_handed, handle_mcp_answered, handle_mcp_unanswered}
use emcp.Server.Ownership.{route-foreign}

all_server : Unit {0}
unfolding same_text to_lower split strip_prefix http_status json_rpc_code first find_by_hash
    touch_last_used update is_base64url matches_key_body neg_cache_key cached forget remember admit
    judge look_up check_token authenticate get_header after_first before_colon colons strip_port
    one_value validate_headers get_client_ip is_trusted keep live zadd oldest oldest_from
    sliding_window validate_input to_result check find_member property peek_tool get set remove
    touch remove_session touch_session evict_over evict_idle close_over close per_key_count
    check_caps finish_create write_json_rpc_error too_many limit_scope read_body tool_limit
    after_tool per_tool after_parse after_body after_key per_key after_auth after_address gate
    to_session to_new route after_gate handle_mcp is_loopback status_of all_ok_of
    compute_health_all_ok handle_health handle_metrics handle_request
all_server = tt

abbrev config : Config
config = record {
  public_host = codes "emcp.example";
  allowed_origins = codes "https://app.example" ∷ [];
  trusted_proxy_cidrs = [];
  pre_auth_rate_limit_per_minute = 5;
  mcp_max_body_bytes = 8;
  caps = record { max_sessions_total = 2; max_sessions_per_key = 1 };
  tools = (codes "echo", some 1) ∷ (codes "other", none) ∷ [];
  draw = 1;
}

abbrev hash : List ℕ → String
hash s = "h1"

abbrev call : Json
call = object (
    member (codes "method") (text (codes "tools/call")) (
      member (codes "params") (object (member (codes "name") (text (codes "echo")) no_member))
        no_member))

-- the body `null`, and every other a call of the tool `echo`
abbrev parse : List ℕ → Option Json
parse s = some (if same_text s (codes "null") then null else call)

abbrev row : ApiKeyRecord
row = record {
  id = "k1";
  key_prefix = "mcp_live_AAAAAAA";
  key_hash = "h1";
  name = "client";
  status = active;
  rate_limit_per_minute = 60;
  allow_no_origin = true;
  created_at = 5;
  last_used_at = none;
  blacklisted_at = none;
  deleted_at = none;
  request_count = 0;
  bytes_in = 0;
  bytes_out = 0;
  total_compute_ms = 0;
}

abbrev idle_store : Store
idle_store scope = record { members = []; expires_at = none }

abbrev backend : Backend
backend = record {
  auth = record { db = record { api_keys = row ∷ []; tool_usage = [] }; cache = [] };
  limits = idle_store;
}

abbrev tick : Tick
tick = record { reaches = true; now = 9; redis_now = 9 }

abbrev moment : Moment
moment = record {
  auth = record {
    wired = true;
    reads = true;
    finds = true;
    writes = true;
    touches = true;
    ttl_sec = none;
    now = 9;
  };
  by_address = tick;
  by_key = tick;
  by_tool = tick;
}

abbrev request : Method → List (List ℕ) → Request
request method chunks = record {
  method = method;
  remote_address = codes "8.8.4.4";
  headers =
      (codes "host", some (single (codes "emcp.example")))
      ∷ (
        codes "authorization",
        some (single (codes "Bearer mcp_live_AAAAAAAAAAAAAAAAAAAAAAAAAAAAAAAAAAAAAAAAAAA")),
      )
      ∷ (codes "mcp-session-id", some (single (codes "s1")))
      ∷ [];
  chunks = chunks;
  ends = true;
}

abbrev holder : AuthenticatedKey
holder = key_of row

abbrev one_session : Sessions
one_session = record {
  table = (codes "s1", record { api_key_id = "k1"; last_activity_ms = 3 }) ∷ [];
  active = 1;
}

hands_over_post :
    (handle_mcp hash parse config
      (request post_method (codes "x" ∷ []))
      moment
      backend
      one_session
      9).0
    ≡ handed holder (codes "s1") false (some call)
unfolding all_server
hands_over_post = refl

leaves_null_unanswered :
    (handle_mcp hash parse config
      (request post_method (codes "nu" ∷ codes "ll" ∷ []))
      moment
      backend
      one_session
      9).0
    ≡ unanswered
unfolding all_server
leaves_null_unanswered = refl

refuses_unknown_session :
    (handle_mcp hash parse config
      (request get_method [])
      moment
      backend
      (record { table = []; active = 0 })
      9).0
    ≡ answered (record {
      status = 404;
      code = some 32006;
      retry_after = none;
      limits = some (record {
        allowed = true;
        limit = 60;
        remaining = 59;
        reset_at_ms = 60009;
        retry_after_sec = none;
      });
    })
unfolding all_server
refuses_unknown_session = refl

serves_pages :
    (handle_request (codes "/health") get_method (some (codes "::1")) true true ≡ status 200)
    × (handle_request (codes "/health") get_method (some (codes "::1")) true false ≡ status 503)
    × (handle_request (codes "/metrics") get_method (some (codes "10.0.0.1")) true true
        ≡ status 403)
    × (handle_request (codes "/mcp") get_method none true true ≡ mcp)
    × (handle_request (codes "/other") get_method none true true ≡ status 404)
unfolding all_server
serves_pages = (refl, refl, refl, refl, refl)

handle_mcp_handed_example :
    ((r : RateLimitResult) × Admitted hash parse config
        (request post_method (codes "x" ∷ []))
        moment
        backend
        holder
        r
        (some call))
    × IsOwn one_session (codes "s1") holder
handle_mcp_handed_example =
    handle_mcp_handed hash parse config (request post_method (codes "x" ∷ [])) moment backend
      one_session 9 holder (codes "s1") false (some call) hands_over_post

abbrev not_found_limits : RateLimitResult
not_found_limits = record {
  allowed = true;
  limit = 60;
  remaining = 59;
  reset_at_ms = 60009;
  retry_after_sec = none;
}

abbrev not_found : Response
not_found = record {
  status = 404;
  code = some 32006;
  retry_after = none;
  limits = some not_found_limits;
}

handle_mcp_answered_example :
    Answered hash parse config (request get_method []) moment backend not_found
handle_mcp_answered_example =
    handle_mcp_answered hash parse config (request get_method []) moment backend
      (record { table = []; active = 0 }) 9 not_found refuses_unknown_session

handle_mcp_unanswered_example :
    HasNullBody hash parse config
      (request post_method (codes "nu" ∷ codes "ll" ∷ []))
      moment
      backend
handle_mcp_unanswered_example =
    handle_mcp_unanswered hash parse config (request post_method (codes "nu" ∷ codes "ll" ∷ []))
      moment backend one_session 9 leaves_null_unanswered

abbrev two : Sessions
two = record {
  table =
      (codes "s1", record { api_key_id = "k1"; last_activity_ms = 3 })
      ∷ (codes "s2", record { api_key_id = "k1"; last_activity_ms = 4 })
      ∷ [];
  active = 2;
}

-- two creations for one key overlap, where the cap is one session per key
exceeds_cap : Reach config.caps 2 (record { sessions = two; pending = [] })
unfolding all_server
exceeds_cap =
    next
      (next
        (next (next here (begins start "k1" refl (omega arith))) (
          begins (record { sessions = start.sessions; pending = "k1" ∷ [] }) "k1" refl
            (omega arith)))
        (finishes start.sessions [] ("k1" ∷ []) "k1" (some (codes "s1")) 3 refl))
      (finishes one_session [] [] "k1" (some (codes "s2")) 4 refl)

Reach-IsConsistent_example : IsConsistent two
Reach-IsConsistent_example = Reach-IsConsistent config.caps 2 exceeds_cap

Reach-caps_example : (2 + 0 ≤ 2 + (2 - 1)) × (per_key_count two.table "k1" + 0 ≤ 1 + (2 - 1))
Reach-caps_example = Reach-caps config.caps 2 "k1" exceeds_cap

other_key : ¬ IsOwn one_session (codes "s1") (record holder { id = "k2" })
unfolding all_server
other_key (s, e, same) = ground (arith, e, same, eq_iff "k1" "k2")

route-foreign_example :
    route config.caps one_session get_method
      (some (codes "s1"))
      (record holder { id = "k2" })
      not_found_limits
      9
    ≡ (answers (write_json_rpc_error session_not_found_error (some not_found_limits)), one_session)
route-foreign_example =
    route-foreign config.caps one_session get_method (codes "s1") (record holder { id = "k2" })
      not_found_limits 9 other_key
