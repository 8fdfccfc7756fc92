-- ===== src/Server/Gate.antt =====
-- `handleMcp` of src/server.ts, up to the session table: headers, the limit per address, the key, the
-- key's origin rule, the limit per key, the body, and the limit per tool.
-- A response is its status, its JSON-RPC code (its magnitude), `Retry-After`, and the result behind the
-- X-RateLimit headers; its message, and the log, audit and metrics are left out.
pub mod Stages
use emcp.Prelude.{
  ℕ, ◌+◌, Bool, true, false, not, String, Option, none, some, List, [], ◌∷◌, ◌++◌, ◌>>=◌, ltb,
  length, codes, same_text, if◌then◌else◌,
}
use emcp.Errors.{
  AppError, http_status, json_rpc_code, auth_required_error, auth_malformed_token_error,
  auth_invalid_credentials_error, key_blacklisted_error, key_deleted_error,
  origin_or_host_rejected_error,
}
use emcp.Headers.{
  HeaderValue, single, several, Headers, HeaderValidationResult, ok as header_ok, get_header,
  validate_headers,
}
use emcp.Address.{Header, absent, one, many, ParsedCidr, get_client_ip}
use emcp.RateLimit.{RateLimitResult, Store, Checked, refused, answered, check}
use emcp.Auth.{
  AuthenticatedKey, AuthError, auth_required, malformed_token, invalid_credentials, key_blacklisted,
  key_deleted, AuthResult, ok, error, rejects, World, Env, authenticate,
}
use emcp.Server.Json.{Json, null, peek_tool}
use emcp.Server.Sessions.{Caps}

pub record Config : Type 0 where
  pub public_host : List ℕ
  pub allowed_origins : List (List ℕ)
  pub trusted_proxy_cidrs : List ParsedCidr
  pub pre_auth_rate_limit_per_minute : ℕ
  pub mcp_max_body_bytes : ℕ
  pub caps : Caps
  -- the registered tools, each with its own limit per minute, if it has one
  pub tools : List (List ℕ × Option ℕ)
  -- no setting: the number that each run of the limiter's script draws
  pub draw : ℕ

pub data Method : Type 0 where
  get_method post_method delete_method other_method : Method

-- `remote_address` is empty for a socket without an address; `ends` is false where the body breaks off
pub record Request : Type 0 where
  pub method : Method
  pub remote_address : List ℕ
  pub headers : Headers
  pub chunks : List (List ℕ)
  pub ends : Bool

-- one call of the limiter: whether Redis answers, and the two clocks
pub record Tick : Type 0 where
  pub reaches : Bool
  pub now : ℕ
  pub redis_now : ℕ

pub record Moment : Type 0 where
  pub auth : Env
  pub by_address : Tick
  pub by_key : Tick
  pub by_tool : Tick

pub record Backend : Type 0 where
  pub auth : World
  pub limits : Store

pub record Response : Type 0 where
  pub status : ℕ
  pub code : Option ℕ
  pub retry_after : Option ℕ
  pub limits : Option RateLimitResult

-- `silent`: the handler returns and has not answered. `throws`: its promise rejects.
pub data Gate : Type 0 where
  responds : Response → Gate
  silent throws : Gate
  admits : AuthenticatedKey → RateLimitResult → Option Json → Gate

unfoldable pub write_json_rpc_error : AppError → Option RateLimitResult → Response
write_json_rpc_error e limits = record {
  status = http_status e;
  code = some (json_rpc_code e);
  retry_after = none;
  limits = limits;
}

unfoldable pub too_many : RateLimitResult → Option RateLimitResult → Response
too_many r limits = record {
  status = 429;
  code = some 32029;
  retry_after = r.retry_after_sec;
  limits = limits;
}

abbrev pub plain : ℕ → Option ℕ → Option RateLimitResult → Response
plain status code limits = record {
  status = status;
  code = code;
  retry_after = none;
  limits = limits;
}

-- the class of the error that `authenticate` returns
abbrev pub app_error : AuthError → AppError
app_error auth_required = auth_required_error
app_error malformed_token = auth_malformed_token_error
app_error invalid_credentials = auth_invalid_credentials_error
app_error key_blacklisted = key_blacklisted_error
app_error key_deleted = key_deleted_error

pub data Limited : Type 0 where
  passes exceeds : RateLimitResult → Limited
  fails : Limited

abbrev pub limited : Checked → Limited
limited (refused e) = fails
limited (answered r) = if r.allowed then passes r else exceeds r

-- a call that fails changes nothing
unfoldable pub limit_scope : Store → ℕ → Tick → List ℕ → ℕ → Limited × Store
limit_scope store draw tick scope limit =
    if tick.reaches
    then (let (checked, later) =
          check store (record { scope = scope; limit = limit; window_ms = 60000 }) tick.now
            tick.redis_now draw in
        (limited checked, later))
    else (fails, store)

-- `readBody`: all chunks, unless they exceed the limit or break off
unfoldable pub read_body : ℕ → ℕ → List (List ℕ) → Bool → Option (List ℕ)
read_body max_bytes size [] ends = if ends then some [] else none
read_body max_bytes size (chunk ∷ chunks) ends =
    let rest = read_body max_bytes (size + length chunk) chunks ends in
    if ltb max_bytes (size + length chunk) then none else rest >>= λ bytes. some (chunk ++ bytes)

-- node:http has one text per header, but for `set-cookie`
abbrev pub only_value : HeaderValue → Option (List ℕ)
only_value (single s) = some s
only_value (several ss) = none

abbrev pub text_header : Headers → List ℕ → Option (List ℕ)
text_header headers name = get_header headers name >>= only_value

abbrev pub forwarded : Option HeaderValue → Header
forwarded none = absent
forwarded (some (single s)) = one s
forwarded (some (several ss)) = many ss

unfoldable pub tool_limit : List (List ℕ × Option ℕ) → List ℕ → Option ℕ
tool_limit [] name = none
tool_limit ((tool, limit) ∷ tools) name =
    let later = tool_limit tools name in if same_text tool name then limit else later

abbrev pub accepted : HeaderValidationResult → Bool
accepted (header_ok origin) = true
accepted _ = false

abbrev pub is_post : Method → Bool
is_post post_method = true
is_post _ = false
