-- ===== src/Server/Gate/Stages.antt =====
-- The stages of `handleMcp` of src/server.ts up to the session table, the last one first.
use emcp.Prelude.{
  ℕ, Bool, false, not, String, Option, none, some, List, ◌++◌, ◌>>=◌, codes, if◌then◌else◌,
}
use emcp.Errors.{origin_or_host_rejected_error}
use emcp.Headers.{get_header, validate_headers}
use emcp.Address.{get_client_ip}
use emcp.RateLimit.{RateLimitResult, Store}
use emcp.Auth.{AuthenticatedKey, AuthResult, ok, error, rejects, World, authenticate}
use emcp.Server.Json.{Json, null, peek_tool}
use emcp.Server.Gate.{
  Backend, Config, Gate, Limited, Moment, Request, accepted, admits, app_error, exceeds, fails,
  forwarded, is_post, limit_scope, passes, plain, read_body, responds, silent, text_header, throws,
  too_many, tool_limit, write_json_rpc_error,
}

module _ (hash : List ℕ → String) (parse : List ℕ → Option Json) (config : Config) (req : Request)
    (moment : Moment) where
  abbrev pub headers_ok : Bool → Bool
  headers_ok require_origin = accepted (
      validate_headers req.headers (record {
        expected_host = config.public_host;
        allowed_origins = config.allowed_origins;
        require_origin = require_origin;
      }))

  -- the per-tool limit
  unfoldable pub after_tool :
      AuthenticatedKey → RateLimitResult → Json → Backend → Limited × Store → Gate × Backend
  after_tool key r body w (fails, store) = (throws, record w { limits = store })
  after_tool key r body w (exceeds tool_rl, store) =
      (responds (too_many tool_rl (some tool_rl)), record w { limits = store })
  after_tool key r body w (passes tool_rl, store) =
      (admits key tool_rl (some body), record w { limits = store })

  unfoldable pub per_tool :
      AuthenticatedKey → RateLimitResult → Json → Backend → Option (List ℕ × ℕ) → Gate × Backend
  per_tool key r body w none = (admits key r (some body), w)
  per_tool key r body w (some (tool, per_minute)) = after_tool key r body w (
      limit_scope w.limits config.draw moment.by_tool
        (codes "rl:tool:" ++ codes key.id ++ codes ":" ++ tool) per_minute)

  -- the tool that the body names, with its limit
  abbrev pub limited_tool : Json → Option (List ℕ × ℕ)
  limited_tool body = peek_tool body >>= λ tool.
      tool_limit config.tools tool >>= λ per_minute. some (tool, per_minute)

  unfoldable pub after_parse :
      AuthenticatedKey → RateLimitResult → Backend → Option Json → Gate × Backend
  after_parse key r w none = (responds (plain 400 (some 32700) (some r)), w)
  after_parse key r w (some null) = (silent, w)
  after_parse key r w (some body) = per_tool key r body w (limited_tool body)

  unfoldable pub after_body :
      AuthenticatedKey → RateLimitResult → Backend → Option (List ℕ) → Gate × Backend
  after_body key r w none = (responds (plain 413 none (some r)), w)
  after_body key r w (some bytes) = after_parse key r w (parse bytes)

  -- the per-key limit
  unfoldable pub after_key : AuthenticatedKey → Backend → Limited × Store → Gate × Backend
  after_key key w (fails, store) = (throws, record w { limits = store })
  after_key key w (exceeds r, store) = (responds (too_many r (some r)), record w { limits = store })
  after_key key w (passes r, store) =
      let w' = record w { limits = store } in
      if is_post req.method
      then after_body key r w' (read_body config.mcp_max_body_bytes 0 req.chunks req.ends)
      else (admits key r none, w')

  unfoldable pub per_key : AuthenticatedKey → Backend → Gate × Backend
  per_key key w =
      if headers_ok (not key.allow_no_origin)
      then after_key key w (
          limit_scope w.limits config.draw moment.by_key (codes "rl:key:" ++ codes key.id)
            key.rate_limit_per_minute)
      else (responds (write_json_rpc_error origin_or_host_rejected_error none), w)

  unfoldable pub after_auth : Store → AuthResult × World → Gate × Backend
  after_auth store (rejects, auth) = (throws, record { auth = auth; limits = store })
  after_auth store (error e, auth) =
      (responds (write_json_rpc_error (app_error e) none), record { auth = auth; limits = store })
  after_auth store (ok key, auth) = per_key key (record { auth = auth; limits = store })

  -- the limit per address, before the key is looked at
  unfoldable pub after_address : World → Limited × Store → Gate × Backend
  after_address auth (fails, store) = (throws, record { auth = auth; limits = store })
  after_address auth (exceeds r, store) =
      (responds (too_many r none), record { auth = auth; limits = store })
  after_address auth (passes r, store) =
      after_auth store
        (authenticate hash auth moment.auth (text_header req.headers (codes "authorization")))

  abbrev pub client_ip : List ℕ
  client_ip =
      get_client_ip req.remote_address
        (forwarded (get_header req.headers (codes "x-forwarded-for"))) config.trusted_proxy_cidrs

  unfoldable pub gate : Backend → Gate × Backend
  gate w =
      if headers_ok false
      then after_address w.auth (
          limit_scope w.limits config.draw moment.by_address (codes "rl:ip:" ++ client_ip)
            config.pre_auth_rate_limit_per_minute)
      else (responds (write_json_rpc_error origin_or_host_rejected_error none), w)
