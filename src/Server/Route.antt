-- ===== src/Server/Route.antt =====
-- The rest of `handleMcp` of src/server.ts: what an admitted request does to the session table, and the
-- whole of it. The table is the one that stands when the awaited gates are through.
use emcp.Prelude.{
  ℕ, Bool, true, false, String, Option, none, some, List, [], ◌∷◌, ◌>>=◌, codes, str_eq,
  if◌then◌else◌,
}
use emcp.Errors.{rate_limit_error, session_not_found_error, transient_error}
use emcp.RateLimit.{RateLimitResult}
use emcp.Auth.{AuthenticatedKey}
use emcp.Server.Json.{Json}
use emcp.Server.Sessions.{
  Session, get, Sessions, Caps, touch_session, Room, has_room, total_reached, per_key_reached,
  check_caps,
}
use emcp.Server.Gate.{
  Config, Method, delete_method, Request, Moment, Backend, Response, Gate, responds, silent, throws,
  admits, write_json_rpc_error, plain, text_header, is_post,
}
use emcp.Server.Gate.Stages.{gate}

-- What becomes of an admitted request: an answer, the transport of a session (after which a DELETE
-- removes it), or a new transport.
pub data Routed : Type 0 where
  answers : Response → Routed
  hands_over : List ℕ → Bool → Routed
  creates : Routed

abbrev pub is_delete : Method → Bool
is_delete delete_method = true
is_delete _ = false

abbrev pub retry_in : ℕ → Response → Response
retry_in seconds r = record r { retry_after = some seconds }

-- the session of an id, for the holder of a key
unfoldable pub to_session :
    Sessions
    → Method
    → List ℕ
    → AuthenticatedKey
    → RateLimitResult
    → ℕ
    → Option Session
    → Routed × Sessions
to_session ss method id key r now none =
    (answers (write_json_rpc_error session_not_found_error (some r)), ss)
to_session ss method id key r now (some session) =
    if str_eq session.api_key_id key.id
    then (hands_over id (is_delete method), touch_session ss id now)
    else (answers (write_json_rpc_error session_not_found_error (some r)), ss)

unfoldable pub to_new : RateLimitResult → Room → Routed
to_new r has_room = creates
to_new r total_reached = answers (retry_in 60 (write_json_rpc_error transient_error (some r)))
to_new r per_key_reached = answers (retry_in 60 (write_json_rpc_error rate_limit_error (some r)))

-- an empty header is no header
abbrev pub not_empty : List ℕ → Option (List ℕ)
not_empty [] = none
not_empty (c ∷ s) = some (c ∷ s)

unfoldable pub route :
    Caps
    → Sessions
    → Method
    → Option (List ℕ)
    → AuthenticatedKey
    → RateLimitResult
    → ℕ
    → Routed × Sessions
route caps ss method (some id) key r now = to_session ss method id key r now (get ss.table id)
route caps ss method none key r now =
    if is_post method
    then (to_new r (check_caps caps ss key.id), ss)
    else (answers (plain 400 (some 32600) (some r)), ss)

pub data Handled : Type 0 where
  answered : Response → Handled
  unanswered rejected : Handled
  handed : AuthenticatedKey → List ℕ → Bool → Option Json → Handled
  creating : AuthenticatedKey → Option Json → Handled

abbrev pub handled : AuthenticatedKey → Option Json → Routed → Handled
handled key body (answers r) = answered r
handled key body (hands_over id removes) = handed key id removes body
handled key body creates = creating key body

unfoldable pub after_gate : Config → Request → ℕ → Sessions → Gate → Handled × Sessions
after_gate config req now ss (responds r) = (answered r, ss)
after_gate config req now ss silent = (unanswered, ss)
after_gate config req now ss throws = (rejected, ss)
after_gate config req now ss (admits key r body) =
    let (routed, later) =
      route config.caps ss req.method
        (text_header req.headers (codes "mcp-session-id") >>= not_empty) key r now in
    (handled key body routed, later)

-- `now` is the time at which the session table is looked at
module _ (hash : List ℕ → String) (parse : List ℕ → Option Json) (config : Config) (req : Request)
    (moment : Moment) where
  unfoldable pub handle_mcp : Backend → Sessions → ℕ → Handled × Sessions × Backend
  handle_mcp w ss now =
      let (g, later) = gate hash parse config req moment w in
      let (h, ss') = after_gate config req now ss g in (h, ss', later)
