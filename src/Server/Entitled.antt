-- ===== src/Server/Entitled.antt =====
-- What `handleMcp` of src/server.ts answers and lets through, sessions included.
use emcp.Prelude.{
  ℕ, ◌≡◌, ◌≢◌, refl, inr, subst, Bool, String, Option, none, some, List, arith, if_cases, str_eq,
  eq_iff,
}
use emcp.Errors.{http_status}
use emcp.RateLimit.{RateLimitResult}
use emcp.Auth.{AuthenticatedKey}
use emcp.Server.Json.{Json}
use emcp.Server.Sessions.{
  Session, get, Sessions, Room, has_room, total_reached, per_key_reached, check_caps,
}
use emcp.Server.Gate.{
  Config, Request, Moment, Backend, Response, Gate, responds, silent, throws, admits,
  write_json_rpc_error, is_post,
}
use emcp.Server.Route.{
  Routed, to_session, to_new, route, Handled, answered, unanswered, rejected, handed, creating,
  handled, after_gate, handle_mcp,
}
use emcp.Server.Admission.{Admitted, Answered, HasNullBody, IsSound, gate-IsSound}

-- a session of the table that belongs to the key
abbrev pub IsOwn : Sessions → List ℕ → AuthenticatedKey → Type 0
IsOwn ss id key = (s : Session) × (get ss.table id ≡ some s) × (s.api_key_id ≡ key.id)

module _ (hash : List ℕ → String) (parse : List ℕ → Option Json) (config : Config) (req : Request)
    (moment : Moment) (w : Backend) (ss : Sessions) where
  abbrev pub IsEntitled : Handled → Type 0
  IsEntitled (answered r) = Answered hash parse config req moment w r
  IsEntitled unanswered = HasNullBody hash parse config req moment w
  IsEntitled rejected = Unit
  IsEntitled (handed key id removes body) =
      ((r : RateLimitResult) × Admitted hash parse config req moment w key r body) × IsOwn ss id key
  IsEntitled (creating key body) =
      ((r : RateLimitResult) × Admitted hash parse config req moment w key r body)
      × (check_caps config.caps ss key.id ≡ has_room)

  module _ (key : AuthenticatedKey) (r : RateLimitResult) (body : Option Json)
      (admitted : Admitted hash parse config req moment w key r body) (now : ℕ) where
    abbrev Fits : Routed × Sessions → Type 0
    Fits o = IsEntitled (handled key body o.0)

    -- an answer to the holder of a key that is no 429
    other_status : (x : Response) → x.status ≢ 429 → Answered hash parse config req moment w x
    other_status x h = record { waits = λ e. elim (h e) [ ]; known = inr (key, admitted.known) }

    to_session-Fits :
        (id : List ℕ) (o : Option Session)
        → get ss.table id ≡ o
        → Fits (to_session ss req.method id key r now o)
    unfolding to_session write_json_rpc_error http_status
    to_session-Fits id none e = other_status _ (λ h. ground (arith, h))
    to_session-Fits id (some s) e =
        if_cases Fits (str_eq s.api_key_id key.id)
          (λ own. ((r, admitted), (s, e, (eq_iff s.api_key_id key.id).0 own)))
          (λ other. other_status _ (λ h. ground (arith, h)))

    to_new-Fits : (room : Room) → check_caps config.caps ss key.id ≡ room → Fits (to_new r room, ss)
    unfolding to_new write_json_rpc_error http_status
    to_new-Fits has_room e = ((r, admitted), e)
    to_new-Fits total_reached e = other_status _ (λ h. ground (arith, h))
    to_new-Fits per_key_reached e = record {
      waits = λ _. (60, refl, ground arith);
      known = inr (key, admitted.known);
    }

    route-Fits : (id : Option (List ℕ)) → Fits (route config.caps ss req.method id key r now)
    unfolding route
    route-Fits (some id) = to_session-Fits id _ refl
    route-Fits none =
        if_cases Fits (is_post req.method) (λ post. to_new-Fits _ refl)
          (λ other. other_status _ (λ h. ground (arith, h)))

  after_gate-IsEntitled :
      (now : ℕ) (g : Gate) (later : Backend)
      → IsSound hash parse config req moment w (g, later)
      → IsEntitled (after_gate config req now ss g).0
  unfolding after_gate
  after_gate-IsEntitled now (responds r) later h = h
  after_gate-IsEntitled now silent later h = h
  after_gate-IsEntitled now throws later h = tt
  after_gate-IsEntitled now (admits key r body) later h = route-Fits key r body h now _

  handle_mcp-IsEntitled :
      (now : ℕ) → IsEntitled (handle_mcp hash parse config req moment w ss now).0
  unfolding handle_mcp
  handle_mcp-IsEntitled now =
      after_gate-IsEntitled now _ _ (gate-IsSound hash parse config req moment w)

  -- A request is handed to a session's transport only if its headers are right, also under the key's
  -- origin rule, the key is authenticated, and the session is in the table and belongs to that key,
  -- and if the limiter has let pass the address, after it the key, and after it, where the body is a
  -- call of a tool with a limit of its own, that tool for the key. The body that is handed over is
  -- the one that was read and parsed, for a POST, and none for another method.
  pub handle_mcp_handed :
      (now : ℕ) (key : AuthenticatedKey) (id : List ℕ) (removes : Bool) (body : Option Json)
      → (handle_mcp hash parse config req moment w ss now).0 ≡ handed key id removes body
      → ((r : RateLimitResult) × Admitted hash parse config req moment w key r body)
        × IsOwn ss id key
  handle_mcp_handed now key id removes body e = subst IsEntitled e (handle_mcp-IsEntitled now)

  -- Each answer with status 429 has a `Retry-After` of at least one second, and each answer with
  -- X-RateLimit headers is to a request whose headers are right, whose address is within its limit and
  -- whose key is authenticated.
  pub handle_mcp_answered :
      (now : ℕ) (r : Response)
      → (handle_mcp hash parse config req moment w ss now).0 ≡ answered r
      → Answered hash parse config req moment w r
  handle_mcp_answered now r e = subst IsEntitled e (handle_mcp-IsEntitled now)

  -- A request makes a new transport only if it is admitted and both caps leave room.
  pub handle_mcp_creating :
      (now : ℕ) (key : AuthenticatedKey) (body : Option Json)
      → (handle_mcp hash parse config req moment w ss now).0 ≡ creating key body
      → ((r : RateLimitResult) × Admitted hash parse config req moment w key r body)
        × (check_caps config.caps ss key.id ≡ has_room)
  handle_mcp_creating now key body e = subst IsEntitled e (handle_mcp-IsEntitled now)

  -- A request is left without an answer only if it is a POST whose body is the JSON value `null`.
  pub handle_mcp_unanswered :
      (now : ℕ)
      → (handle_mcp hash parse config req moment w ss now).0 ≡ unanswered
      → HasNullBody hash parse config req moment w
  handle_mcp_unanswered now e = subst IsEntitled e (handle_mcp-IsEntitled now)
