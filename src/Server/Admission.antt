-- ===== src/Server/Admission.antt =====
-- Which requests `handleMcp` of src/server.ts lets through to the session table, and what its refusals carry.
use emcp.Prelude.{
  ℕ, ◌≤◌, ◌≡◌, refl, ap, sym, ◌∙◌, subst, ◌⊎◌, inl, inr, true, false, not, String, Option, none,
  some, List, ◌++◌, arith, codes, if_cases, Option-cases, false≢true,
}
use emcp.Errors.{http_status, origin_or_host_rejected_error}
use emcp.RateLimit.{
  RateLimitInput, RateLimitResult, Reply, Store, answered, validate_input, to_result, check,
}
use emcp.Auth.{
  AuthenticatedKey, AuthError, auth_required, malformed_token, invalid_credentials, key_blacklisted,
  key_deleted, AuthResult, ok, error, rejects, World, authenticate,
}
use emcp.Server.Json.{Json, null}
use emcp.Server.Gate.{
  Config, Request, Tick, Moment, Backend, Response, Gate, responds, silent, throws, admits,
  write_json_rpc_error, too_many, app_error, Limited, passes, exceeds, fails, limited, limit_scope,
  read_body, text_header, is_post,
}
use emcp.Server.Gate.Stages.{
  headers_ok, after_tool, per_tool, limited_tool, after_parse, after_body, after_key, per_key,
  after_auth, after_address, client_ip, gate,
}

-- a number of seconds to wait, at least one
abbrev pub HasRetry : Option ℕ → Type 0
HasRetry o = (seconds : ℕ) × (o ≡ some seconds) × (1 ≤ seconds)

-- what the limiter's answers carry
abbrev pub IsFair : Limited → Type 0
IsFair (passes r) = r.allowed ≡ true
IsFair (exceeds r) = HasRetry r.retry_after_sec
IsFair fails = Unit

abbrev RefusalWaits : RateLimitResult → Type 0
RefusalWaits r = r.allowed ≡ false → HasRetry r.retry_after_sec

to_result_waits :
    (input : RateLimitInput) (now : ℕ) (reply : Reply) → RefusalWaits (to_result input now reply)
unfolding to_result
to_result_waits input now reply =
    if_cases RefusalWaits reply.allowed (λ yes h. elim (false≢true (sym h)) [ ])
      (λ no h. (_, refl, ground arith))

limited-IsFair : (r : RateLimitResult) → RefusalWaits r → IsFair (limited (answered r))
limited-IsFair r h = if_cases IsFair r.allowed (λ yes. yes) h

check-IsFair :
    (store : Store) (input : RateLimitInput) (now redis_now draw : ℕ)
    → IsFair (limited (check store input now redis_now draw).0)
unfolding check
check-IsFair store input now redis_now draw = elim (Option-cases (validate_input input)) [
  | inl e ↦ rw (e, IsFair) (limited-IsFair _ (to_result_waits input now _))
  | inr (x, e) ↦ rw (e, IsFair) tt
]

limit_scope-IsFair :
    (store : Store) (draw : ℕ) (tick : Tick) (scope : List ℕ) (limit : ℕ)
    → IsFair (limit_scope store draw tick scope limit).0
unfolding limit_scope
limit_scope-IsFair store draw tick scope limit =
    if_cases (λ (o : Limited × Store). IsFair o.0) tick.reaches
      (λ yes. check-IsFair store _ tick.now tick.redis_now draw) (λ no. tt)

module _ (hash : List ℕ → String) (parse : List ℕ → Option Json) (config : Config) (req : Request)
    (moment : Moment) (w : Backend) where
  abbrev address_limit : Limited × Store
  address_limit =
      limit_scope w.limits config.draw moment.by_address
        (codes "rl:ip:" ++ client_ip hash parse config req moment)
        config.pre_auth_rate_limit_per_minute

  abbrev authentication : AuthResult × World
  authentication =
      authenticate hash w.auth moment.auth (text_header req.headers (codes "authorization"))

  -- the headers are right, the address is below its limit, and the key is accepted
  pub record Known (key : AuthenticatedKey) : Type 0 where
    pub host : headers_ok hash parse config req moment false ≡ true
    pub address : (r : RateLimitResult) × (address_limit.0 ≡ passes r) × (r.allowed ≡ true)
    pub holder : authentication.0 ≡ ok key

  -- the key's count of requests, after that of the address
  abbrev key_limit : AuthenticatedKey → Limited × Store
  key_limit key =
      limit_scope address_limit.1 config.draw moment.by_key (codes "rl:key:" ++ codes key.id)
        key.rate_limit_per_minute

  -- and the key's count of calls of a tool, after that
  abbrev tool_limit_of : AuthenticatedKey → List ℕ × ℕ → Limited × Store
  tool_limit_of key (tool, per_minute) =
      limit_scope (key_limit key).1 config.draw moment.by_tool
        (codes "rl:tool:" ++ codes key.id ++ codes ":" ++ tool) per_minute

  -- If the body calls a tool with a limit of its own, the key is within it; `r` is the last result.
  abbrev pub WithinTool :
      AuthenticatedKey → RateLimitResult → RateLimitResult → Option (List ℕ × ℕ) → Type 0
  WithinTool key k r none = r ≡ k
  WithinTool key k r (some tool) = (tool_limit_of key tool).0 ≡ passes r

  abbrev pub IsBody : Json → Type 0
  IsBody body =
      (bytes : List ℕ) × (read_body config.mcp_max_body_bytes 0 req.chunks req.ends ≡ some bytes)
      × (parse bytes ≡ some body)

  -- No body is read unless the request is a POST.
  abbrev pub Carries : AuthenticatedKey → RateLimitResult → RateLimitResult → Option Json → Type 0
  Carries key k r none = (is_post req.method ≡ false) × (r ≡ k)
  Carries key k r (some body) =
      (is_post req.method ≡ true)
      × IsBody body
      × WithinTool key k r (limited_tool hash parse config req moment body)

  -- with the key's own rules: `k` is what the limiter answers on the key
  pub record Admitted (key : AuthenticatedKey) (r : RateLimitResult) (body : Option Json)
      : Type 0 where
    pub known : Known key
    pub origin : headers_ok hash parse config req moment (not key.allow_no_origin) ≡ true
    pub k : RateLimitResult
    pub counted : (key_limit key).0 ≡ passes k
    pub below : k.allowed ≡ true
    pub carries : Carries key k r body
    pub limit : r.allowed ≡ true

  -- an answer with status 429 says when to come back, and one with X-RateLimit headers is to a key
  pub record Answered (r : Response) : Type 0 where
    pub waits : r.status ≡ 429 → HasRetry r.retry_after
    pub known : (r.limits ≡ none) ⊎ ((key : AuthenticatedKey) × Known key)

  -- a POST whose body is the JSON value `null`
  abbrev pub HasNullBody : Type 0
  HasNullBody = (is_post req.method ≡ true) × IsBody null

  abbrev pub IsSound : Gate × Backend → Type 0
  IsSound (responds r, later) = Answered r
  IsSound (silent, later) = HasNullBody
  IsSound (throws, later) = Unit
  IsSound (admits key r body, later) = Admitted key r body

  module _ (key : AuthenticatedKey) (known : Known key)
      (origin : headers_ok hash parse config req moment (not key.allow_no_origin) ≡ true) where
    module _ (k : RateLimitResult) (counted : (key_limit key).0 ≡ passes k)
        (below : k.allowed ≡ true) where
      admitted :
          (r : RateLimitResult) (body : Option Json)
          → Carries key k r body
          → r.allowed ≡ true
          → Admitted key r body
      admitted r body carries limit = record {
        known = known;
        origin = origin;
        k = k;
        counted = counted;
        below = below;
        carries = carries;
        limit = limit;
      }

      module _ (post : is_post req.method ≡ true) (v : Backend)
          (store : v.limits ≡ (key_limit key).1) where
        after_tool-IsSound :
            (body : Json) (l : Limited × Store)
            → IsFair l.0
            → ((t : RateLimitResult) → l.0 ≡ passes t → Carries key k t (some body))
            → IsSound (after_tool hash parse config req moment key k body v l)
        unfolding after_tool too_many
        after_tool-IsSound body (fails, later) h c = tt
        after_tool-IsSound body (exceeds t, later) h c = record {
          waits = λ _. h;
          known = inr (key, known);
        }
        after_tool-IsSound body (passes t, later) h c = admitted t (some body) (c t refl) h

        per_tool-IsSound :
            (body : Json) (o : Option (List ℕ × ℕ))
            → IsBody body
            → limited_tool hash parse config req moment body ≡ o
            → IsSound (per_tool hash parse config req moment key k body v o)
        unfolding per_tool
        per_tool-IsSound body none is_body e =
            admitted k (some body) (post, is_body, subst (WithinTool key k k) (sym e) refl) below
        per_tool-IsSound body (some (tool, per_minute)) is_body e =
            after_tool-IsSound body _ (limit_scope-IsFair _ _ _ _ _) (λ t same. (
              post,
              is_body,
              subst (WithinTool key k t) (sym e) (
                  ap
                    (λ s.
                      (limit_scope s config.draw moment.by_tool
                        (codes "rl:tool:" ++ codes key.id ++ codes ":" ++ tool) per_minute).0)
                    (sym store)
                  ∙ same),
            ))

        after_parse-IsSound :
            (o : Option Json)
            → ((body : Json) → o ≡ some body → IsBody body)
            → IsSound (after_parse hash parse config req moment key k v o)
        unfolding after_parse
        after_parse-IsSound none e = record {
          waits = λ x. ground (arith, x);
          known = inr (key, known);
        }
        after_parse-IsSound (some null) e = (post, e null refl)
        after_parse-IsSound (some body) e = per_tool-IsSound body _ (e body refl) refl

        after_body-IsSound :
            (o : Option (List ℕ))
            → read_body config.mcp_max_body_bytes 0 req.chunks req.ends ≡ o
            → IsSound (after_body hash parse config req moment key k v o)
        unfolding after_body
        after_body-IsSound none e = record {
          waits = λ x. ground (arith, x);
          known = inr (key, known);
        }
        after_body-IsSound (some bytes) e =
            after_parse-IsSound (parse bytes) (λ body x. (bytes, e, x))

    after_key-IsSound :
        (v : Backend) (l : Limited × Store)
        → IsFair l.0
        → key_limit key ≡ l
        → IsSound (after_key hash parse config req moment key v l)
    unfolding after_key too_many
    after_key-IsSound v (fails, store) h e = tt
    after_key-IsSound v (exceeds r, store) h e = record { waits = λ _. h; known = inr (key, known) }
    after_key-IsSound v (passes r, store) h e =
        let counted = ap (λ (l : Limited × Store). l.0) e in
        if_cases IsSound (is_post req.method)
          (λ post.
            after_body-IsSound r counted h post (record v { limits = store })
              (ap (λ (l : Limited × Store). l.1) (sym e)) (read_body _ _ _ _) refl)
          (λ other. admitted r counted h r none (other, refl) h)

  forbidden-IsSound :
      (v : Backend)
      → IsSound (responds (write_json_rpc_error origin_or_host_rejected_error none), v)
  unfolding write_json_rpc_error http_status
  forbidden-IsSound v = record { waits = λ e. ground (arith, e); known = inl refl }

  per_key-IsSound :
      (key : AuthenticatedKey) (v : Backend)
      → Known key
      → v.limits ≡ address_limit.1
      → IsSound (per_key hash parse config req moment key v)
  unfolding per_key
  per_key-IsSound key v known store =
      if_cases IsSound (headers_ok hash parse config req moment (not key.allow_no_origin))
        (λ yes. after_key-IsSound key known yes v _ (limit_scope-IsFair _ _ _ _ _) (
          ap
            (λ x.
              limit_scope x config.draw moment.by_key (codes "rl:key:" ++ codes key.id)
                key.rate_limit_per_minute)
            (sym store)))
        (λ no. forbidden-IsSound v)

  -- no error of `authenticate` has status 429
  refused-IsSound :
      (e : AuthError) (v : Backend)
      → IsSound (responds (write_json_rpc_error (app_error e) none), v)
  unfolding write_json_rpc_error http_status
  refused-IsSound auth_required v = record { waits = λ e. ground (arith, e); known = inl refl }
  refused-IsSound malformed_token v = record { waits = λ e. ground (arith, e); known = inl refl }
  refused-IsSound invalid_credentials v = record {
    waits = λ e. ground (arith, e);
    known = inl refl;
  }
  refused-IsSound key_blacklisted v = record { waits = λ e. ground (arith, e); known = inl refl }
  refused-IsSound key_deleted v = record { waits = λ e. ground (arith, e); known = inl refl }

  module _ (host : headers_ok hash parse config req moment false ≡ true) where
    after_auth-IsSound :
        (r : RateLimitResult) (store : Store) (a : AuthResult × World)
        → address_limit ≡ (passes r, store)
        → r.allowed ≡ true
        → authentication.0 ≡ a.0
        → IsSound (after_auth hash parse config req moment store a)
    unfolding after_auth
    after_auth-IsSound r store (rejects, auth) l h e = tt
    after_auth-IsSound r store (error x, auth) l h e = refused-IsSound x w
    after_auth-IsSound r store (ok key, auth) l h e =
        per_key-IsSound key _
          (record {
            host = host;
            address = (r, ap (λ (x : Limited × Store). x.0) l, h);
            holder = e;
          })
          (ap (λ (x : Limited × Store). x.1) (sym l))

    after_address-IsSound :
        (l : Limited × Store)
        → address_limit ≡ l
        → IsFair l.0
        → IsSound (after_address hash parse config req moment w.auth l)
    unfolding after_address too_many
    after_address-IsSound (fails, store) e h = tt
    after_address-IsSound (exceeds r, store) e h = record { waits = λ _. h; known = inl refl }
    after_address-IsSound (passes r, store) e h = after_auth-IsSound r store authentication e h refl

  pub gate-IsSound : IsSound (gate hash parse config req moment w)
  unfolding gate
  gate-IsSound =
      if_cases IsSound (headers_ok hash parse config req moment false)
        (λ yes. after_address-IsSound yes address_limit refl (limit_scope-IsFair _ _ _ _ _))
        (λ no. forbidden-IsSound w)
