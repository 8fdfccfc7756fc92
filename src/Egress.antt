-- ===== src/Egress.antt =====
-- src/shared/net/egress.ts: `fetchExternal`, the one way out for HTTP requests, with its retries
-- over the proxy pool. The fetch function is undici's: what it answers for an entry is part of an
-- `Attempt`, with the readings of the clock that the attempt makes, in the order of the code. A
-- duration is kept in milliseconds.
pub mod Outcomes
pub mod Trace
mod Tests
use emcp.Prelude.{
  ℕ, zero, suc, ◌-◌, min, String, Bool, true, false, ◌||◌, Option, none, some, List, [], ◌∷◌, ◌++◌,
  ltb, leb, if◌then◌else◌, length, str_eq, ◌==◌,
}
use emcp.Proxy.Pool.{
  ProxyOutcome, success, connect_failure, upstream_failure, aborted, ProxyEntry, ProxyHealth, Pool,
  size, next, report, health_snapshot, healthy_count,
}

-- What a fetch may throw, as far as the code looks at it: `code` and `cause_code` where they are
-- strings.
pub record Thrown : Type 0 where
  pub is_object : Bool
  pub is_error : Bool
  pub name : String
  pub code : Option String
  pub cause_code : Option String

pub data Reply (R : Type 0) : Type 0 where
  responded : R → Reply R
  threw : Thrown → Reply R

pub record Attempt (D R : Type 0) : Type 0 where
  pub next_at : ℕ
  pub draw : ℕ → ℕ
  pub started_at : ℕ
  pub reply : ProxyEntry D → Reply R
  pub signal_aborted : Bool
  pub reported_at : ℕ
  pub recorded_at : ℕ
  pub checked_at : ℕ
  pub gauged_at : ℕ

pub data Metric : Type 0 where
  requests_total : String → ProxyOutcome → Metric
  request_duration : String → ℕ → Metric
  cooldowns_total : String → Metric
  pool_healthy : ℕ → Metric

-- `transient n e` is the `TransientError` after `n` proxies, with the last error.
pub data Fetched (R : Type 0) : Type 0 where
  response : R → Fetched R
  rethrown : Thrown → Fetched R
  transient : ℕ → Option Thrown → Fetched R

abbrev pub member : String → List String → Bool
member s [] = false
member s (k ∷ ks) = str_eq k s || member s ks

abbrev pub known_connect_error_codes : List String
known_connect_error_codes =
    "ECONNREFUSED" ∷ "ECONNRESET" ∷ "ETIMEDOUT" ∷ "EHOSTUNREACH" ∷ "ENETUNREACH" ∷ "EAI_AGAIN"
    ∷ "ENOTFOUND" ∷ "EPIPE" ∷ "UND_ERR_CONNECT_TIMEOUT" ∷ "UND_ERR_SOCKET" ∷ "UND_ERR_CLOSED"
    ∷ "UND_ERR_BODY_TIMEOUT" ∷ "UND_ERR_HEADERS_TIMEOUT" ∷ []

unfoldable pub is_abort_like : Thrown → Bool
is_abort_like err =
    if err.is_error then str_eq err.name "AbortError" || str_eq err.name "TimeoutError" else false

unfoldable pub extract_code : Thrown → Option String
extract_code err =
    if err.is_object then elim err.code [ some c ↦ some c | none ↦ err.cause_code ] else none

unfoldable pub is_known : Option String → Bool
is_known none = false
is_known (some c) = member c known_connect_error_codes

unfoldable pub classify_error : Thrown → Bool → ProxyOutcome
classify_error err signal_aborted =
    if signal_aborted
    then aborted
    else if is_abort_like err
    then aborted
    else if is_known (extract_code err)
    then connect_failure
    else upstream_failure

unfoldable pub has_new_cooldown : Option ℕ → Option ℕ → ℕ → Bool
has_new_cooldown before none now = false
has_new_cooldown none (some after) now = if leb after now then false else true
has_new_cooldown (some before) (some after) now = if leb after now then false else ltb before after

unfoldable pub record_outcome : String → ProxyOutcome → ℕ → ℕ → List Metric
record_outcome id outcome started_at now =
    requests_total id outcome ∷ request_duration id (now - started_at) ∷ []

-- `pool.healthSnapshot().find((h) => h.id === id)?.cooldownUntil ?? null`
unfoldable pub cooldown_in : String → List ProxyHealth → Option ℕ
cooldown_in id [] = none
cooldown_in id (h ∷ hs) = if str_eq h.id id then h.cooldown_until else cooldown_in id hs

-- What one pass of the loop comes to.
pub data Turn (D R : Type 0) : Type 0 where
  no_entry : Pool D → Turn D R
  returned : String → R → Pool D → List Metric → Turn D R
  failed : String → ProxyOutcome → Thrown → Pool D → List Metric → Turn D R

module _ {D R : Type 0} where
  -- after the fetch: the pool hears the outcome, and the metrics are written
  unfoldable pub settle : Attempt D R → Pool D → String → Reply R → Turn D R
  settle a p id (responded r) =
      let p' = report p id success a.reported_at in
      returned id r p' (
        record_outcome id success a.started_at a.recorded_at
        ++ pool_healthy (healthy_count p' a.gauged_at) ∷ [])
  settle a p id (threw err) =
      let outcome = classify_error err a.signal_aborted in
      let p' = report p id outcome a.reported_at in
      let before = cooldown_in id (health_snapshot p a.started_at) in
      let after = cooldown_in id (health_snapshot p' a.checked_at) in
      failed id outcome err p' (
        record_outcome id outcome a.started_at a.recorded_at
        ++ ((if has_new_cooldown before after a.checked_at then cooldowns_total id ∷ [] else [])
            ++ pool_healthy (healthy_count p' a.gauged_at) ∷ []))

  unfoldable pub turn : Attempt D R → Pool D → Turn D R
  turn a p =
      let (entry, p') = next p a.next_at a.draw in
      elim entry [ none ↦ no_entry p' | some e ↦ settle a p' e.id (a.reply e) ]

pub record Run (D R : Type 0) : Type 0 where
  pub result : Fetched R
  pub pool : Pool D
  pub metrics : List Metric

-- `attempted.add(id)` on a set
abbrev pub add_attempted : String → List String → List String
add_attempted id ids = if member id ids then ids else id ∷ ids

abbrev is_aborted : ProxyOutcome → Bool
is_aborted aborted = true
is_aborted _ = false

module _ {D R : Type 0} (world : ℕ → Attempt D R) where
  abbrev emit : List Metric → Run D R → Run D R
  emit ms run = record run { metrics = ms ++ run.metrics }

  -- the loop, with `rounds` attempts left at attempt number `k`
  unfoldable pub fetch_loop : ℕ → ℕ → List String → Option Thrown → Pool D → Run D R
  fetch_loop zero k attempted last p = record {
    result = transient (length attempted) last;
    pool = p;
    metrics = [];
  }
  fetch_loop (suc rounds) k attempted last p = elim (turn (world k) p) [
    | no_entry p' ↦ record { result = transient (length attempted) last; pool = p'; metrics = [] }
    | returned id r p' ms ↦ record { result = response r; pool = p'; metrics = ms }
    | failed id outcome err p' ms ↦
        let again =
          emit ms (fetch_loop rounds (suc k) (add_attempted id attempted) (some err) p') in
        if is_aborted outcome
        then record { result = rethrown err; pool = p'; metrics = ms }
        else again
  ]

pub record External (D R : Type 0) : Type 0 where
  pub result : Fetched R
  pub pool : Option (Pool D)
  pub metrics : List Metric

module _ {D R : Type 0} where
  abbrev pub bypassed : Reply R → Option (Pool D) → External D R
  bypassed (responded r) pool = record { result = response r; pool = pool; metrics = [] }
  bypassed (threw err) pool = record { result = rethrown err; pool = pool; metrics = [] }

  -- `direct` is what a fetch with no proxy answers, `pool` the pool that the call uses, and
  -- `max_retries` is `config.proxyMaxRetriesPerRequest`.
  unfoldable pub fetch_external :
      Bool → Option (Pool D) → ℕ → Reply R → (ℕ → Attempt D R) → External D R
  fetch_external true pool max_retries direct world = bypassed direct pool
  fetch_external false none max_retries direct world = bypassed direct none
  fetch_external false (some p) max_retries direct world =
      if size p == 0
      then bypassed direct (some p)
      else let run = fetch_loop world (min max_retries (size p)) 0 [] none p in
        record { result = run.result; pool = some run.pool; metrics = run.metrics }
