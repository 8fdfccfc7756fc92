-- ===== src/RateLimit.antt =====
-- src/core/rate-limiter.ts: the sliding-window limiter. Its Lua script runs as one step on a sorted
-- set of Redis, which is a list of members here; a member `now:random` is the pair of its two
-- numbers, and its score is the first. `now` is the caller's clock, `redis_now` the server's, by
-- which keys expire. `draw` is the first number that `math.random` gives in a script: Redis seeds the
-- generator with a constant before each run of a script, so one number serves all calls of a store.
-- Limits and windows are whole numbers.
pub mod Sets
pub mod Window
pub mod Retry
mod Tests
use emcp.Prelude.{
  ℕ, zero, suc, ◌+◌, ◌-◌, ◌/◌, max, Bool, true, false, ◌&&◌, ◌||◌, Option, none, some, List, [],
  ◌∷◌, ◌++◌, ltb, leb, ◌==◌, if◌then◌else◌, length, same_text,
}

abbrev pub Member : Type 0
Member = ℕ × ℕ

-- the value under one key, with the time at which the key expires
pub record Bucket : Type 0 where
  pub members : List Member
  pub expires_at : Option ℕ

pub record RateLimitInput : Type 0 where
  pub scope : List ℕ
  pub limit : ℕ
  pub window_ms : ℕ

pub record RateLimitResult : Type 0 where
  pub allowed : Bool
  pub limit : ℕ
  pub remaining : ℕ
  pub reset_at_ms : ℕ
  pub retry_after_sec : Option ℕ

unfoldable pub keep : (Member → Bool) → List Member → List Member
keep p [] = []
keep p (m ∷ ms) = let rest = keep p ms in if p m then m ∷ rest else rest

-- Redis drops a key once its time has passed
unfoldable pub live : Bucket → ℕ → List Member
live b redis_now = elim b.expires_at [
  | none ↦ b.members
  | some at_ms ↦ if ltb at_ms redis_now then [] else b.members
]

-- not removed by ZREMRANGEBYSCORE key -inf (now - window)
abbrev pub is_fresh : ℕ → ℕ → Member → Bool
is_fresh window now m = ltb now (m.0 + window)

abbrev pub has_member : Member → List Member → Bool
has_member m [] = false
has_member m (k ∷ ms) = k.0 == m.0 && k.1 == m.1 || has_member m ms

-- ZADD: a member that is there already, with its score, changes nothing
unfoldable pub zadd : Member → List Member → List Member
zadd m ms = if has_member m ms then ms else ms ++ m ∷ []

-- ZRANGE key 0 0: the least score
unfoldable pub oldest_from : ℕ → List Member → ℕ
oldest_from best [] = best
oldest_from best (m ∷ ms) = oldest_from (if ltb m.0 best then m.0 else best) ms

unfoldable pub oldest : List Member → ℕ
unfolding oldest_from
oldest [] = 0
oldest (m ∷ ms) = oldest_from m.0 ms

-- what the script returns: whether the request passes, what remains, and a time
pub record Reply : Type 0 where
  pub allowed : Bool
  pub remaining : ℕ
  pub oldest_or_now : ℕ

-- SLIDING_WINDOW_LUA; `draw` is `math.random(1000000)`
unfoldable pub sliding_window : ℕ → ℕ → ℕ → ℕ → ℕ → Bucket → Reply × Bucket
sliding_window window limit now redis_now draw b =
    let kept = keep (is_fresh window now) (live b redis_now) in
    let count = length kept in
    if ltb count limit
    then (
      record { allowed = true; remaining = limit - count - 1; oldest_or_now = now },
      record { members = zadd (now, draw) kept; expires_at = some (redis_now + window) },
    )
    else (
      record { allowed = false; remaining = 0; oldest_or_now = oldest kept },
      record b { members = kept },
    )

-- the two tests of `validateInput`
pub data InvalidInput : Type 0 where
  invalid_limit invalid_window : InvalidInput

unfoldable pub validate_input : RateLimitInput → Option InvalidInput
validate_input input =
    if ltb input.limit 1
    then some invalid_limit
    else if ltb input.window_ms 1
    then some invalid_window
    else none

-- ms / 1000, rounded up; a negative difference is 0 here, and the maximum with 1 is the same
abbrev pub ceil_sec : ℕ → ℕ
ceil_sec ms = (ms + 999) / 1000

unfoldable pub to_result : RateLimitInput → ℕ → Reply → RateLimitResult
to_result input now reply =
    if reply.allowed
    then record {
      allowed = true;
      limit = input.limit;
      remaining = reply.remaining;
      reset_at_ms = now + input.window_ms;
      retry_after_sec = none;
    }
    else record {
      allowed = false;
      limit = input.limit;
      remaining = 0;
      reset_at_ms = reply.oldest_or_now + input.window_ms;
      retry_after_sec = some (max (ceil_sec (reply.oldest_or_now + input.window_ms - now)) 1);
    }

abbrev pub Store : Type 0
Store = List ℕ → Bucket

pub data Checked : Type 0 where
  refused : InvalidInput → Checked
  answered : RateLimitResult → Checked

unfoldable pub check : Store → RateLimitInput → ℕ → ℕ → ℕ → Checked × Store
check store input now redis_now draw = elim (validate_input input) [
  | some e ↦ (refused e, store)
  | none ↦
      let (reply, b) =
        sliding_window input.window_ms input.limit now redis_now draw (store input.scope) in
      (
        answered (to_result input now reply),
        λ scope. if same_text scope input.scope then b else store scope,
      )
]
