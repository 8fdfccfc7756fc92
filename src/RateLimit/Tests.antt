-- ===== src/RateLimit/Tests.antt =====
-- Runs of src/core/rate-limiter.ts with a limit of two, and instances.
use emcp.Prelude.{ℕ, ◌≡◌, refl, true, false, some, List, [], ◌∷◌, arith, codes}
use emcp.RateLimit.{
  Bucket, RateLimitInput, RateLimitResult, keep, live, zadd, oldest_from, oldest, sliding_window,
  validate_input, to_result, Store, answered, check,
}
use emcp.RateLimit.Window.{decisions, unused}
use emcp.RateLimit.Retry.{retry_after_enough}

-- two requests of one millisecond, and three more
abbrev requests : List ℕ
requests = 100 ∷ 100 ∷ 130 ∷ 150 ∷ 200 ∷ []

all_limits : Unit {0}
unfolding keep live zadd oldest_from oldest sliding_window validate_input to_result check decisions
all_limits = tt

counts_a_millisecond_once :
    decisions 100 2 1 unused requests ≡ true ∷ true ∷ true ∷ false ∷ true ∷ []
unfolding all_limits
counts_a_millisecond_once = refl

abbrev full : Bucket
full = record { members = (100, 1) ∷ (120, 1) ∷ []; expires_at = some 5120 }

abbrev store : Store
store scope = full

abbrev input : RateLimitInput
input = record { scope = codes "ip"; limit = 2; window_ms = 5000 }

abbrev denied : RateLimitResult
denied = record {
  allowed = false;
  limit = 2;
  remaining = 0;
  reset_at_ms = 5100;
  retry_after_sec = some 5;
}

denies : (check store input 1000 1000 3).0 ≡ answered denied
unfolding all_limits
denies = refl

retry_after_enough_example :
    (res' : RateLimitResult) × ((check (check store input 1000 1000 3).1 input 6000 6000 3).0
      ≡ answered res')
    × (res'.allowed ≡ true)
unfolding all_limits
retry_after_enough_example =
    retry_after_enough input store 1000 1000 3 6000 6000 3 5 denied denies refl (omega arith)
      (omega arith)
