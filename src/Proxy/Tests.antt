-- ===== src/Proxy/Tests.antt =====
-- Runs of src/shared/net/proxy/pool.ts on two proxies, and instances of what is proved of it.
use mathlib.Core.Option
use emcp.Prelude.{ℕ, zero, suc, ◌≡◌, refl, false, String, Option, none, some, [], ◌∷◌, arith}
use emcp.Proxy.Pool.{
  round_robin, connect_failure, ProxyEntry, PoolEntry, PoolOptions, Pool, create_proxy_pool, next,
  report, is_healthy, healthy_indices, healthy_from, choose, entry_at, pick_from, pick_round_robin,
  pick_random, earliest_cooldown_index, earliest_from, reported, report_first, healthy_count,
}
use emcp.Proxy.Pool.Selection.{healthy_at}
use emcp.Proxy.Pool.Next.{
  IsPlaced, Selected, next-Selected, Fallback, next-Fallback, InOrder, next-InOrder,
}
use emcp.Proxy.Pool.History.{
  nexts, reports, run, find_item, find_entry, item_of, history, run-history,
}

abbrev entry : String → ProxyEntry ℕ
entry id = record { id = id; url = "http://proxy"; dispatcher = 7 }

abbrev options : PoolOptions
options = record { strategy = round_robin; failure_cooldown_ms = 1000; failure_threshold = none }

abbrev item : String → Option ℕ → PoolEntry ℕ
item id until = record {
  entry = entry id;
  last_failure_at = none;
  cooldown_until = until;
  consecutive_failures = 0;
}

abbrev pool : Option ℕ → Option ℕ → Pool ℕ
pool a b = record {
  items = item "p0" a ∷ item "p1" b ∷ [];
  strategy = round_robin;
  failure_cooldown_ms = 1000;
  failure_threshold = 1;
  rr_cursor = 0;
}

all_pool : Unit {0}
unfolding create_proxy_pool next report is_healthy healthy_indices healthy_from choose entry_at
    pick_from pick_round_robin pick_random earliest_cooldown_index earliest_from reported
    report_first healthy_count
all_pool = tt

-- the second is taken while the first cools down
skips : (next (pool (some 900) none) 500 (λ n. 0)).0 ≡ some (entry "p1")
unfolding all_pool
skips = refl

falls_back : (next (pool (some 900) (some 800)) 500 (λ n. 0)).0 ≡ some (entry "p1")
unfolding all_pool
falls_back = refl

cools_down :
    healthy_count
      (report (create_proxy_pool (entry "p0" ∷ entry "p1" ∷ []) options) "p1" connect_failure 5)
      6
    ≡ 1
unfolding all_pool
cools_down = refl

next-Selected_example :
    Selected (pool (some 900) none) 500 (next (pool (some 900) none) 500 (λ n. 0)).0
    × IsPlaced (next (pool (some 900) none) 500 (λ n. 0)).1
next-Selected_example =
    next-Selected (pool (some 900) none) 500 (λ n. 0) 1 (omega arith) (unfold is_healthy in refl)

next-InOrder_example :
    InOrder
      (pool (some 900) none)
      500
      (next (pool (some 900) none) 500 (λ n. 0)).0
      (next (pool (some 900) none) 500 (λ n. 0)).1.rr_cursor
next-InOrder_example =
    next-InOrder (pool (some 900) none) 500 (λ n. 0) 1 (omega arith) refl
      (unfold is_healthy in refl)

both_cool : (i : ℕ) → healthy_at (pool (some 900) (some 800)).items i 500 ≡ false
unfolding is_healthy
both_cool zero = refl
both_cool (suc zero) = refl
both_cool (suc (suc i)) = refl

next-Fallback_example :
    Fallback (pool (some 900) (some 800)) (next (pool (some 900) (some 800)) 500 (λ n. 0)).0
    × ((next (pool (some 900) (some 800)) 500 (λ n. 0)).1 ≡ pool (some 900) (some 800))
next-Fallback_example =
    next-Fallback (pool (some 900) (some 800)) 500 (λ n. 0) (omega arith) both_cool

run-history_example :
    find_item "p1"
      (run
        (create_proxy_pool (entry "p0" ∷ entry "p1" ∷ []) options)
        (reports "p1" connect_failure 5 ∷ nexts 6 (λ n. 0) ∷ [])).items
    ≡ Option.map
        (item_of 1 1000 (history "p1" [] (reports "p1" connect_failure 5 ∷ nexts 6 (λ n. 0) ∷ [])))
        (find_entry "p1" (entry "p0" ∷ entry "p1" ∷ []))
run-history_example =
    run-history (entry "p0" ∷ entry "p1" ∷ []) options
      (reports "p1" connect_failure 5 ∷ nexts 6 (λ n. 0) ∷ []) "p1" (omega arith)
