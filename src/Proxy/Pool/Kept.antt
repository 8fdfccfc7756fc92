-- ===== src/Proxy/Pool/Kept.antt =====
-- What `report` of src/shared/net/proxy/pool.ts leaves as it is.
use emcp.Prelude.{ℕ, String, ◌≡◌, refl, List, [], ◌∷◌, arith, length}
use emcp.Proxy.Pool.{ProxyOutcome, PoolEntry, Pool, size, report, report_first}
use emcp.Proxy.Pool.Next.{IsPlaced}

module _ {D : Type 0} where
  length-report_first :
      (threshold cooldown : ℕ) (id : String) (outcome : ProxyOutcome) (t : ℕ)
      (items : List (PoolEntry D))
      → length (report_first threshold cooldown id outcome t items) ≡ length items
  unfolding report_first
  length-report_first threshold cooldown id outcome t [] = refl
  length-report_first threshold cooldown id outcome t (item ∷ items) =
      ground (arith, length-report_first threshold cooldown id outcome t items)

  pub report-IsPlaced :
      (p : Pool D) (id : String) (outcome : ProxyOutcome) (t : ℕ)
      → IsPlaced p
      → IsPlaced (report p id outcome t) × (size (report p id outcome t) ≡ size p)
  unfolding report
  report-IsPlaced p id outcome t placed =
      omega
        (arith, length-report_first p.failure_threshold p.failure_cooldown_ms id outcome t p.items)
