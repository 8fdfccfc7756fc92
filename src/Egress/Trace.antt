-- ===== src/Egress/Trace.antt =====
-- The attempts that `fetchExternal` of src/shared/net/egress.ts makes, read off the request counter.
use emcp.Prelude.{
  ℕ, zero, suc, min, String, ◌≡◌, refl, ap, ◌∙◌, ◌⊎◌, inl, inr, false, Option, none, some, List, [],
  ◌∷◌, ◌++◌, arith, ◌==◌, length,
}
use emcp.Proxy.Pool.{ProxyOutcome, success, aborted, ProxyEntry, Pool, size, next}
use emcp.Proxy.Pool.Next.{IsPlaced, next-returns}
use emcp.Proxy.Pool.Kept.{report-IsPlaced}
use emcp.Egress.{
  Thrown, Reply, responded, threw, Attempt, Metric, requests_total, request_duration,
  cooldowns_total, pool_healthy, Fetched, response, rethrown, transient, classify_error,
  record_outcome, Turn, returned, failed, settle, turn, Run, add_attempted, fetch_loop,
  fetch_external,
}
use emcp.Egress.Outcomes.{IsAbort, IsFailure, not_aborted, classify_error-cases}

-- the attempts that the counter of requests saw
pub statuses : List Metric → List (String × ProxyOutcome)
statuses [] = []
statuses (requests_total id outcome ∷ ms) = (id, outcome) ∷ statuses ms
statuses (request_duration id t ∷ ms) = statuses ms
statuses (cooldowns_total id ∷ ms) = statuses ms
statuses (pool_healthy n ∷ ms) = statuses ms

statuses-append : (ms ns : List Metric) → statuses (ms ++ ns) ≡ statuses ms ++ statuses ns
unfolding statuses
statuses-append [] ns = refl
statuses-append (requests_total id outcome ∷ ms) ns =
    ap (λ l. (id, outcome) ∷ l) (statuses-append ms ns)
statuses-append (request_duration id t ∷ ms) ns = statuses-append ms ns
statuses-append (cooldowns_total id ∷ ms) ns = statuses-append ms ns
statuses-append (pool_healthy n ∷ ms) ns = statuses-append ms ns

-- How a call ends that has a budget of attempts left, from its attempt number on, with the proxies that
-- it has tried and its last error; and the attempts that it makes from there.
pub data Ends {D R : Type 0} (world : ℕ → Attempt D R)
    : ℕ → ℕ → List String → Option Thrown → Fetched R → List (String × ProxyOutcome) → Type 0 where
  exhausted :
      {k : ℕ} {attempted : List String} {last : Option Thrown}
      → Ends world zero k attempted last (transient (length attempted) last) []
  answered :
      {n k : ℕ} {attempted : List String} {last : Option Thrown} {r : R}
      → (e : ProxyEntry D) → (world k).reply e ≡ responded r
      → Ends world (suc n) k attempted last (response r) ((e.id, success) ∷ [])
  cancelled :
      {n k : ℕ} {attempted : List String} {last : Option Thrown} {err : Thrown}
      → (e : ProxyEntry D) → (world k).reply e ≡ threw err
      → IsAbort err (world k).signal_aborted
      → Ends world (suc n) k attempted last (rethrown err) ((e.id, aborted) ∷ [])
  retried :
      {n k : ℕ} {attempted : List String} {last : Option Thrown} {err : Thrown}
      {outcome : ProxyOutcome} {f : Fetched R} {tr : List (String × ProxyOutcome)}
      → (e : ProxyEntry D) → (world k).reply e ≡ threw err
      → IsFailure err (world k).signal_aborted outcome
      → Ends world n (suc k) (add_attempted e.id attempted) (some err) f tr
      → Ends world (suc n) k attempted last f ((e.id, outcome) ∷ tr)

module _ {D R : Type 0} where
  -- What one pass of the loop does: it asks one proxy, counts it once, and keeps the pool in shape.
  data Turned (a : Attempt D R) (n : ℕ) : Turn D R → Type 0 where
    got :
        {r : R} {p : Pool D} {ms : List Metric}
        → (e : ProxyEntry D) → a.reply e ≡ responded r
        → statuses ms ≡ (e.id, success) ∷ []
        → IsPlaced p
        → size p ≡ n
        → Turned a n (returned e.id r p ms)
    missed :
        {outcome : ProxyOutcome} {err : Thrown} {p : Pool D} {ms : List Metric}
        → (e : ProxyEntry D) → a.reply e ≡ threw err
        → ((outcome ≡ aborted) × IsAbort err a.signal_aborted)
          ⊎ IsFailure err a.signal_aborted outcome
        → statuses ms ≡ (e.id, outcome) ∷ []
        → IsPlaced p
        → size p ≡ n
        → Turned a n (failed e.id outcome err p ms)

  settle-Turned :
      (a : Attempt D R) (p : Pool D) (e : ProxyEntry D) (reply : Reply R)
      → a.reply e ≡ reply
      → IsPlaced p
      → Turned a (size p) (settle a p e.id reply)
  unfolding settle statuses record_outcome
  settle-Turned a p e (responded r) said placed =
      let (placed', same) = report-IsPlaced p e.id success a.reported_at placed in
      got e said refl placed' same
  settle-Turned a p e (threw err) said placed =
      let (placed', same) =
        report-IsPlaced p e.id (classify_error err a.signal_aborted) a.reported_at placed in
      missed e said (classify_error-cases err a.signal_aborted) (ground arith) placed' same

  turn-Turned : (a : Attempt D R) (p : Pool D) → IsPlaced p → Turned a (size p) (turn a p)
  unfolding turn
  turn-Turned a p placed =
      let (e, found, placed', same) = next-returns p a.next_at a.draw placed in
      rw (found, turn, ← same)
        (settle-Turned a (next p a.next_at a.draw).1 e (a.reply e) refl placed')

module _ {D R : Type 0} (world : ℕ → Attempt D R) where
  -- What the loop leaves, with the attempts that it made.
  abbrev Finished : ℕ → ℕ → List String → Option Thrown → ℕ → Run D R → Type 0
  Finished rounds k attempted last n run =
      Ends world rounds k attempted last run.result (statuses run.metrics)
      × IsPlaced run.pool
      × (size run.pool ≡ n)

  fetch_loop-Finished :
      (rounds k : ℕ) (attempted : List String) (last : Option Thrown) (p : Pool D)
      → IsPlaced p
      → Finished rounds k attempted last (size p) (fetch_loop world rounds k attempted last p)
  unfolding fetch_loop statuses
  fetch_loop-Finished zero k attempted last p placed = (exhausted, placed, refl)
  fetch_loop-Finished (suc rounds) k attempted last p placed =
      go
        (λ id err p' h.
          fetch_loop-Finished rounds (suc k) (add_attempted id attempted) (some err) p' h)
        (turn (world k) p) refl (turn-Turned (world k) p placed)
    where
      go :
          ((id : String) (err : Thrown) (p' : Pool D)
            → IsPlaced p'
            → Finished rounds
                (suc k)
                (add_attempted id attempted)
                (some err)
                (size p')
                (fetch_loop world rounds (suc k) (add_attempted id attempted) (some err) p'))
          → (u : Turn D R) → turn (world k) p ≡ u
          → Turned (world k) (size p) u
          → Finished
              (suc rounds)
              k
              attempted
              last
              (size p)
              (fetch_loop world (suc rounds) k attempted last p)
      go again u t (got e said counted placed' same) =
          rw (t, fetch_loop, counted) (answered e said, placed', same)
      go again u t
            (missed {outcome} {err} {p = p'} {ms} e said (inl (stop, why)) counted placed' same) =
          rw (t, fetch_loop, stop, counted, stop) (cancelled e said why, placed', same)
      go again u t (missed {outcome} {err} {p = p'} {ms} e said (inr why) counted placed' same) =
          let (ends, placed'', same') = again e.id err p' placed' in
          rw
            (
              t,
              fetch_loop,
              not_aborted err (world k).signal_aborted outcome why,
              statuses-append,
              counted,
            )
            (retried e said why ends, placed'', same' ∙ same)

module _ {D R : Type 0} where
  -- On a pool with entries, a call asks at most `min maxRetries size` proxies, one after another: it
  -- goes on exactly after an error that is no abort, which it counts as a connect failure exactly if
  -- the error has one of the known codes and else as an upstream failure; it returns the first
  -- response, rethrows the error of the first abort, and throws `TransientError` with the last
  -- error, and the number of proxies that it has tried, exactly when as many attempts as that have
  -- failed.
  pub fetch_external-Ends :
      (p : Pool D) (max_retries : ℕ) (direct : Reply R) (world : ℕ → Attempt D R)
      → IsPlaced p
      → Ends world
          (min max_retries (size p))
          0
          []
          none
          (fetch_external false (some p) max_retries direct world).result
          (statuses (fetch_external false (some p) max_retries direct world).metrics)
  unfolding fetch_external
  fetch_external-Ends p max_retries direct world placed =
      let e : (size p == 0) ≡ false = ground arith in
      rw e (fetch_loop-Finished world (min max_retries (size p)) 0 [] none p placed).0
