-- ===== src/Proxy/Pool.antt =====
-- src/shared/net/proxy/pool.ts and types.ts: the rotating pool of outbound proxies.
-- The closure's variables are the fields of `Pool`. Times are milliseconds since the epoch, and each
-- reading of the injected clock `now` is an argument; the injected `random` enters as the function
-- `draw`, where `draw n` is `Math.floor(random() * n)`. The dispatcher of an entry is undici's, so
-- its type `D` is a parameter.
pub mod Selection
pub mod Next
pub mod Kept
pub mod History
use emcp.Prelude.{
  ℕ, zero, suc, ◌+◌, ◌%◌, ◌-◌, min, String, Bool, true, false, ◌||◌, Option, none, some, List, [],
  ◌∷◌, map, ltb, leb, ◌==◌, if◌then◌else◌, length, get_elem?, str_eq,
}

pub data RotationStrategy : Type 0 where
  round_robin random : RotationStrategy

pub data ProxyOutcome : Type 0 where
  success connect_failure upstream_failure aborted : ProxyOutcome

pub record ProxyEntry (D : Type 0) : Type 0 where
  pub id : String
  pub url : String
  pub dispatcher : D

pub record ProxyHealth : Type 0 where
  pub id : String
  pub last_failure_at : Option ℕ
  pub cooldown_until : Option ℕ
  pub consecutive_failures : ℕ
  pub in_cooldown : Bool

pub record PoolEntry (D : Type 0) : Type 0 where
  pub entry : ProxyEntry D
  pub last_failure_at : Option ℕ
  pub cooldown_until : Option ℕ
  pub consecutive_failures : ℕ

pub record PoolOptions : Type 0 where
  pub strategy : RotationStrategy
  pub failure_cooldown_ms : ℕ
  pub failure_threshold : Option ℕ

pub record Pool (D : Type 0) : Type 0 where
  pub items : List (PoolEntry D)
  pub strategy : RotationStrategy
  pub failure_cooldown_ms : ℕ
  pub failure_threshold : ℕ
  pub rr_cursor : ℕ

-- `x ?? d`
abbrev pub or_else {ℓ} : {A : Type ℓ} → Option A → A → A
or_else none d = d
or_else (some a) d = a

abbrev pub includes : List ℕ → ℕ → Bool
includes [] c = false
includes (i ∷ is) c = i == c || includes is c

-- the loop of `pickRoundRobin`, with `rounds` offsets left; returns the index and the cursor
unfoldable pub pick_from : ℕ → ℕ → List ℕ → ℕ → ℕ → ℕ × ℕ
pick_from cursor n healthy offset zero = (or_else (get_elem? healthy 0) 0, cursor)
pick_from cursor n healthy offset (suc rounds) =
    let candidate = (cursor + offset) % n in
    let later = pick_from cursor n healthy (suc offset) rounds in
    if includes healthy candidate then (candidate, (candidate + 1) % n) else later

unfoldable pub pick_random : (ℕ → ℕ) → List ℕ → ℕ
pick_random draw healthy =
    or_else (get_elem? healthy (min (draw (length healthy)) (length healthy - 1))) 0

module _ {D : Type 0} where
  abbrev pub fresh : ProxyEntry D → PoolEntry D
  fresh e = record {
    entry = e;
    last_failure_at = none;
    cooldown_until = none;
    consecutive_failures = 0;
  }

  unfoldable pub create_proxy_pool : List (ProxyEntry D) → PoolOptions → Pool D
  create_proxy_pool entries options = record {
    items = map fresh entries;
    strategy = options.strategy;
    failure_cooldown_ms = options.failure_cooldown_ms;
    failure_threshold = or_else options.failure_threshold 1;
    rr_cursor = 0;
  }

  abbrev pub size : Pool D → ℕ
  size p = length p.items

  unfoldable pub is_healthy : PoolEntry D → ℕ → Bool
  is_healthy item t = elim item.cooldown_until [ none ↦ true | some until ↦ leb until t ]

  -- the loop of `healthyIndices`, at index `i`
  unfoldable pub healthy_from : ℕ → List (PoolEntry D) → ℕ → List ℕ
  healthy_from i [] t = []
  healthy_from i (item ∷ items) t =
      let rest = healthy_from (suc i) items t in if is_healthy item t then i ∷ rest else rest

  unfoldable pub healthy_indices : Pool D → ℕ → List ℕ
  healthy_indices p t = healthy_from 0 p.items t

  abbrev pub deadline : PoolEntry D → ℕ
  deadline item = or_else item.cooldown_until 0

  -- the loop of `earliestCooldownIndex`, at index `i`
  unfoldable pub earliest_from : ℕ → ℕ → ℕ → List (PoolEntry D) → ℕ
  earliest_from best best_deadline i [] = best
  earliest_from best best_deadline i (item ∷ items) =
      let sooner = ltb (deadline item) best_deadline in
      earliest_from (if sooner then i else best) (if sooner then deadline item else best_deadline)
        (suc i) items

  unfoldable pub earliest_cooldown_index : List (PoolEntry D) → ℕ
  earliest_cooldown_index [] = 0
  earliest_cooldown_index (item ∷ items) = earliest_from 0 (deadline item) 1 items

  unfoldable pub pick_round_robin : Pool D → List ℕ → ℕ × ℕ
  pick_round_robin p healthy = pick_from p.rr_cursor (size p) healthy 0 (size p)

  -- `chosenIdx` of `next`, with the cursor that it leaves
  unfoldable pub choose : Pool D → ℕ → (ℕ → ℕ) → List ℕ → RotationStrategy → ℕ × ℕ
  choose p t draw [] s = (earliest_cooldown_index p.items, p.rr_cursor)
  choose p t draw (h ∷ hs) random = (pick_random draw (h ∷ hs), p.rr_cursor)
  choose p t draw (h ∷ hs) round_robin = pick_round_robin p (h ∷ hs)

  unfoldable pub entry_at : Pool D → ℕ → Option (ProxyEntry D)
  entry_at p i = elim (get_elem? p.items i) [ none ↦ none | some item ↦ some item.entry ]

  unfoldable pub next : Pool D → ℕ → (ℕ → ℕ) → Option (ProxyEntry D) × Pool D
  next p t draw =
      if size p == 0
      then (none, p)
      else let (chosen, cursor) = choose p t draw (healthy_indices p t) p.strategy in
        (entry_at p chosen, record p { rr_cursor = cursor })

  -- what a report does to the item that it names
  unfoldable pub reported : ℕ → ℕ → PoolEntry D → ProxyOutcome → ℕ → PoolEntry D
  reported threshold cooldown item success t = record item {
    consecutive_failures = 0;
    cooldown_until = none;
  }
  reported threshold cooldown item aborted t = item
  reported threshold cooldown item _ t =
      let failures = item.consecutive_failures + 1 in
      record item {
        last_failure_at = some t;
        consecutive_failures = failures;
        cooldown_until =
            if leb threshold failures then some (t + cooldown) else item.cooldown_until;
      }

  -- `items.find`, and the mutation of what it finds
  unfoldable pub report_first :
      ℕ → ℕ → String → ProxyOutcome → ℕ → List (PoolEntry D) → List (PoolEntry D)
  report_first threshold cooldown id outcome t [] = []
  report_first threshold cooldown id outcome t (item ∷ items) =
      let rest = report_first threshold cooldown id outcome t items in
      if str_eq item.entry.id id
      then reported threshold cooldown item outcome t ∷ items
      else item ∷ rest

  unfoldable pub report : Pool D → String → ProxyOutcome → ℕ → Pool D
  report p id outcome t = record p {
    items = report_first p.failure_threshold p.failure_cooldown_ms id outcome t p.items;
  }

  abbrev pub health_of : ℕ → PoolEntry D → ProxyHealth
  health_of t item = record {
    id = item.entry.id;
    last_failure_at = item.last_failure_at;
    cooldown_until = item.cooldown_until;
    consecutive_failures = item.consecutive_failures;
    in_cooldown = elim item.cooldown_until [ none ↦ false | some until ↦ ltb t until ];
  }

  unfoldable pub health_snapshot : Pool D → ℕ → List ProxyHealth
  health_snapshot p t = map (health_of t) p.items

  unfoldable pub healthy_count : Pool D → ℕ → ℕ
  healthy_count p t = length (healthy_indices p t)
