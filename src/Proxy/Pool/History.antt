-- ===== src/Proxy/Pool/History.antt =====
-- The health of a proxy, as src/shared/net/proxy/pool.ts keeps it, against the history of what was
-- reported of it.
use emcp.Prelude.{
  ℕ, suc, ◌+◌, ◌<◌, String, ◌≡◌, refl, ap, Option, none, some, List, [], ◌∷◌, map, arith, leb,
  if◌then◌else◌, str_eq, eq_iff, inl, inr, Bool-cases,
}
use mathlib.Core.Option
use emcp.Proxy.Pool.{
  ProxyOutcome, success, connect_failure, upstream_failure, aborted, ProxyEntry, PoolEntry,
  PoolOptions, Pool, or_else, fresh, create_proxy_pool, next, reported, report_first, report,
}

-- What was reported of one proxy, newest first.
abbrev pub Reports : Type 0
Reports = List (ProxyOutcome × ℕ)

-- the failures since the last success
pub streak : Reports → ℕ
streak [] = 0
streak ((success, t) ∷ h) = 0
streak ((aborted, t) ∷ h) = streak h
streak ((connect_failure, t) ∷ h) = suc (streak h)
streak ((upstream_failure, t) ∷ h) = suc (streak h)

pub last_failed : Reports → Option ℕ
last_failed [] = none
last_failed ((success, t) ∷ h) = last_failed h
last_failed ((aborted, t) ∷ h) = last_failed h
last_failed ((connect_failure, t) ∷ h) = some t
last_failed ((upstream_failure, t) ∷ h) = some t

-- a cooldown runs from the last failure while the streak has reached the threshold
pub cooled_until : ℕ → ℕ → Reports → Option ℕ
cooled_until threshold cooldown h =
    if leb threshold (streak h) then Option.map (λ t. t + cooldown) (last_failed h) else none

-- A call on the pool, with the reading of the clock that it makes.
pub data Call : Type 0 where
  nexts : ℕ → (ℕ → ℕ) → Call
  reports : String → ProxyOutcome → ℕ → Call

-- what the calls report of one proxy, over what was reported before
pub history : String → Reports → List Call → Reports
history id h [] = h
history id h (nexts t draw ∷ cs) = history id h cs
history id h (reports j outcome t ∷ cs) =
    history id (if str_eq j id then (outcome, t) ∷ h else h) cs

module _ {D : Type 0} where
  abbrev pub step : Pool D → Call → Pool D
  step p (nexts t draw) = (next p t draw).1
  step p (reports id outcome t) = report p id outcome t

  pub run : Pool D → List Call → Pool D
  run p [] = p
  run p (c ∷ cs) = run (step p c) cs

  pub find_item : String → List (PoolEntry D) → Option (PoolEntry D)
  find_item id [] = none
  find_item id (item ∷ items) = if str_eq item.entry.id id then some item else find_item id items

  pub find_entry : String → List (ProxyEntry D) → Option (ProxyEntry D)
  find_entry id [] = none
  find_entry id (e ∷ es) = if str_eq e.id id then some e else find_entry id es

  abbrev pub item_of : ℕ → ℕ → Reports → ProxyEntry D → PoolEntry D
  item_of threshold cooldown h e = record {
    entry = e;
    last_failure_at = last_failed h;
    cooldown_until = cooled_until threshold cooldown h;
    consecutive_failures = streak h;
  }

  reported-item_of :
      (threshold cooldown : ℕ) (h : Reports) (e : ProxyEntry D) (outcome : ProxyOutcome) (t : ℕ)
      → 0 < threshold
      → reported threshold cooldown (item_of threshold cooldown h e) outcome t
        ≡ item_of threshold cooldown ((outcome, t) ∷ h) e
  unfolding reported streak last_failed cooled_until
  reported-item_of threshold cooldown h e success t pos = ground arith
  reported-item_of threshold cooldown h e aborted t pos = ground arith
  reported-item_of threshold cooldown h e connect_failure t pos = ground arith
  reported-item_of threshold cooldown h e upstream_failure t pos = ground arith

  -- A report reaches the item that a search for its name finds, and no other.
  pub find_item-report_first :
      (threshold cooldown : ℕ) (j : String) (outcome : ProxyOutcome) (t : ℕ) (id : String)
      (items : List (PoolEntry D))
      → find_item id (report_first threshold cooldown j outcome t items) ≡ (
          if str_eq j id
          then Option.map (λ item. reported threshold cooldown item outcome t) (find_item id items)
          else find_item id items)
  unfolding find_item report_first reported
  find_item-report_first threshold cooldown j outcome t id [] = ground arith
  find_item-report_first threshold cooldown j outcome t id (item ∷ items) = ground (
    arith,
    eq_iff j id,
    eq_iff item.entry.id id,
    eq_iff item.entry.id j,
    find_item-report_first threshold cooldown j outcome t id items,
  )

  -- the item that a name finds is the entry of that name with the health that `h` says
  record Tracks (threshold cooldown : ℕ) (id : String) (es : List (ProxyEntry D)) (h : Reports)
      (p : Pool D) : Type 0 where
    found : find_item id p.items ≡ Option.map (item_of threshold cooldown h) (find_entry id es)
    threshold_kept : p.failure_threshold ≡ threshold
    cooldown_kept : p.failure_cooldown_ms ≡ cooldown

  next-Tracks :
      (threshold cooldown : ℕ) (id : String) (es : List (ProxyEntry D)) (h : Reports) (p : Pool D)
      (t : ℕ) (draw : ℕ → ℕ)
      → Tracks threshold cooldown id es h p
      → Tracks threshold cooldown id es h (next p t draw).1
  unfolding next
  next-Tracks threshold cooldown id es h p t draw k = ground arith

  mapped-reported :
      (threshold cooldown : ℕ) (h : Reports) (outcome : ProxyOutcome) (t : ℕ)
      (o : Option (ProxyEntry D))
      → 0 < threshold
      → Option.map
          (λ item. reported threshold cooldown item outcome t)
          (Option.map (item_of threshold cooldown h) o)
        ≡ Option.map (item_of threshold cooldown ((outcome, t) ∷ h)) o
  mapped-reported threshold cooldown h outcome t none pos = refl
  mapped-reported threshold cooldown h outcome t (some e) pos =
      ap some (reported-item_of threshold cooldown h e outcome t pos)

  report-Tracks :
      (threshold cooldown : ℕ) (id : String) (es : List (ProxyEntry D)) (h : Reports) (p : Pool D)
      (j : String) (outcome : ProxyOutcome) (t : ℕ)
      → 0 < threshold
      → Tracks threshold cooldown id es h p
      → Tracks threshold cooldown id es
          (if str_eq j id then (outcome, t) ∷ h else h)
          (report p j outcome t)
  unfolding report
  report-Tracks threshold cooldown id es h p j outcome t pos k = elim (Bool-cases (str_eq j id)) [
    | inl same ↦ rw same (record {
      found =
          rw (find_item-report_first, same, k.found)
            (simp (k.threshold_kept, k.cooldown_kept)
              (mapped-reported threshold cooldown h outcome t (find_entry id es) pos));
      threshold_kept = k.threshold_kept;
      cooldown_kept = k.cooldown_kept;
    })
    | inr other ↦ rw other (record {
      found = rw (find_item-report_first, other) k.found;
      threshold_kept = k.threshold_kept;
      cooldown_kept = k.cooldown_kept;
    })
  ]

  run-Tracks :
      (threshold cooldown : ℕ) (id : String) (es : List (ProxyEntry D)) (h : Reports) (p : Pool D)
      (cs : List Call)
      → 0 < threshold
      → Tracks threshold cooldown id es h p
      → Tracks threshold cooldown id es (history id h cs) (run p cs)
  unfolding run history
  run-Tracks threshold cooldown id es h p [] pos k = k
  run-Tracks threshold cooldown id es h p (nexts t draw ∷ cs) pos k =
      run-Tracks threshold cooldown id es h (next p t draw).1 cs pos
        (next-Tracks threshold cooldown id es h p t draw k)
  run-Tracks threshold cooldown id es h p (reports j outcome t ∷ cs) pos k =
      run-Tracks threshold cooldown id es (if str_eq j id then (outcome, t) ∷ h else h)
        (report p j outcome t) cs pos (report-Tracks threshold cooldown id es h p j outcome t pos k)

  find_item-fresh :
      (threshold cooldown : ℕ) (id : String) (es : List (ProxyEntry D))
      → 0 < threshold
      → find_item id (map fresh es) ≡ Option.map (item_of threshold cooldown []) (find_entry id es)
  unfolding find_item find_entry cooled_until streak last_failed
  find_item-fresh threshold cooldown id [] pos = refl
  find_item-fresh threshold cooldown id (e ∷ es) pos =
      ground (arith, find_item-fresh threshold cooldown id es pos)

  -- Whatever calls are made on a new pool, with a threshold of at least one, the item of each name
  -- is the first entry of that name with this health: as many consecutive failures as were
  -- reported of it since its last success (an abort counts for nothing), the time of its last
  -- failure, and a cooldown that ends `failureCooldownMs` after that failure if the consecutive
  -- failures have reached the threshold, and no cooldown otherwise.
  pub run-history :
      (es : List (ProxyEntry D)) (options : PoolOptions) (cs : List Call) (id : String)
      → 0 < or_else options.failure_threshold 1
      → find_item id (run (create_proxy_pool es options) cs).items
        ≡ Option.map
            (item_of
              (or_else options.failure_threshold 1)
              options.failure_cooldown_ms
              (history id [] cs))
            (find_entry id es)
  unfolding create_proxy_pool
  run-history es options cs id pos =
      (run-Tracks _ options.failure_cooldown_ms id es [] (create_proxy_pool es options) cs pos
        (record {
          found = find_item-fresh _ _ id es pos;
          threshold_kept = refl;
          cooldown_kept = refl;
        })).found
