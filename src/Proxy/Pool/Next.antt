-- ===== src/Proxy/Pool/Next.antt =====
-- `next` of src/shared/net/proxy/pool.ts: it never fails on a pool with entries, prefers healthy
-- ones, and in round-robin order takes the first healthy one from the cursor on.
use native.Mathlib.Nat.{mod-lt}
use emcp.Prelude.{
  ℕ, ◌+◌, ◌%◌, ◌<◌, ◌≡◌, refl, sym, ap, ◌∙◌, true, false, Option, some, List, [], ◌∷◌, arith, ◌==◌,
  get_elem?, get_elem?-some,
}
use emcp.Proxy.Pool.{
  RotationStrategy, round_robin, random, ProxyEntry, PoolEntry, Pool, size, includes,
  healthy_indices, is_healthy, pick_round_robin, earliest_cooldown_index, choose, entry_at, next,
}
use emcp.Proxy.Pool.Selection.{
  healthy_at, healthy_at-lt, healthy_at-item, includes-healthy_indices, pick_random-includes,
  FirstFrom, pick_from-FirstFrom, steps_to, IsSoonest, earliest_cooldown_index-IsSoonest,
}

module _ {D : Type 0} where
  -- the cursor stays an index of the pool
  abbrev pub IsPlaced : Pool D → Type 0
  IsPlaced p = p.rr_cursor < size p

  -- The index and the cursor that `next` arrives at.
  abbrev pub chosen : Pool D → ℕ → (ℕ → ℕ) → ℕ × ℕ
  chosen p t draw = choose p t draw (healthy_indices p t) p.strategy

  pub next-chosen :
      (p : Pool D) (t : ℕ) (draw : ℕ → ℕ)
      → 0 < size p
      → next p t draw
        ≡ (entry_at p (chosen p t draw).0, record p { rr_cursor = (chosen p t draw).1 })
  unfolding next
  next-chosen p t draw h = let e : (size p == 0) ≡ false = ground arith in rw e

  pub pick_round_robin-FirstFrom :
      (p : Pool D) (hs : List ℕ) (i : ℕ)
      → IsPlaced p
      → i < size p
      → includes hs i ≡ true
      → FirstFrom p.rr_cursor (size p) hs (pick_round_robin p hs)
  unfolding pick_round_robin
  pick_round_robin-FirstFrom p hs i placed below listed =
      let (k, k_below, e) = steps_to p.rr_cursor (size p) i placed below in
      pick_from-FirstFrom p.rr_cursor (size p) hs 0 (size p) k (λ j h. absurd (omega arith))
        (omega arith) (omega arith) k_below (rw e listed)

  choose-includes :
      (p : Pool D) (t : ℕ) (draw : ℕ → ℕ) (hs : List ℕ) (s : RotationStrategy) (i : ℕ)
      → IsPlaced p
      → i < size p
      → includes hs i ≡ true
      → (includes hs (choose p t draw hs s).0 ≡ true) × ((choose p t draw hs s).1 < size p)
  unfolding choose
  choose-includes p t draw [] s i placed below listed = cc
  choose-includes p t draw (h ∷ hs) random i placed below listed =
      (pick_random-includes draw h hs, placed)
  choose-includes p t draw (h ∷ hs) round_robin i placed below listed =
      let f = pick_round_robin-FirstFrom p (h ∷ hs) i placed below listed in
      (f.listed, rw f.moved (mod-lt _ (omega arith)))

  pub entry_at-some :
      (p : Pool D) (i : ℕ) (item : PoolEntry D)
      → get_elem? p.items i ≡ some item
      → entry_at p i ≡ some item.entry
  unfolding entry_at
  entry_at-some p i item e = ground arith

  -- The result is the entry of a healthy item of the pool.
  pub record Selected (p : Pool D) (t : ℕ) (result : Option (ProxyEntry D)) : Type 0 where
    pub index : ℕ
    pub item : PoolEntry D
    pub at_index : get_elem? p.items index ≡ some item
    pub returned : result ≡ some item.entry
    pub healthy : is_healthy item t ≡ true

  -- If some proxy is healthy, `next` returns a healthy one, by either strategy and whatever is
  -- drawn, and leaves the cursor an index of the pool.
  pub next-Selected :
      (p : Pool D) (t : ℕ) (draw : ℕ → ℕ) (i : ℕ)
      → IsPlaced p
      → healthy_at p.items i t ≡ true
      → Selected p t (next p t draw).0 × IsPlaced (next p t draw).1
  next-Selected p t draw i placed h =
      let below = healthy_at-lt p.items i t h in
      let (listed, moved) =
        choose-includes p t draw (healthy_indices p t) p.strategy i placed below
          (rw includes-healthy_indices h) in
      let (item, at_index, fit) =
        healthy_at-item p.items (chosen p t draw).0 t (rw includes-healthy_indices at listed) in
      rw (next-chosen p t draw (omega arith)) (
        record {
          index = (chosen p t draw).0;
          item = item;
          at_index = at_index;
          returned = entry_at-some p _ item at_index;
          healthy = fit;
        },
        moved,
      )

  -- What `next` returns when no proxy is healthy: an entry whose deadline none precedes.
  pub record Fallback (p : Pool D) (result : Option (ProxyEntry D)) : Type 0 where
    pub index : ℕ
    pub item : PoolEntry D
    pub at_index : get_elem? p.items index ≡ some item
    pub returned : result ≡ some item.entry
    pub soonest : IsSoonest p.items index

  none_listed :
      (p : Pool D) (t : ℕ) (draw : ℕ → ℕ) (hs : List ℕ)
      → ((i : ℕ) → includes hs i ≡ false)
      → choose p t draw hs p.strategy ≡ (earliest_cooldown_index p.items, p.rr_cursor)
  unfolding choose
  none_listed p t draw [] absent = refl
  none_listed p t draw (h ∷ hs) absent = absurd (absent_head (absent h))
    where
      absent_head : includes (h ∷ hs) h ≡ false → ⊥
      absent_head e = ground arith

  -- If the pool has entries and none is healthy, `next` returns, by either strategy, the entry of an
  -- item whose cooldown ends no later than that of any other item, and the pool is unchanged.
  pub next-Fallback :
      (p : Pool D) (t : ℕ) (draw : ℕ → ℕ)
      → 0 < size p
      → ((i : ℕ) → healthy_at p.items i t ≡ false)
      → Fallback p (next p t draw).0 × ((next p t draw).1 ≡ p)
  next-Fallback p t draw h sick =
      let e =
        none_listed p t draw (healthy_indices p t) (λ i. includes-healthy_indices p t i ∙ sick i) in
      let soonest = earliest_cooldown_index-IsSoonest p.items h in
      let (item, at_index) =
        get_elem?-some p.items (earliest_cooldown_index p.items) soonest.within in
      rw (next-chosen p t draw h, e)
        (
          record {
            index = earliest_cooldown_index p.items;
            item = item;
            at_index = at_index;
            returned = entry_at-some p _ item at_index;
            soonest = soonest;
          },
          refl,
        )

  -- The first healthy item from the cursor on, cyclically, and the cursor behind it.
  pub record InOrder (p : Pool D) (t : ℕ) (result : Option (ProxyEntry D)) (after : ℕ)
      : Type 0 where
    pub steps : ℕ
    pub steps-lt : steps < size p
    pub returned : result ≡ entry_at p ((p.rr_cursor + steps) % size p)
    pub healthy : healthy_at p.items ((p.rr_cursor + steps) % size p) t ≡ true
    pub skipped : (j : ℕ) → j < steps → healthy_at p.items ((p.rr_cursor + j) % size p) t ≡ false
    pub moved : after ≡ ((p.rr_cursor + steps) % size p + 1) % size p

  choose-round_robin :
      (p : Pool D) (t : ℕ) (draw : ℕ → ℕ) (hs : List ℕ) (s : RotationStrategy) (i : ℕ)
      → s ≡ round_robin
      → includes hs i ≡ true
      → choose p t draw hs s ≡ pick_round_robin p hs
  unfolding choose
  choose-round_robin p t draw [] s i order h = cc
  choose-round_robin p t draw (_ ∷ _) s i order h = rw order

  -- In round-robin order, if some proxy is healthy, `next` returns the first healthy one at or
  -- behind the cursor, cyclically: those skipped are cooled down, and the cursor moves just past
  -- the one returned.
  pub next-InOrder :
      (p : Pool D) (t : ℕ) (draw : ℕ → ℕ) (i : ℕ)
      → IsPlaced p
      → p.strategy ≡ round_robin
      → healthy_at p.items i t ≡ true
      → InOrder p t (next p t draw).0 (next p t draw).1.rr_cursor
  next-InOrder p t draw i placed order h =
      let below = healthy_at-lt p.items i t h in
      let listed : includes (healthy_indices p t) i ≡ true = rw includes-healthy_indices h in
      let f = pick_round_robin-FirstFrom p (healthy_indices p t) i placed below listed in
      rw
        (
          next-chosen p t draw (omega arith),
          choose-round_robin p t draw _ p.strategy i order listed,
        )
        (record {
          steps = f.steps;
          steps-lt = f.steps-lt;
          returned = ap (entry_at p) f.index;
          healthy =
              sym (includes-healthy_indices p t _)
              ∙ ap (includes (healthy_indices p t)) (sym f.index)
              ∙ f.listed;
          skipped = λ j lt. sym (includes-healthy_indices p t _) ∙ f.skipped j lt;
          moved = f.moved ∙ ap (λ k. (k + 1) % size p) f.index;
        })

  size-next : (p : Pool D) (t : ℕ) (draw : ℕ → ℕ) → size (next p t draw).1 ≡ size p
  unfolding next
  size-next p t draw = ground arith

  -- A pool that has entries always gives one, and its cursor stays an index.
  pub next-returns :
      (p : Pool D) (t : ℕ) (draw : ℕ → ℕ)
      → IsPlaced p
      → (e : ProxyEntry D) × ((next p t draw).0 ≡ some e)
        × IsPlaced (next p t draw).1
        × (size (next p t draw).1 ≡ size p)
  next-returns p t draw placed = go (healthy_indices p t) refl
    where
      Goal : Type 0
      Goal =
          (e : ProxyEntry D) × ((next p t draw).0 ≡ some e)
          × IsPlaced (next p t draw).1
          × (size (next p t draw).1 ≡ size p)

      go : (hs : List ℕ) → healthy_indices p t ≡ hs → Goal
      go [] none_healthy =
          let (f, same) =
            next-Fallback p t draw (omega arith)
              (λ i. sym (includes-healthy_indices p t i) ∙ ap (λ l. includes l i) none_healthy) in
          (f.item.entry, f.returned, rw same placed, size-next p t draw)
      go (h ∷ hs) some_healthy =
          let (s, placed') = next-Selected p t draw h placed (
            sym (includes-healthy_indices p t h)
            ∙ ap (λ l. includes l h) some_healthy
            ∙ ground arith) in
          (s.item.entry, s.returned, placed', size-next p t draw)
