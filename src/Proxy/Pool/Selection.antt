-- ===== src/Proxy/Pool/Selection.antt =====
-- What `next` of src/shared/net/proxy/pool.ts selects.
use native.Mathlib.Nat.{mod-eq_of_lt, add-mod_right}
use emcp.Prelude.{
  ℕ, zero, suc, ◌+◌, ◌-◌, ◌%◌, ◌≤◌, ◌<◌, ◌≡◌, refl, sym, ◌∙◌, ap, inl, inr, Bool, true, false, min,
  none, some, List, [], ◌∷◌, arith, ltb, leb, ◌==◌, if◌then◌else◌, Bool-cases, below_suc, ==_iff,
  length, get_elem?, get_elem?-some,
}
use emcp.Proxy.Pool.{
  PoolEntry, Pool, includes, is_healthy, healthy_from, healthy_indices, deadline, earliest_from,
  earliest_cooldown_index, pick_from, pick_random,
}

module _ {D : Type 0} where
  -- whether the item at an index is healthy
  abbrev pub healthy_at : List (PoolEntry D) → ℕ → ℕ → Bool
  healthy_at items i t = elim (get_elem? items i) [ none ↦ false | some item ↦ is_healthy item t ]

  healthy_from-below :
      (k : ℕ) (items : List (PoolEntry D)) (t j : ℕ)
      → j < k
      → includes (healthy_from k items t) j ≡ false
  unfolding healthy_from
  healthy_from-below k [] t j h = refl
  healthy_from-below k (item ∷ items) t j h =
      ground (arith, healthy_from-below (suc k) items t j (omega arith))

  includes-healthy_from :
      (k : ℕ) (items : List (PoolEntry D)) (t i : ℕ)
      → includes (healthy_from k items t) (k + i) ≡ healthy_at items i t
  unfolding healthy_from
  includes-healthy_from k [] t i = refl
  includes-healthy_from k (item ∷ items) t zero =
      ground (arith, healthy_from-below (suc k) items t (k + 0) (omega arith))
  includes-healthy_from k (item ∷ items) t (suc i) =
      let e : k + suc i ≡ suc k + i = omega arith in
      rw e (ground (arith, includes-healthy_from (suc k) items t i))

  pub includes-healthy_indices :
      (p : Pool D) (t i : ℕ) → includes (healthy_indices p t) i ≡ healthy_at p.items i t
  unfolding healthy_indices
  includes-healthy_indices p t i =
      let e : 0 + i ≡ i = omega arith in
      ap (includes (healthy_from 0 p.items t)) (sym e) ∙ includes-healthy_from 0 p.items t i

  pub healthy_at-item :
      (items : List (PoolEntry D)) (i t : ℕ)
      → healthy_at items i t ≡ true
      → (item : PoolEntry D) × (get_elem? items i ≡ some item) × (is_healthy item t ≡ true)
  healthy_at-item [] i t h = cc
  healthy_at-item (item ∷ items) zero t h = (item, refl, h)
  healthy_at-item (item ∷ items) (suc i) t h = healthy_at-item items i t h

  pub healthy_at-lt :
      (items : List (PoolEntry D)) (i t : ℕ) → healthy_at items i t ≡ true → i < length items
  healthy_at-lt [] i t h = cc
  healthy_at-lt (item ∷ items) zero t h = omega arith
  healthy_at-lt (item ∷ items) (suc i) t h = omega (arith, healthy_at-lt items i t h)

includes_get : (xs : List ℕ) (j i : ℕ) → get_elem? xs j ≡ some i → includes xs i ≡ true
includes_get [] j i h = cc
includes_get (x ∷ xs) zero i h = ground arith
includes_get (x ∷ xs) (suc j) i h = ground (arith, includes_get xs j i h)

-- A random pick from a list that is not empty is in the list, whatever is drawn.
pub pick_random-includes :
    (draw : ℕ → ℕ) (h : ℕ) (hs : List ℕ) → includes (h ∷ hs) (pick_random draw (h ∷ hs)) ≡ true
unfolding pick_random
pick_random-includes draw h hs =
    let (i, e) =
      get_elem?-some (h ∷ hs) (min (draw (length (h ∷ hs))) (length (h ∷ hs) - 1)) (omega arith) in
    rw e (includes_get (h ∷ hs) _ i e)

-- What a scan from the cursor returns: the first candidate that is listed, `k` steps on.
pub record FirstFrom (cursor n : ℕ) (healthy : List ℕ) (picked : ℕ × ℕ) : Type 0 where
  pub steps : ℕ
  pub steps-lt : steps < n
  pub index : picked.0 ≡ (cursor + steps) % n
  pub moved : picked.1 ≡ (picked.0 + 1) % n
  pub listed : includes healthy picked.0 ≡ true
  pub skipped : (j : ℕ) → j < steps → includes healthy ((cursor + j) % n) ≡ false

-- nothing is listed at the first `offset` steps
abbrev Skipped : ℕ → ℕ → List ℕ → ℕ → Type 0
Skipped cursor n healthy offset = (j : ℕ) → j < offset → includes healthy ((cursor + j) % n) ≡ false

-- If a later step is listed, the scan stops at the first step that is.
pub pick_from-FirstFrom :
    (cursor n : ℕ) (healthy : List ℕ) (offset rounds k : ℕ)
    → Skipped cursor n healthy offset
    → offset + rounds ≡ n
    → offset ≤ k
    → k < n
    → includes healthy ((cursor + k) % n) ≡ true
    → FirstFrom cursor n healthy (pick_from cursor n healthy offset rounds)
unfolding pick_from
pick_from-FirstFrom cursor n healthy offset zero k before total from below found =
    absurd (omega arith)
pick_from-FirstFrom cursor n healthy offset (suc rounds) k before total from below found =
    elim (Bool-cases (includes healthy ((cursor + offset) % n))) [
      | inl here ↦ rw here (record {
        steps = offset;
        steps-lt = omega arith;
        index = refl;
        moved = refl;
        listed = here;
        skipped = before;
      })
      | inr missing ↦ rw missing (
          pick_from-FirstFrom cursor n healthy (suc offset) rounds k
            (below_suc (λ j. includes healthy ((cursor + j) % n) ≡ false) offset before missing)
            (omega arith) (later k from found missing) below found)
    ]
  where
    later :
        (k : ℕ)
        → offset ≤ k
        → includes healthy ((cursor + k) % n) ≡ true
        → includes healthy ((cursor + offset) % n) ≡ false
        → suc offset ≤ k
    later k from found missing = elim (Bool-cases (k == offset)) [
      | inl same ↦ cc ((==_iff k offset).0 same)
      | inr other ↦ ground arith
    ]

-- Every index below `n` is some steps on from every cursor below `n`.
pub steps_to : (cursor n i : ℕ) → cursor < n → i < n → (k : ℕ) × (k < n) × ((cursor + k) % n ≡ i)
steps_to cursor n i hc hi = elim (Bool-cases (leb cursor i)) [
  | inl ahead ↦ (
    i - cursor,
    ground arith,
    let e : cursor + (i - cursor) ≡ i = ground arith in rw e (mod-eq_of_lt hi),
  )
  | inr behind ↦ (
    i + n - cursor,
    ground arith,
    let e : cursor + (i + n - cursor) ≡ i + n = ground arith in
        rw (e, add-mod_right) (mod-eq_of_lt hi),
  )
]

module _ {D : Type 0} where
  abbrev pub deadline_at : List (PoolEntry D) → ℕ → ℕ
  deadline_at items i = elim (get_elem? items i) [ none ↦ 0 | some item ↦ deadline item ]

  -- No item has a deadline before that of the item at `r`.
  pub record IsSoonest (items : List (PoolEntry D)) (r : ℕ) : Type 0 where
    pub within : r < length items
    pub least : (j : ℕ) → j < length items → deadline_at items r ≤ deadline_at items j

  -- the invariant of the loop, before index `k`
  record SoonestBefore (every : List (PoolEntry D)) (k best best_deadline : ℕ) : Type 0 where
    earlier : best < k
    reached : deadline_at every best ≡ best_deadline
    lower : (j : ℕ) → j < k → best_deadline ≤ deadline_at every j

  SoonestBefore-suc :
      (every : List (PoolEntry D)) (k best best_deadline : ℕ)
      → SoonestBefore every k best best_deadline
      → SoonestBefore every
          (suc k)
          (if ltb (deadline_at every k) best_deadline then k else best)
          (if ltb (deadline_at every k) best_deadline then deadline_at every k else best_deadline)
  SoonestBefore-suc every k best best_deadline inv =
      elim (Bool-cases (ltb (deadline_at every k) best_deadline)) [
        | inl sooner ↦ rw sooner (record {
          earlier = omega arith;
          reached = refl;
          lower =
              below_suc (λ j. deadline_at every k ≤ deadline_at every j) k
                (λ j h. ground (arith, inv.lower j h)) (omega arith);
        })
        | inr later ↦ rw later (record {
          earlier = omega arith;
          reached = inv.reached;
          lower = below_suc (λ j. best_deadline ≤ deadline_at every j) k inv.lower (ground arith);
        })
      ]

  earliest_from-IsSoonest :
      (every items : List (PoolEntry D)) (k best best_deadline : ℕ)
      → ((j : ℕ) → get_elem? every (k + j) ≡ get_elem? items j)
      → k + length items ≡ length every
      → SoonestBefore every k best best_deadline
      → IsSoonest every (earliest_from best best_deadline k items)
  unfolding earliest_from
  earliest_from-IsSoonest every [] k best best_deadline suffix total inv = record {
    within = omega (arith, inv.earlier);
    least = λ j h. rw inv.reached (inv.lower j (omega arith));
  }
  earliest_from-IsSoonest every (item ∷ items) k best best_deadline suffix total inv =
      earliest_from-IsSoonest every items (suc k) _ _
        (λ j. let e : suc k + j ≡ k + suc j = omega arith in rw e (suffix (suc j))) (omega arith)
        (rw (← here) (SoonestBefore-suc every k best best_deadline inv))
    where
      here : deadline_at every k ≡ deadline item
      here = let e : k + 0 ≡ k = omega arith in rw (← e) (rw (suffix 0, deadline_at) refl)

  -- The fallback of `next` has the soonest deadline of all.
  pub earliest_cooldown_index-IsSoonest :
      (items : List (PoolEntry D))
      → 0 < length items
      → IsSoonest items (earliest_cooldown_index items)
  unfolding earliest_cooldown_index
  earliest_cooldown_index-IsSoonest [] h = absurd (omega arith)
  earliest_cooldown_index-IsSoonest (item ∷ items) h =
      earliest_from-IsSoonest (item ∷ items) items 1 0 (deadline item)
        (λ j. let e : 1 + j ≡ suc j = omega arith in rw e refl) (omega arith)
        (record {
          earlier = omega arith;
          reached = refl;
          lower =
              below_suc (λ j. deadline item ≤ deadline_at (item ∷ items) j) 0
                (λ j h. absurd (omega arith)) (omega arith);
        })
