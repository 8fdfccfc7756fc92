-- ===== src/RateLimit/Retry.antt =====
-- What src/core/rate-limiter.ts tells a client that it refuses: when to come back.
use emcp.Prelude.{
  ℕ, ◌+◌, ◌-◌, ◌*◌, ◌≤◌, ◌<◌, max, ◌≡◌, refl, ap, sym, ◌∙◌, ◌⊎◌, inl, inr, Bool, true, false, none,
  some, List, [], ◌∷◌, arith, ltb, if◌then◌else◌, length, Bool-cases, Option-cases, lt→ltb,
  same_text_refl,
}
use emcp.RateLimit.{
  Member, Bucket, RateLimitInput, RateLimitResult, keep, live, is_fresh, has_member, zadd,
  oldest_from, oldest, Reply, sliding_window, validate_input, to_result, ceil_sec, Store, answered,
  check,
}

length-keep : (p : Member → Bool) (ms : List Member) → length (keep p ms) ≤ length ms
unfolding keep
length-keep p [] = omega arith
length-keep p (m ∷ ms) = ground (arith, length-keep p ms)

oldest_from-le : (best : ℕ) (ms : List Member) → oldest_from best ms ≤ best
unfolding oldest_from
oldest_from-le best [] = omega arith
oldest_from-le best (m ∷ ms) =
    ground (arith, oldest_from-le (if ltb m.0 best then m.0 else best) ms)

-- When the oldest member is stale, fewer are left: either the start or a member was the oldest.
keep-oldest_from :
    (window now best : ℕ) (ms : List Member)
    → oldest_from best ms + window ≤ now
    → now < best + window
    → length (keep (is_fresh window now) ms) < length ms
unfolding keep oldest_from
keep-oldest_from window now best [] h k = absurd (omega arith)
keep-oldest_from window now best (m ∷ ms) h k = elim (Bool-cases (is_fresh window now m)) [
  | inl fresh ↦ rw fresh (
      omega (
        arith,
        keep-oldest_from window now (if ltb m.0 best then m.0 else best) ms h (ground arith),
      ))
  | inr stale ↦ rw stale (omega (arith, length-keep (is_fresh window now) ms))
]

keep-oldest :
    (window now : ℕ) (ms : List Member)
    → 0 < length ms
    → oldest ms + window ≤ now
    → length (keep (is_fresh window now) ms) < length ms
unfolding oldest keep
keep-oldest window now [] pos h = absurd (omega arith)
keep-oldest window now (m ∷ ms) pos h = elim (Bool-cases (is_fresh window now m)) [
  | inl fresh ↦ rw fresh (omega (arith, keep-oldest_from window now m.0 ms h (ground arith)))
  | inr stale ↦ rw stale (omega (arith, length-keep (is_fresh window now) ms))
]

module _ (window limit : ℕ) (b : Bucket) (now redis_now draw : ℕ) where
  abbrev pub fresh_members : List Member
  fresh_members = keep (is_fresh window now) (live b redis_now)

  live_kept :
      (redis_later : ℕ)
      → (live (record b { members = fresh_members }) redis_later ≡ [])
        ⊎ (live (record b { members = fresh_members }) redis_later ≡ fresh_members)
  unfolding live
  live_kept redis_later = elim (Option-cases b.expires_at) [
    | inl e ↦ inr (ground arith)
    | inr (x, e) ↦ elim (Bool-cases (ltb x redis_later)) [
      | inl gone ↦ inl (ground arith)
      | inr there ↦ inr (ground arith)
    ]
  ]

  refused_state :
      (sliding_window window limit now redis_now draw b).0.allowed ≡ false
      → (limit ≤ length fresh_members)
        × (sliding_window window limit now redis_now draw b ≡ (
          record { allowed = false; remaining = 0; oldest_or_now = oldest fresh_members },
          record b { members = fresh_members },
        ))
  unfolding sliding_window
  refused_state h = elim (Bool-cases (ltb (length fresh_members) limit)) [
    | inl room ↦ absurd (ground arith)
    | inr full ↦ (ground arith, rw full)
  ]

  -- once the oldest of the members is stale, there is room
  room_later :
      (later redis_later : ℕ)
      → 0 < limit
      → length fresh_members ≤ limit
      → limit ≤ length fresh_members
      → oldest fresh_members + window ≤ later
      → length
          (keep (is_fresh window later) (live (record b { members = fresh_members }) redis_later))
        < limit
  unfolding keep
  room_later later redis_later pos most full old = elim (live_kept redis_later) [
    | inl e ↦ rw e pos
    | inr e ↦ rw e (omega (arith, keep-oldest window later fresh_members (omega arith) old))
  ]

-- A request that the bucket has room for is let pass.
allowed_of_room :
    (window limit now redis_now draw : ℕ) (b : Bucket)
    → length (keep (is_fresh window now) (live b redis_now)) < limit
    → (sliding_window window limit now redis_now draw b).0.allowed ≡ true
unfolding sliding_window
allowed_of_room window limit now redis_now draw b room = rw (lt→ltb _ limit room)

ceil_sec-le :
    (ms s now later : ℕ) → max (ceil_sec (ms - now)) 1 ≡ s → now + s * 1000 ≤ later → ms ≤ later
ceil_sec-le ms s now later e h = omega arith

module _ (store : Store) (input : RateLimitInput) (now redis_now draw : ℕ) where
  abbrev ran : Reply × Bucket
  ran = sliding_window input.window_ms input.limit now redis_now draw (store input.scope)

  check_valid :
      validate_input input ≡ none
      → (check store input now redis_now draw).0 ≡ answered (to_result input now ran.0)
  unfolding check
  check_valid valid = rw (valid, check)

  check_scope :
      validate_input input ≡ none → (check store input now redis_now draw).1 input.scope ≡ ran.1
  unfolding check
  check_scope valid = rw (valid, check, same_text_refl input.scope) refl

  check_answered :
      (res : RateLimitResult)
      → (check store input now redis_now draw).0 ≡ answered res
      → (validate_input input ≡ none) × (res ≡ to_result input now ran.0)
  unfolding check
  check_answered res e = ground arith

to_result_retry :
    (input : RateLimitInput) (now : ℕ) (reply : Reply) (s : ℕ)
    → (to_result input now reply).retry_after_sec ≡ some s
    → (reply.allowed ≡ false) × (max (ceil_sec (reply.oldest_or_now + input.window_ms - now)) 1 ≡ s)
unfolding to_result
to_result_retry input now reply s h = ground arith

allowed-to_result :
    (input : RateLimitInput) (now : ℕ) (reply : Reply)
    → (to_result input now reply).allowed ≡ reply.allowed
unfolding to_result
allowed-to_result input now reply = ground arith

valid_limit : (input : RateLimitInput) → validate_input input ≡ none → 0 < input.limit
unfolding validate_input
valid_limit input h = ground arith

-- If a check refuses with a time to retry after, and the key holds no more requests than the limit,
-- then a check that many seconds later or after that is let pass, if none came between.
pub retry_after_enough :
    (input : RateLimitInput) (store : Store) (now redis_now draw later redis_later draw' s : ℕ)
    (res : RateLimitResult)
    → (check store input now redis_now draw).0 ≡ answered res
    → res.retry_after_sec ≡ some s
    → length (keep (is_fresh input.window_ms now) (live (store input.scope) redis_now))
      ≤ input.limit
    → now + s * 1000 ≤ later
    → (res' : RateLimitResult) × ((check
          (check store input now redis_now draw).1
          input
          later
          redis_later
          draw').0
        ≡ answered res')
      × (res'.allowed ≡ true)
retry_after_enough input store now redis_now draw later redis_later draw' s res e r most wait =
    let (valid, whole) = check_answered store input now redis_now draw res e in
    let (turned_away, seconds) =
      to_result_retry input now _ s
        (ap (λ (t : RateLimitResult). t.retry_after_sec) (sym whole) ∙ r) in
    let (full, state) =
      refused_state input.window_ms input.limit (store input.scope) now redis_now draw
        turned_away in
    let after =
      check_scope store input now redis_now draw valid ∙ ap (λ (o : Reply × Bucket). o.1) state in
    let told : max
          (ceil_sec (
            oldest
              (fresh_members input.window_ms input.limit (store input.scope) now redis_now draw)
            + input.window_ms
            - now))
          1
        ≡ s =
      ap (λ (o : Reply × Bucket). max (ceil_sec (o.0.oldest_or_now + input.window_ms - now)) 1)
        (sym state)
      ∙ seconds in
    (
      to_result input later
          (sliding_window input.window_ms input.limit later redis_later draw'
            ((check store input now redis_now draw).1 input.scope)).0,
      check_valid (check store input now redis_now draw).1 input later redis_later draw' valid,
      allowed-to_result input later _
          ∙ allowed_of_room input.window_ms input.limit later redis_later draw'
              ((check store input now redis_now draw).1 input.scope)
              (rw after (
                room_later input.window_ms input.limit (store input.scope) now redis_now draw later
                  redis_later (valid_limit input valid) most full
                  (ceil_sec-le _ s now later told wait))),
    )

-- If a request finds room and a member of its millisecond, it is let pass and the key holds no more
-- members than before: the request is not counted.
pub sliding_window-collision :
    (window limit now redis_now draw : ℕ) (b : Bucket)
    → length (keep (is_fresh window now) (live b redis_now)) < limit
    → has_member (now, draw) (keep (is_fresh window now) (live b redis_now)) ≡ true
    → ((sliding_window window limit now redis_now draw b).0.allowed ≡ true)
      × ((sliding_window window limit now redis_now draw b).1.members
          ≡ keep (is_fresh window now) (live b redis_now))
unfolding sliding_window zadd
sliding_window-collision window limit now redis_now draw b room taken =
    rw (lt→ltb _ limit room) (refl, rw taken)
