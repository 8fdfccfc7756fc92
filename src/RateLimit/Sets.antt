-- ===== src/RateLimit/Sets.antt =====
-- The sorted set of src/core/rate-limiter.ts: what is fresh of it, now and later.
use emcp.Prelude.{
  ℕ, ◌+◌, ◌≤◌, ◌≡◌, refl, ap, ◌∙◌, inl, inr, Bool, true, false, some, List, [], ◌∷◌, ◌++◌, arith,
  ltb, if◌then◌else◌, All, Bool-cases, All-concat, if_cases,
}
use emcp.RateLimit.{Member, Bucket, keep, live, is_fresh, has_member, zadd}

pub keep-append :
    (p : Member → Bool) (ms ns : List Member) → keep p (ms ++ ns) ≡ keep p ms ++ keep p ns
unfolding keep
keep-append p [] ns = refl
keep-append p (m ∷ ms) ns = ground (arith, keep-append p ms ns)

-- a later filter sees through an earlier one
pub keep-keep :
    (window now later : ℕ) (ms : List Member)
    → now ≤ later
    → keep (is_fresh window later) (keep (is_fresh window now) ms) ≡ keep (is_fresh window later) ms
unfolding keep
keep-keep window now later [] h = refl
keep-keep window now later (m ∷ ms) h = ground (arith, keep-keep window now later ms h)

pub keep_stale :
    (window now : ℕ) (ms : List Member)
    → All (λ m. m.0 + window ≤ now) ms
    → keep (is_fresh window now) ms ≡ []
unfolding keep
keep_stale window now [] h = refl
keep_stale window now (m ∷ ms) (h, hs) = ground (arith, keep_stale window now ms hs)

-- a filter on freshness and a new member
pub has_member-keep :
    (window now : ℕ) (m : Member) (ms : List Member)
    → is_fresh window now m ≡ true
    → has_member m (keep (is_fresh window now) ms) ≡ has_member m ms
unfolding keep
has_member-keep window now m [] h = refl
has_member-keep window now m (k ∷ ms) h = ground (arith, h, has_member-keep window now m ms h)

append_nil : (ms : List Member) → ms ++ [] ≡ ms
append_nil [] = refl
append_nil (m ∷ ms) = ap (λ ns. m ∷ ns) (append_nil ms)

keep_one : (p : Member → Bool) (m : Member) → p m ≡ true → keep p (m ∷ []) ≡ m ∷ []
unfolding keep
keep_one p m h = rw h refl

keep_none : (p : Member → Bool) (m : Member) → p m ≡ false → keep p (m ∷ []) ≡ []
unfolding keep
keep_none p m h = rw h refl

pub keep-zadd :
    (window now : ℕ) (m : Member) (ms : List Member)
    → keep (is_fresh window now) (zadd m ms) ≡ (
        if is_fresh window now m
        then zadd m (keep (is_fresh window now) ms)
        else keep (is_fresh window now) ms)
unfolding zadd
keep-zadd window now m ms = elim (Bool-cases (is_fresh window now m)) [
  | inl fresh ↦ elim (Bool-cases (has_member m ms)) [
    | inl there ↦ rw (fresh, has_member-keep window now m ms fresh, there) refl
    | inr new ↦
        rw (fresh, has_member-keep window now m ms fresh, new)
          (keep-append (is_fresh window now) ms (m ∷ [])
            ∙ ap (λ ns. keep (is_fresh window now) ms ++ ns)
                (keep_one (is_fresh window now) m fresh))
  ]
  | inr stale ↦ elim (Bool-cases (has_member m ms)) [
    | inl there ↦ rw (stale, there) refl
    | inr new ↦
        rw (stale, new)
          (keep-append (is_fresh window now) ms (m ∷ [])
            ∙ ap (λ ns. keep (is_fresh window now) ms ++ ns)
                (keep_none (is_fresh window now) m stale)
            ∙ append_nil _)
  ]
]

pub All-zadd :
    (P : Member → Type 0) (m : Member) (ms : List Member) → All P ms → P m → All P (zadd m ms)
unfolding zadd
All-zadd P m ms hs h =
    if_cases (All P) (has_member m ms) (λ there. hs) (λ new. All-concat P ms m hs h)

pub live_gone :
    (b : Bucket) (x later : ℕ) → b.expires_at ≡ some x → ltb x later ≡ true → live b later ≡ []
unfolding live
live_gone b x later e gone = ground arith
