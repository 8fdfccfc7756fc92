-- ===== src/RateLimit/Window.antt =====
-- The limiter of src/core/rate-limiter.ts against the history of what it has let pass.
use emcp.Prelude.{
  ℕ, ◌+◌, ◌≤◌, ◌≡◌, Bool, false, ◌||◌, none, List, [], ◌∷◌, ◌++◌, ltb, ◌==◌, if◌then◌else◌, length,
  All,
}
use emcp.RateLimit.{Member, Bucket, keep, live, is_fresh, sliding_window}

-- the times of a history, each once, the earliest first; the history has its latest time first
abbrev has_time : ℕ → List ℕ → Bool
has_time t [] = false
has_time t (u ∷ us) = u == t || has_time t us

pub distinct : List ℕ → List ℕ
distinct [] = []
distinct (t ∷ log) =
    let earlier = distinct log in if has_time t log then earlier else earlier ++ t ∷ []

-- the times that are less than a window ago
pub within : ℕ → ℕ → List ℕ → List ℕ
within window now [] = []
within window now (t ∷ ts) =
    let rest = within window now ts in if ltb now (t + window) then t ∷ rest else rest

-- The limiter, run on requests at these times with both clocks in step: its decisions, in order. Each
-- run of the script draws the same number.
unfoldable pub decisions : ℕ → ℕ → ℕ → Bucket → List ℕ → List Bool
decisions window limit draw b [] = []
decisions window limit draw b (t ∷ ts) =
    let (reply, b') = sliding_window window limit t t draw b in
    reply.allowed ∷ decisions window limit draw b' ts

-- The specification: a request passes if there are fewer than `limit` milliseconds in the window
-- before it at which a request has passed.
abbrev pub passes : ℕ → ℕ → List ℕ → ℕ → Bool
passes window limit log t = ltb (length (within window t (distinct log))) limit

pub log_decisions : ℕ → ℕ → List ℕ → List ℕ → List Bool
log_decisions window limit log [] = []
log_decisions window limit log (t ∷ ts) =
    passes window limit log t
    ∷ log_decisions window limit (if passes window limit log t then t ∷ log else log) ts

-- The clock does not go back.
abbrev pub IsRising : ℕ → List ℕ → Type 0
IsRising t [] = Unit
IsRising t (u ∷ us) = (t ≤ u) × IsRising u us

-- the members that the script makes of times
marked : ℕ → List ℕ → List Member
marked draw [] = []
marked draw (t ∷ ts) = (t, draw) ∷ marked draw ts

-- The bucket and the log of passed requests agree on what is fresh, now and later.
record Agrees (window t : ℕ) (log : List Member) (b : Bucket) : Type 0 where
  same :
      (later : ℕ)
      → t ≤ later
      → keep (is_fresh window later) (live b later) ≡ keep (is_fresh window later) log
  past : All (λ m. m.0 ≤ t) log

module _ (window limit draw t : ℕ) (log : List Member) (b : Bucket) (now : ℕ) where
  abbrev kept : List Member
  kept = keep (is_fresh window now) (live b now)

abbrev pub unused : Bucket
unused = record { members = []; expires_at = none }
