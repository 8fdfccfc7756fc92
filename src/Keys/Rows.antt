-- ===== src/Keys/Rows.antt =====
-- How the statements of src/db/repos/api-keys.ts act on the first row that a search finds.
use mathlib.Core.Option
use emcp.Prelude.{◌≡◌, refl, Bool, true, none, some, List, [], ◌∷◌, ◌++◌, arith, if◌then◌else◌}
use emcp.Keys.{ApiKeyRecord, first, update}

-- the row as an UPDATE leaves it
abbrev pub changed :
    (ApiKeyRecord → Bool) → (ApiKeyRecord → ApiKeyRecord) → ApiKeyRecord → ApiKeyRecord
changed q f r = if q r then f r else r

-- An update that keeps what is searched for changes the found row in its place.
pub first-update :
    (p q : ApiKeyRecord → Bool) (f : ApiKeyRecord → ApiKeyRecord)
    → ((r : ApiKeyRecord) → p (f r) ≡ p r)
    → (rs : List ApiKeyRecord) → first p (update q f rs) ≡ Option.map (changed q f) (first p rs)
unfolding first update
first-update p q f keep [] = refl
first-update p q f keep (r ∷ rs) = ground (arith, keep r, first-update p q f keep rs)

pub first-append_none :
    (p : ApiKeyRecord → Bool) (rs : List ApiKeyRecord) (r : ApiKeyRecord)
    → first p rs ≡ none
    → first p (rs ++ r ∷ []) ≡ (if p r then some r else none)
unfolding first
first-append_none p [] r h = refl
first-append_none p (s ∷ rs) r h = ground (arith, first-append_none p rs r)

pub first-append_some :
    (p : ApiKeyRecord → Bool) (rs : List ApiKeyRecord) (r s : ApiKeyRecord)
    → first p rs ≡ some s
    → first p (rs ++ r ∷ []) ≡ some s
unfolding first
first-append_some p [] r s h = cc
first-append_some p (q ∷ rs) r s h = ground (arith, first-append_some p rs r s)

-- The row that a search finds passes its test.
pub first-test :
    (p : ApiKeyRecord → Bool) (rs : List ApiKeyRecord) (r : ApiKeyRecord)
    → first p rs ≡ some r
    → p r ≡ true
unfolding first
first-test p [] r h = cc
first-test p (s ∷ rs) r h = ground (arith, first-test p rs r)
