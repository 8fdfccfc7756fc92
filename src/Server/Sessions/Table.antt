-- ===== src/Server/Sessions/Table.antt =====
-- The table of src/server.ts under insertion, removal and the update of a session's time.
use emcp.Prelude.{
  ℕ, suc, ◌≤◌, ◌≡◌, refl, true, false, String, none, some, List, [], ◌∷◌, arith, length, same_text,
  same_text_sound, same_text_refl, if_cases,
}
use emcp.Server.Sessions.{Session, Table, get, set, remove, touch, per_key_count}

-- no id stands twice
abbrev pub Distinct : Table → Type 0
Distinct [] = Unit
Distinct ((k, s) ∷ table) = (get table k ≡ none) × Distinct table

pub length-set :
    (table : Table) (id : List ℕ) (s : Session)
    → get table id ≡ none
    → length (set table id s) ≡ suc (length table)
unfolding get set
length-set [] id s h = refl
length-set ((k, t) ∷ table) id s h = ground (arith, length-set table id s, h)

pub get-set_other :
    (table : Table) (id k : List ℕ) (s : Session)
    → same_text id k ≡ false
    → get table k ≡ none
    → get (set table id s) k ≡ none
unfolding get set
get-set_other [] id k s other h = ground (arith, other)
get-set_other ((i, t) ∷ table) id k s other h =
    ground (arith, get-set_other table id k s other, h, other, same_text_sound i id)

pub Distinct-set :
    (table : Table) (id : List ℕ) (s : Session)
    → get table id ≡ none
    → Distinct table
    → Distinct (set table id s)
unfolding get set
Distinct-set [] id s h d = (refl, tt)
Distinct-set ((k, t) ∷ table) id s h d =
    if_cases Distinct (same_text k id) (λ same. elim (occupied same) [ ])
      (λ other.
        (get-set_other table id k s (apart other) d.0, Distinct-set table id s (later other) d.1))
  where
    occupied : same_text k id ≡ true → ⊥
    occupied same = ground (arith, h, same)

    later : same_text k id ≡ false → get table id ≡ none
    later other = ground (arith, h, other)

    apart : same_text k id ≡ false → same_text id k ≡ false
    apart other = ground (arith, same_text_sound id k, same_text_refl k)

pub length-remove :
    (table : Table) (id : List ℕ) (s : Session)
    → get table id ≡ some s
    → suc (length (remove table id)) ≡ length table
unfolding get remove
length-remove [] id s h = ground (arith, h)
length-remove ((k, t) ∷ table) id s h = ground (arith, length-remove table id s, h)

pub get-remove-none :
    (table : Table) (id k : List ℕ) → get table k ≡ none → get (remove table id) k ≡ none
unfolding get remove
get-remove-none [] id k h = refl
get-remove-none ((i, t) ∷ table) id k h = ground (arith, get-remove-none table id k, h)

pub Distinct-remove : (table : Table) (id : List ℕ) → Distinct table → Distinct (remove table id)
unfolding remove
Distinct-remove [] id d = tt
Distinct-remove ((k, t) ∷ table) id d =
    if_cases Distinct (same_text k id) (λ _. d.1)
      (λ _. (get-remove-none table id k d.0, Distinct-remove table id d.1))

pub get-remove : (table : Table) (id : List ℕ) → Distinct table → get (remove table id) id ≡ none
unfolding get remove
get-remove [] id d = refl
get-remove ((k, t) ∷ table) id d =
    ground (arith, get-remove table id d.1, d.0, same_text_sound k id)

pub length-touch :
    (table : Table) (id : List ℕ) (now : ℕ) → length (touch table id now) ≡ length table
unfolding touch
length-touch [] id now = refl
length-touch ((k, t) ∷ table) id now = ground (arith, length-touch table id now)

get-touch-none :
    (table : Table) (id k : List ℕ) (now : ℕ)
    → get table k ≡ none
    → get (touch table id now) k ≡ none
unfolding get touch
get-touch-none [] id k now h = refl
get-touch-none ((i, t) ∷ table) id k now h = ground (arith, get-touch-none table id k now, h)

pub Distinct-touch :
    (table : Table) (id : List ℕ) (now : ℕ) → Distinct table → Distinct (touch table id now)
unfolding touch
Distinct-touch [] id now d = tt
Distinct-touch ((k, t) ∷ table) id now d =
    if_cases Distinct (same_text k id) (λ _. d)
      (λ _. (get-touch-none table id k now d.0, Distinct-touch table id now d.1))

module _ (key : String) where
  pub per_key_count-set :
      (table : Table) (id : List ℕ) (s : Session)
      → get table id ≡ none
      → per_key_count (set table id s) key ≡ per_key_count ((id, s) ∷ table) key
  unfolding get set per_key_count
  per_key_count-set [] id s h = refl
  per_key_count-set ((k, t) ∷ table) id s h = ground (arith, per_key_count-set table id s, h)

  pub per_key_count-remove :
      (table : Table) (id : List ℕ) → per_key_count (remove table id) key ≤ per_key_count table key
  unfolding remove per_key_count
  per_key_count-remove [] id = omega arith
  per_key_count-remove ((k, t) ∷ table) id = ground (arith, per_key_count-remove table id)

  pub per_key_count-touch :
      (table : Table) (id : List ℕ) (now : ℕ)
      → per_key_count (touch table id now) key ≡ per_key_count table key
  unfolding touch per_key_count
  per_key_count-touch [] id now = refl
  per_key_count-touch ((k, t) ∷ table) id now = ground (arith, per_key_count-touch table id now)
