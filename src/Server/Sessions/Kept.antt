-- ===== src/Server/Sessions/Kept.antt =====
-- What the operations of src/server.ts on the session table keep: the gauge, and the two counts.
use emcp.Prelude.{
  ℕ, ◌-◌, ◌≤◌, ◌≡◌, inl, inr, String, Option, none, some, List, [], ◌∷◌, arith, length,
  Option-cases, if_cases,
}
use emcp.Server.Sessions.{
  Session, Table, get, remove, per_key_count, Sessions, touch_session, remove_session, is_idle,
  evict_over, evict_idle, close_over, close, finish_create,
}
use emcp.Server.Sessions.Table.{
  Distinct, length-set, Distinct-set, length-remove, Distinct-remove, length-touch, Distinct-touch,
  per_key_count-remove,
}

-- The gauge is the number of sessions, and no id stands twice.
abbrev pub IsConsistent : Sessions → Type 0
IsConsistent ss = (ss.active ≡ length ss.table) × Distinct ss.table

-- the id is a new one, if there is one
abbrev pub IsNew : Sessions → Option (List ℕ) → Type 0
IsNew ss none = Unit
IsNew ss (some id) = get ss.table id ≡ none

-- the two forms of `remove_session`
pub remove_session_cases {ℓ} :
    (P : Sessions → Type ℓ) (ss : Sessions) (id : List ℕ)
    → P ss
    → ((s : Session)
        → get ss.table id ≡ some s
        → P (record { table = remove ss.table id; active = ss.active - 1 }))
    → P (remove_session ss id)
unfolding remove_session
remove_session_cases P ss id absent present = elim (Option-cases (get ss.table id)) [
  | inl e ↦ rw (e, remove_session) absent
  | inr (s, e) ↦ rw (e, remove_session) (present s e)
]

-- what a removal keeps, the clean-up and `close` keep
module _ {ℓ} (P : Sessions → Type ℓ)
    (kept : (ss : Sessions) (id : List ℕ) → P ss → P (remove_session ss id)) where
  evict_over_keeps :
      (idle_ms now : ℕ) (entries : Table) (ss : Sessions)
      → P ss
      → P (evict_over idle_ms now entries ss)
  unfolding evict_over
  evict_over_keeps idle_ms now [] ss h = h
  evict_over_keeps idle_ms now ((id, s) ∷ entries) ss h =
      evict_over_keeps idle_ms now entries _
        (if_cases P (is_idle idle_ms now s) (λ _. kept ss id h) (λ _. h))

  close_over_keeps : (entries : Table) (ss : Sessions) → P ss → P (close_over entries ss)
  unfolding close_over
  close_over_keeps [] ss h = h
  close_over_keeps ((id, s) ∷ entries) ss h = close_over_keeps entries _ (kept ss id h)

  pub evict_idle_keeps : (idle_ms now : ℕ) (ss : Sessions) → P ss → P (evict_idle idle_ms now ss)
  unfolding evict_idle
  evict_idle_keeps idle_ms now ss h = evict_over_keeps idle_ms now ss.table ss h

  pub close_keeps : (ss : Sessions) → P ss → P (close ss)
  unfolding close
  close_keeps ss h = close_over_keeps ss.table ss h

pub remove_session-IsConsistent :
    (ss : Sessions) (id : List ℕ) → IsConsistent ss → IsConsistent (remove_session ss id)
remove_session-IsConsistent ss id h =
    remove_session_cases IsConsistent ss id h
      (λ s e. (ground (arith, length-remove ss.table id s e, h.0), Distinct-remove ss.table id h.1))

pub touch_session-IsConsistent :
    (ss : Sessions) (id : List ℕ) (now : ℕ)
    → IsConsistent ss
    → IsConsistent (touch_session ss id now)
unfolding touch_session
touch_session-IsConsistent ss id now h =
    (ground (arith, length-touch ss.table id now, h.0), Distinct-touch ss.table id now h.1)

pub finish_create-IsConsistent :
    (ss : Sessions) (o : Option (List ℕ)) (key : String) (now : ℕ)
    → IsNew ss o
    → IsConsistent ss
    → IsConsistent (finish_create ss o key now)
unfolding finish_create
finish_create-IsConsistent ss none key now new h = h
finish_create-IsConsistent ss (some id) key now new h =
    let s : Session = record { api_key_id = key; last_activity_ms = now } in
    (ground (arith, length-set ss.table id s new, h.0), Distinct-set ss.table id s new h.1)

-- a removal takes nothing away from a bound
pub remove_session-length :
    (ss : Sessions) (id : List ℕ) → length (remove_session ss id).table ≤ length ss.table
remove_session-length ss id =
    remove_session_cases (λ t. length t.table ≤ length ss.table) ss id (omega arith)
      (λ s e. ground (arith, length-remove ss.table id s e))

pub remove_session-per_key_count :
    (key : String) (ss : Sessions) (id : List ℕ)
    → per_key_count (remove_session ss id).table key ≤ per_key_count ss.table key
remove_session-per_key_count key ss id =
    remove_session_cases (λ t. per_key_count t.table key ≤ per_key_count ss.table key) ss id
      (omega arith) (λ s e. per_key_count-remove key ss.table id)
