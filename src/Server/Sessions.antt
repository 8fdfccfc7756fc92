-- ===== src/Server/Sessions.antt =====
-- The session table of src/server.ts: the `Map` in its insertion order, and the gauge of active
-- sessions. Creation is in two parts, since awaited calls stand between the caps and the entry.
-- The gauge goes down only where a session is there, and is a natural number.

pub mod Table
pub mod Kept
pub mod Steps
pub mod Bounds
pub mod Eviction
use emcp.Prelude.{
  ℕ, suc, ◌+◌, ◌-◌, Bool, String, Option, none, some, List, [], ◌∷◌, ltb, leb, if◌then◌else◌,
  length, same_text, str_eq,
}

pub record Session : Type 0 where
  pub api_key_id : String
  pub last_activity_ms : ℕ

abbrev pub Table : Type 0
Table = List (List ℕ × Session)

pub record Sessions : Type 0 where
  pub table : Table
  pub active : ℕ

pub record Caps : Type 0 where
  pub max_sessions_total : ℕ
  pub max_sessions_per_key : ℕ

-- Map.get
unfoldable pub get : Table → List ℕ → Option Session
get [] id = none
get ((k, s) ∷ table) id = let later = get table id in if same_text k id then some s else later

-- Map.set
unfoldable pub set : Table → List ℕ → Session → Table
set [] id session = (id, session) ∷ []
set ((k, s) ∷ table) id session =
    let later = set table id session in
    if same_text k id then (k, session) ∷ table else (k, s) ∷ later

-- Map.delete
unfoldable pub remove : Table → List ℕ → Table
remove [] id = []
remove ((k, s) ∷ table) id =
    let later = remove table id in if same_text k id then table else (k, s) ∷ later

-- `session.lastActivityMs = now` on the shared object
unfoldable pub touch : Table → List ℕ → ℕ → Table
touch [] id now = []
touch ((k, s) ∷ table) id now =
    let later = touch table id now in
    if same_text k id then (k, record s { last_activity_ms = now }) ∷ table else (k, s) ∷ later

unfoldable pub touch_session : Sessions → List ℕ → ℕ → Sessions
touch_session ss id now = record ss { table = touch ss.table id now }

unfoldable pub remove_session : Sessions → List ℕ → Sessions
remove_session ss id = elim (get ss.table id) [
  | none ↦ ss
  | some s ↦ record { table = remove ss.table id; active = ss.active - 1 }
]

abbrev pub is_idle : ℕ → ℕ → Session → Bool
is_idle idle_ms now s = ltb (s.last_activity_ms + idle_ms) now

-- the loop of the clean-up over the entries, which removes as it goes
unfoldable pub evict_over : ℕ → ℕ → Table → Sessions → Sessions
evict_over idle_ms now [] ss = ss
evict_over idle_ms now ((id, s) ∷ entries) ss =
    evict_over idle_ms now entries (if is_idle idle_ms now s then remove_session ss id else ss)

unfoldable pub evict_idle : ℕ → ℕ → Sessions → Sessions
evict_idle idle_ms now ss = evict_over idle_ms now ss.table ss

-- the loop of `close`
unfoldable pub close_over : Table → Sessions → Sessions
close_over [] ss = ss
close_over ((id, s) ∷ entries) ss = close_over entries (remove_session ss id)

unfoldable pub close : Sessions → Sessions
close ss = close_over ss.table ss

unfoldable pub per_key_count : Table → String → ℕ
per_key_count [] key = 0
per_key_count ((id, s) ∷ table) key =
    let rest = per_key_count table key in if str_eq s.api_key_id key then suc rest else rest

pub data Room : Type 0 where
  has_room total_reached per_key_reached : Room

-- the two caps, before the transport of a new session is made
unfoldable pub check_caps : Caps → Sessions → String → Room
check_caps caps ss key =
    if leb caps.max_sessions_total (length ss.table)
    then total_reached
    else if leb caps.max_sessions_per_key (per_key_count ss.table key)
    then per_key_reached
    else has_room

-- what stands behind `transport.handleRequest`; `none` where no session was initialised
unfoldable pub finish_create : Sessions → Option (List ℕ) → String → ℕ → Sessions
finish_create ss none key now = ss
finish_create ss (some id) key now = record {
  table = set ss.table id (record { api_key_id = key; last_activity_ms = now });
  active = ss.active + 1;
}
