-- ===== src/Server/Ownership.antt =====
-- Whom a session of src/server.ts serves: the holder of the key that made it, and no other.
use emcp.Prelude.{
  ℕ, ◌≡◌, refl, inl, inr, Option, none, some, List, [], ◌∷◌, arith, str_eq, str_eq_refl, eq_iff,
  same_text_refl, Bool-cases,
}
use emcp.Errors.{session_not_found_error}
use emcp.RateLimit.{RateLimitResult}
use emcp.Auth.{AuthenticatedKey}
use emcp.Server.Sessions.{Session, Table, get, set, Sessions, Caps, finish_create}
use emcp.Server.Gate.{Method, write_json_rpc_error}
use emcp.Server.Route.{answers, hands_over, is_delete, to_session, route}
use emcp.Server.Entitled.{IsOwn}

get-set : (table : Table) (id : List ℕ) (s : Session) → get (set table id s) id ≡ some s
unfolding get set
get-set [] id s = ground (arith, same_text_refl id)
get-set ((k, t) ∷ table) id s = ground (arith, get-set table id s)

foreign :
    (ss : Sessions) (method : Method) (id : List ℕ) (key : AuthenticatedKey) (r : RateLimitResult)
    (now : ℕ) (o : Option Session)
    → get ss.table id ≡ o
    → ¬ IsOwn ss id key
    → to_session ss method id key r now o
      ≡ (answers (write_json_rpc_error session_not_found_error (some r)), ss)
unfolding to_session
foreign ss method id key r now none e h = refl
foreign ss method id key r now (some s) e h = elim (Bool-cases (str_eq s.api_key_id key.id)) [
  | inl own ↦ elim (h (s, e, (eq_iff s.api_key_id key.id).0 own)) [ ]
  | inr other ↦ rw other refl
]

-- To the holder of a key, the id of a session of another key and an id that no session has are the
-- same: the same answer, and the table is left as it is.
pub route-foreign :
    (caps : Caps) (ss : Sessions) (method : Method) (id : List ℕ) (key : AuthenticatedKey)
    (r : RateLimitResult) (now : ℕ)
    → ¬ IsOwn ss id key
    → route caps ss method (some id) key r now
      ≡ (answers (write_json_rpc_error session_not_found_error (some r)), ss)
unfolding route
route-foreign caps ss method id key r now h = foreign ss method id key r now _ refl h

-- A session that has been created serves the holder of its key, who is handed to its transport.
pub route-finish_create :
    (caps : Caps) (ss : Sessions) (method : Method) (id : List ℕ) (key : AuthenticatedKey)
    (r : RateLimitResult) (created now : ℕ)
    → (route caps (finish_create ss (some id) key.id created) method (some id) key r now).0
      ≡ hands_over id (is_delete method)
unfolding route to_session finish_create
route-finish_create caps ss method id key r created now =
    let s : Session = record { api_key_id = key.id; last_activity_ms = created } in
    rw (get-set ss.table id s, str_eq_refl key.id) refl
