-- ===== src/Server/Sessions/Steps.antt =====
-- Overlapping requests to src/server.ts, as steps on the session table and on the creations that have
-- passed the caps and await the transport, by the id of their key. At most `n` of them are under way.
use emcp.Prelude.{ℕ, ◌<◌, ◌≡◌, refl, String, Option, List, [], ◌∷◌, ◌++◌, length}
use emcp.Server.Sessions.{
  Sessions, Caps, has_room, touch_session, remove_session, evict_idle, close, check_caps,
  finish_create,
}
use emcp.Server.Sessions.Kept.{
  IsConsistent, IsNew, evict_idle_keeps, close_keeps, remove_session-IsConsistent,
  touch_session-IsConsistent, finish_create-IsConsistent,
}

pub record Running : Type 0 where
  pub sessions : Sessions
  pub pending : List String

abbrev pub start : Running
start = record { sessions = record { table = []; active = 0 }; pending = [] }

pub data Step (caps : Caps) (n : ℕ) : Running → Running → Type 0 where
  begins :
      (r : Running) (key : String)
      → check_caps caps r.sessions key ≡ has_room
      → length r.pending < n
      → Step caps n r (record r { pending = key ∷ r.pending })
  finishes :
      (ss : Sessions) (before after : List String) (key : String) (id : Option (List ℕ)) (now : ℕ)
      → IsNew ss id
      → Step caps n
          (record { sessions = ss; pending = before ++ key ∷ after })
          (record { sessions = finish_create ss id key now; pending = before ++ after })
  touches :
      (r : Running) (id : List ℕ) (now : ℕ)
      → Step caps n r (record r { sessions = touch_session r.sessions id now })
  removes :
      (r : Running) (id : List ℕ)
      → Step caps n r (record r { sessions = remove_session r.sessions id })
  evicts :
      (r : Running) (idle_ms now : ℕ)
      → Step caps n r (record r { sessions = evict_idle idle_ms now r.sessions })
  closes : (r : Running) → Step caps n r (record r { sessions = close r.sessions })

pub data Reach (caps : Caps) (n : ℕ) : Running → Type 0 where
  here : Reach caps n start
  next : {r t : Running} → Reach caps n r → Step caps n r t → Reach caps n t

Step-IsConsistent :
    {caps : Caps} {n : ℕ} {r t : Running}
    → Step caps n r t
    → IsConsistent r.sessions
    → IsConsistent t.sessions
Step-IsConsistent (begins r key room few) h = h
Step-IsConsistent (finishes ss before after key id now new) h =
    finish_create-IsConsistent ss id key now new h
Step-IsConsistent (touches r id now) h = touch_session-IsConsistent r.sessions id now h
Step-IsConsistent (removes r id) h = remove_session-IsConsistent r.sessions id h
Step-IsConsistent (evicts r idle_ms now) h =
    evict_idle_keeps IsConsistent remove_session-IsConsistent idle_ms now r.sessions h
Step-IsConsistent (closes r) h = close_keeps IsConsistent remove_session-IsConsistent r.sessions h

-- In every state that overlapping requests reach, the gauge of active sessions is the number of
-- sessions, and no session id stands twice in the table.
pub Reach-IsConsistent :
    (caps : Caps) (n : ℕ) {r : Running} → Reach caps n r → IsConsistent r.sessions
Reach-IsConsistent caps n here = (refl, tt)
Reach-IsConsistent caps n (next r st) = Step-IsConsistent st (Reach-IsConsistent caps n r)
