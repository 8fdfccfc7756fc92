-- ===== src/Server/Sessions/Bounds.antt =====
-- The caps of src/server.ts on sessions under overlapping requests.
use emcp.Prelude.{
  ℕ, suc, ◌+◌, ◌-◌, ◌≤◌, ◌<◌, ◌≡◌, String, Option, none, some, List, [], ◌∷◌, ◌++◌, arith, length,
  length-append, str_eq, eq_iff, if◌then◌else◌,
}
use emcp.Server.Sessions.{
  Session, per_key_count, Sessions, Caps, has_room, touch_session, remove_session, check_caps,
  finish_create,
}
use emcp.Server.Sessions.Table.{length-set, length-touch, per_key_count-set, per_key_count-touch}
use emcp.Server.Sessions.Kept.{
  IsNew, evict_idle_keeps, close_keeps, remove_session-length, remove_session-per_key_count,
}
use emcp.Server.Sessions.Steps.{
  Running, Step, begins, finishes, touches, removes, evicts, closes, Reach, here, next,
}

abbrev pub count : String → List String → ℕ
count key [] = 0
count key (k ∷ ks) = let rest = count key ks in if str_eq k key then suc rest else rest

count-append :
    (key : String) (ks ms : List String) → count key (ks ++ ms) ≡ count key ks + count key ms
count-append key [] ms = omega arith
count-append key (k ∷ ks) ms = ground (arith, count-append key ks ms)

count-length : (key : String) (ks : List String) → count key ks ≤ length ks
count-length key [] = omega arith
count-length key (k ∷ ks) = ground (arith, count-length key ks)

-- room under both caps
caps_leave :
    (caps : Caps) (ss : Sessions) (key : String)
    → check_caps caps ss key ≡ has_room
    → (length ss.table < caps.max_sessions_total)
      × (per_key_count ss.table key < caps.max_sessions_per_key)
unfolding check_caps
caps_leave caps ss key h = ground (arith, h)

-- the sessions and the creations under way, against the bounds
pub record Bounded (caps : Caps) (n : ℕ) (r : Running) : Type 0 where
  pub few : length r.pending ≤ n
  pub total : length r.sessions.table + length r.pending ≤ caps.max_sessions_total + (n - 1)
  pub per_key :
      (key : String)
      → per_key_count r.sessions.table key + count key r.pending
        ≤ caps.max_sessions_per_key + (n - 1)

-- fewer sessions, as many creations
fewer :
    {caps : Caps} {n : ℕ} (r : Running) (ss : Sessions)
    → length ss.table ≤ length r.sessions.table
    → ((key : String) → per_key_count ss.table key ≤ per_key_count r.sessions.table key)
    → Bounded caps n r
    → Bounded caps n (record r { sessions = ss })
fewer r ss less each h = record {
  few = h.few;
  total = ground (arith, less, h.total);
  per_key = λ key. ground (arith, each key, h.per_key key);
}

begins-Bounded :
    {caps : Caps} {n : ℕ} (r : Running) (key : String)
    → check_caps caps r.sessions key ≡ has_room
    → length r.pending < n
    → Bounded caps n r
    → Bounded caps n (record r { pending = key ∷ r.pending })
begins-Bounded r key room few h =
    let (total, own) = caps_leave _ r.sessions key room in
    record {
      few = few;
      total = ground (arith, total, few);
      per_key = λ k. ground (arith, eq_iff key k, own, few, h.per_key k, count-length k r.pending);
    }

-- a creation that is done is in the table, or nowhere
finishes-Bounded :
    {caps : Caps} {n : ℕ} (ss : Sessions) (before after : List String) (key : String)
    (id : Option (List ℕ)) (now : ℕ)
    → IsNew ss id
    → Bounded caps n (record { sessions = ss; pending = before ++ key ∷ after })
    → Bounded caps n (record { sessions = finish_create ss id key now; pending = before ++ after })
unfolding finish_create per_key_count
finishes-Bounded ss before after key none now new h = record {
  few = ground (arith, length-append before after, length-append before (key ∷ after), h.few);
  total = ground (arith, length-append before after, length-append before (key ∷ after), h.total);
  per_key = λ k.
      ground (arith, count-append k before after, count-append k before (key ∷ after), h.per_key k);
}
finishes-Bounded ss before after key (some id) now new h =
    let s : Session = record { api_key_id = key; last_activity_ms = now } in
    record {
      few = ground (arith, length-append before after, length-append before (key ∷ after), h.few);
      total = ground (
        arith,
        length-append before after,
        length-append before (key ∷ after),
        length-set ss.table id s new,
        h.total,
      );
      per_key = λ k. ground (
        arith,
        count-append k before after,
        count-append k before (key ∷ after),
        per_key_count-set k ss.table id s new,
        h.per_key k,
      );
    }

touches-Bounded :
    {caps : Caps} {n : ℕ} (r : Running) (id : List ℕ) (now : ℕ)
    → Bounded caps n r
    → Bounded caps n (record r { sessions = touch_session r.sessions id now })
unfolding touch_session
touches-Bounded r id now h =
    fewer r _ (ground (arith, length-touch r.sessions.table id now))
      (λ key. ground (arith, per_key_count-touch key r.sessions.table id now)) h

removes-Bounded :
    {caps : Caps} {n : ℕ} (pending : List String) (ss : Sessions) (id : List ℕ)
    → Bounded caps n (record { sessions = ss; pending = pending })
    → Bounded caps n (record { sessions = remove_session ss id; pending = pending })
removes-Bounded pending ss id h =
    fewer (record { sessions = ss; pending = pending }) _ (remove_session-length ss id)
      (λ key. remove_session-per_key_count key ss id) h

Step-Bounded :
    {caps : Caps} {n : ℕ} {r t : Running} → Step caps n r t → Bounded caps n r → Bounded caps n t
Step-Bounded (begins r key room few) h = begins-Bounded r key room few h
Step-Bounded (finishes ss before after key id now new) h =
    finishes-Bounded ss before after key id now new h
Step-Bounded (touches r id now) h = touches-Bounded r id now h
Step-Bounded (removes r id) h = removes-Bounded r.pending r.sessions id h
Step-Bounded (evicts r idle_ms now) h =
    evict_idle_keeps (λ ss. Bounded _ _ (record { sessions = ss; pending = r.pending }))
      (removes-Bounded r.pending) idle_ms now r.sessions h
Step-Bounded (closes r) h =
    close_keeps (λ ss. Bounded _ _ (record { sessions = ss; pending = r.pending }))
      (removes-Bounded r.pending) r.sessions h

Reach-Bounded : {caps : Caps} {n : ℕ} {r : Running} → Reach caps n r → Bounded caps n r
unfolding per_key_count
Reach-Bounded here = record { few = omega arith; total = omega arith; per_key = λ key. omega arith }
Reach-Bounded (next r st) = Step-Bounded st (Reach-Bounded r)

-- Where at most `n` creations overlap, the sessions and the creations under way exceed neither cap by
-- more than n - 1, which is 0 for n = 0.
pub Reach-caps :
    (caps : Caps) (n : ℕ) (key : String) {r : Running}
    → Reach caps n r
    → (length r.sessions.table + length r.pending ≤ caps.max_sessions_total + (n - 1))
      × (per_key_count r.sessions.table key + count key r.pending
          ≤ caps.max_sessions_per_key + (n - 1))
Reach-caps caps n key h = let b = Reach-Bounded h in (b.total, b.per_key key)
