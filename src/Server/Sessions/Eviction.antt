-- ===== src/Server/Sessions/Eviction.antt =====
-- Which sessions the clean-up and `close` of src/server.ts remove.
use emcp.Prelude.{
  ℕ, ◌≡◌, refl, ap, subst, length, ◌∙◌, inl, inr, Bool, false, ◌||◌, ◌&&◌, none, some, List, [],
  ◌∷◌, arith, same_text, same_text_sound, same_text_refl, ◌>>=◌, if◌then◌else◌, Bool-cases,
}
use emcp.Server.Sessions.{
  Table, get, remove, Sessions, remove_session, is_idle, evict_over, evict_idle, close_over, close,
}
use emcp.Server.Sessions.Table.{Distinct, get-remove}
use emcp.Server.Sessions.Kept.{
  IsConsistent, close_keeps, remove_session_cases, remove_session-IsConsistent,
}

get-remove_other :
    (table : Table) (id k : List ℕ) → same_text id k ≡ false → get (remove table id) k ≡ get table k
unfolding get remove
get-remove_other [] id k h = refl
get-remove_other ((i, s) ∷ table) id k h =
    ground (arith, get-remove_other table id k h, h, same_text_sound i id)

get-remove_session_other :
    (ss : Sessions) (id k : List ℕ)
    → same_text id k ≡ false
    → get (remove_session ss id).table k ≡ get ss.table k
get-remove_session_other ss id k h =
    remove_session_cases (λ t. get t.table k ≡ get ss.table k) ss id refl
      (λ s e. get-remove_other ss.table id k h)

get-remove_session :
    (ss : Sessions) (id : List ℕ) → Distinct ss.table → get (remove_session ss id).table id ≡ none
unfolding remove_session
get-remove_session ss id d = ground (arith, get-remove ss.table id d)

-- whether an idle entry has this id
abbrev idle_in : ℕ → ℕ → Table → List ℕ → Bool
idle_in idle_ms now [] k = false
idle_in idle_ms now ((id, s) ∷ entries) k =
    same_text id k && is_idle idle_ms now s || idle_in idle_ms now entries k

get-evict_over :
    (idle_ms now : ℕ) (entries : Table) (ss : Sessions) (k : List ℕ)
    → IsConsistent ss
    → get (evict_over idle_ms now entries ss).table k
      ≡ (if idle_in idle_ms now entries k then none else get ss.table k)
unfolding evict_over
get-evict_over idle_ms now [] ss k c = refl
get-evict_over idle_ms now ((id, s) ∷ entries) ss k c = ground (
  arith,
  get-evict_over idle_ms now entries ss k c,
  get-evict_over idle_ms now entries (remove_session ss id) k (remove_session-IsConsistent ss id c),
  get-remove_session_other ss id k,
  get-remove_session ss id c.1,
  same_text_sound id k,
)

idle_in-none :
    (idle_ms now : ℕ) (table : Table) (k : List ℕ)
    → get table k ≡ none
    → idle_in idle_ms now table k ≡ false
unfolding get
idle_in-none idle_ms now [] k h = refl
idle_in-none idle_ms now ((id, s) ∷ table) k h = ground (arith, idle_in-none idle_ms now table k, h)

get-idle_in :
    (idle_ms now : ℕ) (table : Table) (k : List ℕ)
    → Distinct table
    → (if idle_in idle_ms now table k then none else get table k)
      ≡ get table k >>= (λ s. if is_idle idle_ms now s then none else some s)
unfolding get
get-idle_in idle_ms now [] k d = refl
get-idle_in idle_ms now ((id, s) ∷ table) k d = ground (
  arith,
  get-idle_in idle_ms now table k d.1,
  idle_in-none idle_ms now table k,
  d.0,
  same_text_sound id k,
)

-- The clean-up removes exactly the sessions whose last activity is longer ago than the limit.
pub get-evict_idle :
    (idle_ms now : ℕ) (ss : Sessions) (k : List ℕ)
    → IsConsistent ss
    → get (evict_idle idle_ms now ss).table k
      ≡ get ss.table k >>= (λ s. if is_idle idle_ms now s then none else some s)
unfolding evict_idle
get-evict_idle idle_ms now ss k c =
    get-evict_over idle_ms now ss.table ss k c ∙ get-idle_in idle_ms now ss.table k c.1

close_over-get :
    (entries : Table) (ss : Sessions) (k : List ℕ)
    → IsConsistent ss
    → (get entries k ≡ none → get ss.table k ≡ none)
    → get (close_over entries ss).table k ≡ none
unfolding close_over get
close_over-get [] ss k c h = h refl
close_over-get ((id, s) ∷ entries) ss k c h =
    close_over-get entries (remove_session ss id) k (remove_session-IsConsistent ss id c)
      (λ e. left e)
  where
    left : get entries k ≡ none → get (remove_session ss id).table k ≡ none
    left e = elim (Bool-cases (same_text id k)) [
      | inl same ↦
          subst (λ x. get (remove_session ss id).table x ≡ none) (same_text_sound id k same)
            (get-remove_session ss id c.1)
      | inr other ↦ get-remove_session_other ss id k other ∙ h (ground (arith, e, other))
    ]

-- a table that answers no id is empty
get-empty : (table : Table) → ((k : List ℕ) → get table k ≡ none) → table ≡ []
unfolding get
get-empty [] h = refl
get-empty ((id, s) ∷ table) h = ground (arith, h id, same_text_refl id)

-- `close` leaves no session.
pub close-empty :
    (ss : Sessions) → IsConsistent ss → ((close ss).table ≡ []) × ((close ss).active ≡ 0)
unfolding close
close-empty ss c =
    let empty =
      get-empty (close_over ss.table ss).table (λ k. close_over-get ss.table ss k c (λ e. e)) in
    let kept = close_keeps IsConsistent remove_session-IsConsistent ss c in
    (empty, kept.0 ∙ ap length empty)
