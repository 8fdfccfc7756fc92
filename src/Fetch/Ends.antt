-- ===== src/Fetch/Ends.antt =====
-- `fetchSafe` of src/shared/net/http.ts comes to an end, whatever the network answers.
use emcp.Prelude.{
  ℕ, zero, suc, ◌+◌, ◌≤◌, ◌<◌, ◌≡◌, refl, Option, none, some, List, [], ◌∷◌, arith, ltb, not,
  if_cases,
}
use emcp.Fetch.{
  Url, Net, Contact, Outcome, FetchSafeOptions, Tried, got, failed, is_redirect, is_http,
}
use emcp.Fetch.Loop.{
  ask, Run, behind, follow, begin_at, redirect, after_reply, hop_turn, redirect_loop, fetch_safe,
}

module _ (net : Net) (options : FetchSafeOptions) where
  abbrev HasEnded : Run net → Type 0
  HasEnded run = (o : Outcome × List Contact) × (run ≡ some o)

  behind-HasEnded :
      (contacts : List Contact) (run : Run net) → HasEnded run → HasEnded (behind net contacts run)
  behind-HasEnded contacts none (o, e) = ground (arith, e)
  behind-HasEnded contacts (some o) h = (_, refl)

  module _ (redirects : ℕ) (url : Url) (again : Url → Run net)
      (ends : redirects < options.max_redirects → (next : Url) → HasEnded (again next)) where
    follow-HasEnded :
        redirects < options.max_redirects → (o : Option Url) → HasEnded (follow net again o)
    follow-HasEnded below none = (_, refl)
    follow-HasEnded below (some next) = ends below next

    redirect-HasEnded :
        (location : Option (List ℕ)) → HasEnded (redirect net options redirects url again location)
    unfolding redirect
    redirect-HasEnded none = (_, refl)
    redirect-HasEnded (some []) = (_, refl)
    redirect-HasEnded (some (c ∷ location)) =
        if_cases HasEnded (ltb options.max_redirects (suc redirects)) (λ _. (_, refl))
          (λ within.
            follow-HasEnded (ground (arith, within)) (net.parse_relative (c ∷ location) url))

    after_reply-HasEnded : (t : Tried) → HasEnded (after_reply net options redirects url again t)
    unfolding after_reply
    after_reply-HasEnded (failed f) = (_, refl)
    after_reply-HasEnded (got r) =
        if_cases HasEnded (is_redirect r.status) (λ _. redirect-HasEnded r.location)
          (λ _. (_, refl))

    hop_turn-HasEnded : HasEnded (hop_turn net options redirects url again)
    unfolding hop_turn
    hop_turn-HasEnded =
        if_cases HasEnded (net.is_aborted redirects) (λ _. (_, refl))
          (λ _.
            if_cases HasEnded (not (is_http url)) (λ _. (_, refl))
              (λ _.
                behind-HasEnded _ _ (after_reply-HasEnded (ask net options.mode redirects url).0)))

  redirect_loop-HasEnded :
      (fuel redirects : ℕ) (url : Url)
      → redirects ≤ options.max_redirects
      → options.max_redirects < redirects + fuel
      → HasEnded (redirect_loop net options fuel redirects url)
  unfolding redirect_loop
  redirect_loop-HasEnded zero redirects url h enough = ground (arith, h, enough)
  redirect_loop-HasEnded (suc fuel) redirects url h enough =
      hop_turn-HasEnded redirects url _
        (λ below next. redirect_loop-HasEnded fuel (suc redirects) next (omega arith) (omega arith))

  begin_at-HasEnded :
      (fuel : ℕ) (o : Option Url)
      → options.max_redirects < fuel
      → HasEnded (begin_at net options fuel o)
  begin_at-HasEnded fuel none enough = (_, refl)
  begin_at-HasEnded fuel (some url) enough =
      redirect_loop-HasEnded fuel 0 url (omega arith) (omega arith)

  -- With one turn more than the redirects that are allowed, `fetchSafe` ends, whatever the network does.
  pub fetch_safe_ends :
      (fuel : ℕ) (text : List ℕ)
      → options.max_redirects < fuel
      → (o : Outcome × List Contact) × (fetch_safe net options fuel text ≡ some o)
  unfolding fetch_safe
  fetch_safe_ends fuel text enough = begin_at-HasEnded fuel (net.parse_url text) enough
