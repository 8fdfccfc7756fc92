-- ===== src/Fetch/Loop.antt =====
-- src/shared/net/http.ts: the pinned fetcher, the routes to the network and the loop of `fetchSafe`.
use emcp.Prelude.{
  ℕ, zero, suc, Bool, true, false, not, ◌||◌, Option, none, some, List, [], ◌∷◌, ◌++◌, ltb, any,
  if◌then◌else◌,
}
use emcp.Address.Private.{is_private_address, assert_public_hostname}
use emcp.Fetch.{
  Contact, ErrorKind, Failure, FetchError, FetchSafeOptions, HttpResponse, Mode, Net, Outcome,
  Reply, Resolution, Tried, Url, aborted, address, bubbles, failed, fails, found, got, injected,
  invalid_location, invalid_url, is_connect_error, is_http, is_redirect, map_fetch_error,
  no_connection, no_location, pinned, proxied, read_capped_body, responds, returns, sent, throws,
  too_many_redirects, transient, unresolved, unsupported_protocol, validation, validation_error,
}

module _ (net : Net) where
  -- what one connection leads to; `later` is the rest of the loop
  unfoldable pub after_connect :
      Url → List ℕ → (FetchError → Reply × List Contact) → Reply → Reply × List Contact
  after_connect url addr later (responds r) = (responds r, address url addr ∷ [])
  after_connect url addr later (fails e) =
      let (reply, contacts) = later e in
      if is_connect_error e
      then (reply, address url addr ∷ contacts)
      else (fails e, address url addr ∷ [])

  -- the loop over the records, from a place on
  unfoldable pub try_from : ℕ → ℕ → Url → List (List ℕ) → FetchError → Reply × List Contact
  try_from hop place url [] last_err = (fails last_err, [])
  try_from hop place url (addr ∷ records) last_err =
      after_connect url addr (try_from hop (suc place) url records) (net.connect hop place url addr)

  -- the records of a name, all of them public or none is asked
  unfoldable pub pin : ℕ → Url → List (List ℕ) → Reply × List Contact
  pin hop url [] = (fails validation_error, [])
  pin hop url (addr ∷ records) =
      if any is_private_address (addr ∷ records)
      then (fails validation_error, [])
      else try_from hop 0 url (addr ∷ records) no_connection

  unfoldable pub pin_resolved : ℕ → Url → Resolution → Reply × List Contact
  pin_resolved hop url (unresolved e) = (fails e, [])
  pin_resolved hop url (found records) = pin hop url records

  unfoldable pub pinned_fetch : ℕ → Url → Reply × List Contact
  pinned_fetch hop url = pin_resolved hop url (net.resolve hop url.hostname)

  -- the guard on the addresses of the target's name: none where it passes
  unfoldable pub guard : Resolution → Option FetchError
  guard (unresolved e) = some e
  guard (found records) = if assert_public_hostname records then none else some validation_error

  abbrev pub is_validation : ErrorKind → Bool
  is_validation validation = true
  is_validation _ = false

  abbrev pub is_transient : ErrorKind → Bool
  is_transient transient = true
  is_transient _ = false

  -- the `catch` of each route
  unfoldable pub caught : Mode → FetchError → Failure
  caught injected e = map_fetch_error e
  caught proxied e =
      if is_validation e.kind || is_transient e.kind then bubbles e else map_fetch_error e
  caught pinned e = if is_validation e.kind then bubbles e else map_fetch_error e

  abbrev pub tried : Mode → Reply → Tried
  tried mode (responds r) = got r
  tried mode (fails e) = failed (caught mode e)

  unfoldable pub guarded : Mode → ℕ → Url → Option FetchError → Tried × List Contact
  guarded mode hop url (some e) = (failed (bubbles e), [])
  guarded mode hop url none = (tried mode (net.send hop url), sent url ∷ [])

  unfoldable pub ask : Mode → ℕ → Url → Tried × List Contact
  ask pinned hop url =
      let (reply, contacts) = pinned_fetch hop url in (tried pinned reply, contacts)
  ask mode hop url = guarded mode hop url (guard (net.resolve hop url.hostname))

  abbrev pub finished : Url → HttpResponse → (List ℕ × Bool) × Option FetchError → Outcome
  finished url r (read, some e) = throws (bubbles e)
  finished url r ((buffer, truncated), none) = returns (record {
    final_url = url.href;
    status = r.status;
    content_type = r.content_type;
    body = buffer;
    wire_truncated = truncated;
  })

  -- the outcome, if the loop has ended, and whom it asked
  abbrev pub Run : Type 0
  Run = Option (Outcome × List Contact)

  abbrev pub behind : List Contact → Run → Run
  behind contacts none = none
  behind contacts (some (outcome, later)) = some (outcome, contacts ++ later)

  abbrev pub follow : (Url → Run) → Option Url → Run
  follow again none = some (throws invalid_location, [])
  follow again (some next) = again next

  -- the branch of a redirect; `again` goes on with the next URL
  unfoldable pub redirect : FetchSafeOptions → ℕ → Url → (Url → Run) → Option (List ℕ) → Run
  redirect options redirects url again none = some (throws no_location, [])
  redirect options redirects url again (some []) = some (throws no_location, [])
  redirect options redirects url again (some (c ∷ location)) =
      if ltb options.max_redirects (suc redirects)
      then some (throws too_many_redirects, [])
      else follow again (net.parse_relative (c ∷ location) url)

  unfoldable pub after_reply : FetchSafeOptions → ℕ → Url → (Url → Run) → Tried → Run
  after_reply options redirects url again (failed f) = some (throws f, [])
  after_reply options redirects url again (got r) =
      if is_redirect r.status
      then redirect options redirects url again r.location
      else some (finished url r (read_capped_body r.body options.max_bytes), [])

  -- one turn of the loop
  unfoldable pub hop_turn : FetchSafeOptions → ℕ → Url → (Url → Run) → Run
  hop_turn options redirects url again =
      if net.is_aborted redirects
      then some (throws aborted, [])
      else if not (is_http url)
      then some (throws unsupported_protocol, [])
      else (let (reply, contacts) = ask options.mode redirects url in
          behind contacts (after_reply options redirects url again reply))

  -- the loop, for so many turns
  unfoldable pub redirect_loop : FetchSafeOptions → ℕ → ℕ → Url → Run
  redirect_loop options zero redirects url = none
  redirect_loop options (suc fuel) redirects url =
      hop_turn options redirects url (λ next. redirect_loop options fuel (suc redirects) next)

  abbrev pub begin_at : FetchSafeOptions → ℕ → Option Url → Run
  begin_at options fuel none = some (throws invalid_url, [])
  begin_at options fuel (some url) = redirect_loop options fuel 0 url

  unfoldable pub fetch_safe : FetchSafeOptions → ℕ → List ℕ → Run
  fetch_safe options fuel text = begin_at options fuel (net.parse_url text)
