-- ===== src/Fetch/Guarded.antt =====
-- Whom `fetchSafe` of src/shared/net/http.ts asks: never a private address.
use emcp.Prelude.{
  ℕ, zero, suc, ◌≡◌, refl, Option, none, some, List, [], ◌∷◌, arith, ltb, not, any, if_cases, true,
  false, All, All-append, Every, Every-some,
}
use emcp.Address.Private.{is_private_address, assert_public_hostname}
use emcp.Fetch.{
  Url, Reply, responds, fails, Resolution, found, unresolved, FetchError, Net, Contact, address,
  sent, Outcome, Mode, injected, proxied, pinned, FetchSafeOptions, Tried, got, failed, is_redirect,
  is_http, is_connect_error,
}
use emcp.Fetch.Loop.{
  after_connect, try_from, pin, pin_resolved, pinned_fetch, guard, guarded, ask, Run, behind,
  follow, redirect, after_reply, hop_turn, redirect_loop, begin_at, fetch_safe,
}

abbrev pub IsPublic : List ℕ → Type 0
IsPublic addr = is_private_address addr ≡ false

any-All : (records : List (List ℕ)) → any is_private_address records ≡ false → All IsPublic records
any-All [] h = tt
any-All (addr ∷ records) h = (ground (arith, h), any-All records (ground (arith, h)))

assert_public_hostname-All :
    (records : List (List ℕ)) → assert_public_hostname records ≡ true → All IsPublic records
unfolding assert_public_hostname
assert_public_hostname-All [] h = tt
assert_public_hostname-All (addr ∷ records) h =
    (ground (arith, h), assert_public_hostname-All records (ground (arith, h)))

module _ (net : Net) where
  -- the name of the URL has been resolved, at some hop, to public addresses only
  pub record Resolved (url : Url) : Type 0 where
    pub hop : ℕ
    pub records : List (List ℕ)
    pub found_there : net.resolve hop url.hostname ≡ found records
    pub all_public : All IsPublic records

  -- a contact of each route
  abbrev pub IsSafe : Mode → Contact → Type 0
  IsSafe pinned (address url addr) = (is_http url ≡ true) × IsPublic addr
  IsSafe pinned (sent url) = ⊥
  IsSafe injected (sent url) = (is_http url ≡ true) × Resolved url
  IsSafe injected (address url addr) = ⊥
  IsSafe proxied (sent url) = (is_http url ≡ true) × Resolved url
  IsSafe proxied (address url addr) = ⊥

  module _ (url : Url) (http : is_http url ≡ true) where
    after_connect-All :
        (addr : List ℕ) (later : FetchError → Reply × List Contact) (reply : Reply)
        → IsPublic addr
        → ((e : FetchError) → All (IsSafe pinned) (later e).1)
        → All (IsSafe pinned) (after_connect net url addr later reply).1
    unfolding after_connect
    after_connect-All addr later (responds r) h hs = ((http, h), tt)
    after_connect-All addr later (fails e) h hs =
        if_cases (λ (o : Reply × List Contact). All (IsSafe pinned) o.1) (is_connect_error e)
          (λ _. ((http, h), hs e)) (λ _. ((http, h), tt))

    try_from-All :
        (hop place : ℕ) (records : List (List ℕ)) (e : FetchError)
        → All IsPublic records
        → All (IsSafe pinned) (try_from net hop place url records e).1
    unfolding try_from
    try_from-All hop place [] e hs = tt
    try_from-All hop place (addr ∷ records) e (h, hs) =
        after_connect-All addr _ (net.connect hop place url addr) h
          (λ e'. try_from-All hop (suc place) records e' hs)

    pin-All : (hop : ℕ) (records : List (List ℕ)) → All (IsSafe pinned) (pin net hop url records).1
    unfolding pin
    pin-All hop [] = tt
    pin-All hop (addr ∷ records) =
        if_cases (λ (o : Reply × List Contact). All (IsSafe pinned) o.1)
          (any is_private_address (addr ∷ records)) (λ _. tt)
          (λ public. try_from-All hop 0 (addr ∷ records) _ (any-All (addr ∷ records) public))

    pin_resolved-All :
        (hop : ℕ) (o : Resolution) → All (IsSafe pinned) (pin_resolved net hop url o).1
    unfolding pin_resolved
    pin_resolved-All hop (unresolved e) = tt
    pin_resolved-All hop (found records) = pin-All hop records

    guard-Resolved :
        (hop : ℕ) (o : Resolution)
        → net.resolve hop url.hostname ≡ o
        → guard net o ≡ none
        → Resolved url
    unfolding guard
    guard-Resolved hop (unresolved e) r h = ground (arith, h)
    guard-Resolved hop (found records) r h = record {
      hop = hop;
      records = records;
      found_there = r;
      all_public = assert_public_hostname-All records (ground (arith, h));
    }

    guarded-none :
        (mode : Mode) (hop : ℕ) (o : Option FetchError)
        → (o ≡ none → IsSafe mode (sent url))
        → All (IsSafe mode) (guarded net mode hop url o).1
    unfolding guarded
    guarded-none mode hop (some e) h = tt
    guarded-none mode hop none h = (h refl, tt)

    ask-All : (mode : Mode) (hop : ℕ) → All (IsSafe mode) (ask net mode hop url).1
    unfolding ask pinned_fetch
    ask-All pinned hop = pin_resolved-All hop (net.resolve hop url.hostname)
    ask-All injected hop = guarded-none injected hop _ (λ e. (http, guard-Resolved hop _ refl e))
    ask-All proxied hop = guarded-none proxied hop _ (λ e. (http, guard-Resolved hop _ refl e))

  module _ (options : FetchSafeOptions) where
    abbrev AllSafe : Run net → Type 0
    AllSafe = Every (λ (o : Outcome × List Contact). All (IsSafe options.mode) o.1)

    behind-AllSafe :
        (contacts : List Contact) (run : Run net)
        → All (IsSafe options.mode) contacts
        → AllSafe run
        → AllSafe (behind net contacts run)
    behind-AllSafe contacts none h hs = tt
    behind-AllSafe contacts (some (o, later)) h hs =
        All-append (IsSafe options.mode) contacts later h hs

    module _ (redirects : ℕ) (url : Url) (again : Url → Run net)
        (safe : (next : Url) → AllSafe (again next)) where
      follow-AllSafe : (o : Option Url) → AllSafe (follow net again o)
      follow-AllSafe none = tt
      follow-AllSafe (some next) = safe next

      redirect-AllSafe :
          (location : Option (List ℕ)) → AllSafe (redirect net options redirects url again location)
      unfolding redirect
      redirect-AllSafe none = tt
      redirect-AllSafe (some []) = tt
      redirect-AllSafe (some (c ∷ location)) =
          if_cases AllSafe (ltb options.max_redirects (suc redirects)) (λ _. tt)
            (λ _. follow-AllSafe (net.parse_relative (c ∷ location) url))

      after_reply-AllSafe : (t : Tried) → AllSafe (after_reply net options redirects url again t)
      unfolding after_reply
      after_reply-AllSafe (failed f) = tt
      after_reply-AllSafe (got r) =
          if_cases AllSafe (is_redirect r.status) (λ _. redirect-AllSafe r.location) (λ _. tt)

      hop_turn-AllSafe : AllSafe (hop_turn net options redirects url again)
      unfolding hop_turn
      hop_turn-AllSafe =
          if_cases AllSafe (net.is_aborted redirects) (λ _. tt)
            (λ _.
              if_cases AllSafe (not (is_http url)) (λ _. tt)
                (λ http.
                  behind-AllSafe _ _ (ask-All url (ground (arith, http)) options.mode redirects)
                    (after_reply-AllSafe (ask net options.mode redirects url).0)))

    redirect_loop-AllSafe :
        (fuel redirects : ℕ) (url : Url) → AllSafe (redirect_loop net options fuel redirects url)
    unfolding redirect_loop
    redirect_loop-AllSafe zero redirects url = tt
    redirect_loop-AllSafe (suc fuel) redirects url =
        hop_turn-AllSafe redirects url _ (λ next. redirect_loop-AllSafe fuel (suc redirects) next)

    begin_at-AllSafe : (fuel : ℕ) (o : Option Url) → AllSafe (begin_at net options fuel o)
    begin_at-AllSafe fuel none = tt
    begin_at-AllSafe fuel (some url) = redirect_loop-AllSafe fuel 0 url

    fetch_safe-AllSafe : (fuel : ℕ) (text : List ℕ) → AllSafe (fetch_safe net options fuel text)
    unfolding fetch_safe
    fetch_safe-AllSafe fuel text = begin_at-AllSafe fuel (net.parse_url text)

    -- On every hop of a fetch the URL is http or https, and on the direct route each address that is
    -- connected to is public, however the name resolves from hop to hop; on the other routes the name
    -- of each URL that is sent has been resolved to public addresses only.
    pub fetch_safe_contacts :
        (fuel : ℕ) (text : List ℕ) (outcome : Outcome) (contacts : List Contact)
        → fetch_safe net options fuel text ≡ some (outcome, contacts)
        → All (IsSafe options.mode) contacts
    fetch_safe_contacts fuel text outcome contacts e =
        Every-some (λ (o : Outcome × List Contact). All (IsSafe options.mode) o.1) e
          (fetch_safe-AllSafe fuel text)
