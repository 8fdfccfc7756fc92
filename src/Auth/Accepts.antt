-- ===== src/Auth/Accepts.antt =====
-- When `authenticate` of src/core/auth.ts accepts, and what it changes.
use emcp.Prelude.{
  codes, strip_prefix, all, ℕ, ◌≤◌, ◌≡◌, refl, ap, ◌∙◌, ◌⊎◌, inl, inr, ◌↔◌, String, Bool, true,
  false, ◌&&◌, ◌||◌, Option, none, some, List, [], ◌∷◌, ◌++◌, arith, length, All, ==_iff,
  Bool-cases, Option-cases,
}
use emcp.Keys.{ApiKeyRecord, active, find_by_hash}
use emcp.Auth.{
  is_base64url, body_chars, matches_key_body, AuthenticatedKey, ok, World, Env, neg_cache_key,
  cached, key_of, admit, judge, look_up, is_empty, check_token, authenticate,
}

pub strip_prefix-append : (p s : List ℕ) → strip_prefix p (p ++ s) ≡ some s
unfolding strip_prefix
strip_prefix-append [] s = refl
strip_prefix-append (c ∷ p) s = ground (arith, ==_iff c c, strip_prefix-append p s)

strip_prefix-some : (p s t : List ℕ) → strip_prefix p s ≡ some t → s ≡ p ++ t
unfolding strip_prefix
strip_prefix-some [] s t h = ground arith
strip_prefix-some (c ∷ p) [] t h = cc
strip_prefix-some (c ∷ p) (d ∷ s) t h = ground (arith, ==_iff c d, strip_prefix-some p s t)

-- A letter, a digit, `_` or `-`.
abbrev pub IsBase64url : ℕ → Type 0
IsBase64url c =
    ((b'A' ≤ c) × (c ≤ b'Z'))
    ⊎ (((b'a' ≤ c) × (c ≤ b'z')) ⊎ (((b'0' ≤ c) × (c ≤ b'9')) ⊎ ((c ≡ b'_') ⊎ (c ≡ b'-'))))

is_base64url_iff : (c : ℕ) → (is_base64url c ≡ true) ↔ IsBase64url c
unfolding is_base64url
is_base64url_iff c = ground arith

all_iff : (s : List ℕ) → (all is_base64url s ≡ true) ↔ All IsBase64url s
all_iff [] = (λ _. tt, λ _. refl)
all_iff (c ∷ s) = ground (arith, is_base64url_iff c, all_iff s)

-- A well-formed key: `mcp_live_` or `mcp_test_`, and 43 characters of base64url.
pub record IsKey (token : List ℕ) : Type 0 where
  pub body : List ℕ
  pub split : (token ≡ codes "mcp_live_" ++ body) ⊎ (token ≡ codes "mcp_test_" ++ body)
  pub long : length body ≡ 43
  pub chars : All IsBase64url body

body_chars_iff : (s : List ℕ) → (body_chars (some s) ≡ true) ↔ ((length s ≡ 43) × All IsBase64url s)
body_chars_iff s = ground (arith, all_iff s)

body_of :
    (o : Option (List ℕ))
    → body_chars o ≡ true
    → (s : List ℕ) × (o ≡ some s) × (length s ≡ 43) × All IsBase64url s
body_of none h = cc
body_of (some s) h = let (long, chars) = (body_chars_iff s).0 h in (s, refl, long, chars)

matches_key_body-IsKey : (token : List ℕ) → matches_key_body token ≡ true → IsKey token
unfolding matches_key_body
matches_key_body-IsKey token h =
    elim (Bool-cases (body_chars (strip_prefix (codes "mcp_live_") token))) [
      | inl live ↦
          let (s, e, long, chars) = body_of _ live in
          record {
            body = s;
            split = inl (strip_prefix-some _ token s e);
            long = long;
            chars = chars;
          }
      | inr other ↦
          let (s, e, long, chars) =
            body_of (strip_prefix (codes "mcp_test_") token) (ground arith) in
          record {
            body = s;
            split = inr (strip_prefix-some _ token s e);
            long = long;
            chars = chars;
          }
    ]

or_left : (a b : Bool) → a ≡ true → (a || b) ≡ true
or_left a b h = ground arith

or_right : (a b : Bool) → b ≡ true → (a || b) ≡ true
or_right a b h = ground arith

pub IsKey-matches_key_body : (token : List ℕ) → IsKey token → matches_key_body token ≡ true
unfolding matches_key_body
IsKey-matches_key_body token k =
    let fits : body_chars (some k.body) ≡ true = (body_chars_iff k.body).1 (k.long, k.chars) in
    elim k.split [
      | inl e ↦
          ap matches_key_body e
          ∙ or_left _ _ (ap body_chars (strip_prefix-append (codes "mcp_live_") k.body) ∙ fits)
      | inr e ↦
          ap matches_key_body e
          ∙ or_right _ _ (ap body_chars (strip_prefix-append (codes "mcp_test_") k.body) ∙ fits)
    ]

-- What it takes to be let in: a `Bearer ` header with a well-formed key, no cached miss of its hash,
-- and an active row under that hash.
pub record Admits (hash : List ℕ → String) (w : World) (env : Env) (header : Option (List ℕ))
    (key : AuthenticatedKey) : Type 0 where
  pub token : List ℕ
  pub bearer : header ≡ some (codes "Bearer " ++ token)
  pub formed : IsKey token
  pub not_cached :
      (env.wired && env.reads && cached w.cache (neg_cache_key (hash token)) env.now) ≡ false
  pub finds : env.finds ≡ true
  pub row : ApiKeyRecord
  pub found : find_by_hash w.db (hash token) ≡ some row
  pub is_active : row.status ≡ active
  pub given : key ≡ key_of row

module _ (w : World) (env : Env) (key : AuthenticatedKey) where
  admit_ok :
      (r : ApiKeyRecord)
      → (admit w env r r.status).0 ≡ ok key
      → (r.status ≡ active) × (key ≡ key_of r)
  unfolding admit
  admit_ok r h = ground arith

  look_up_ok :
      (hash : String)
      → (look_up w env hash).0 ≡ ok key
      → ((env.wired && env.reads && cached w.cache (neg_cache_key hash) env.now) ≡ false)
        × (env.finds ≡ true)
        × (r : ApiKeyRecord) × (find_by_hash w.db hash ≡ some r)
        × (r.status ≡ active)
        × (key ≡ key_of r)
  unfolding look_up judge
  look_up_ok hash h = elim (Option-cases (find_by_hash w.db hash)) [
    | inl e ↦ absurd (ground arith)
    | inr (r, e) ↦
        let judged : (admit w env r r.status).0 ≡ ok key = ground arith in
        let (live, given) = admit_ok r judged in (ground arith, ground arith, r, e, live, given)
  ]

module _ (hash : List ℕ → String) (w : World) (env : Env) where
  check_token_ok :
      (key : AuthenticatedKey) (o : Option (List ℕ))
      → (check_token hash w env o).0 ≡ ok key
      → (token : List ℕ) × (o ≡ some token)
        × (matches_key_body token ≡ true)
        × ((look_up w env (hash token)).0 ≡ ok key)
  unfolding check_token
  check_token_ok key none h = cc
  check_token_ok key (some token) h = (token, refl, ground arith, ground arith)

  authenticate_sound :
      (header : Option (List ℕ)) (key : AuthenticatedKey)
      → (authenticate hash w env header).0 ≡ ok key
      → Admits hash w env header key
  unfolding authenticate
  authenticate_sound none key h = absurd (cc h)
  authenticate_sound (some header) key h =
      let (token, split, formed, looked) =
        check_token_ok key (strip_prefix (codes "Bearer ") header) h in
      let (not_cached, finds, r, found, live, given) = look_up_ok w env key (hash token) looked in
      record {
        token = token;
        bearer = ap some (strip_prefix-some _ header token split);
        formed = matches_key_body-IsKey token formed;
        not_cached = not_cached;
        finds = finds;
        row = r;
        found = found;
        is_active = live;
        given = given;
      }

  pub not_empty : (token : List ℕ) → matches_key_body token ≡ true → is_empty token ≡ false
  unfolding matches_key_body strip_prefix
  not_empty [] h = absurd (cc h)
  not_empty (c ∷ token) h = refl

  look_up-admits :
      (token : List ℕ) (r : ApiKeyRecord)
      → (env.wired && env.reads && cached w.cache (neg_cache_key (hash token)) env.now) ≡ false
      → env.finds ≡ true
      → find_by_hash w.db (hash token) ≡ some r
      → r.status ≡ active
      → (look_up w env (hash token)).0 ≡ ok (key_of r)
  unfolding look_up judge admit
  look_up-admits token r not_cached finds found live = rw (not_cached, finds, found) (ground arith)

  authenticate_complete :
      (header : Option (List ℕ)) (key : AuthenticatedKey)
      → Admits hash w env header key
      → (authenticate hash w env header).0 ≡ ok key
  unfolding authenticate check_token
  authenticate_complete header key a =
      let m = IsKey-matches_key_body a.token a.formed in
      rw (a.bearer, authenticate, strip_prefix-append, m, not_empty a.token m, a.given)
        (look_up-admits a.token a.row a.not_cached a.finds a.found a.is_active)

  -- `authenticate` lets a key in exactly when the header is `Bearer ` and a well-formed key, no
  -- recent miss of its hash is cached (or the cache cannot be read), the database answers, and the
  -- row of that hash is active; the result is then made from that row.
  pub authenticate-ok_iff :
      (header : Option (List ℕ)) (key : AuthenticatedKey)
      → ((authenticate hash w env header).0 ≡ ok key) ↔ Admits hash w env header key
  authenticate-ok_iff header key = (authenticate_sound header key, authenticate_complete header key)

-- A list of characters that passes the test is in base64url.
pub is_base64url-all : (s : List ℕ) → all is_base64url s ≡ true → All IsBase64url s
is_base64url-all s h = (all_iff s).0 h
