-- ===== src/Auth/Misses.antt =====
-- The cache of misses of src/core/auth.ts, against new keys, and what `authenticate` writes.
use emcp.Prelude.{
  codes, ℕ, ◌+◌, ◌*◌, ◌<◌, ◌≡◌, refl, ap, sym, ◌∙◌, ◌⊎◌, inl, inr, String, Bool, true, false, ◌&&◌,
  Option, none, some, List, [], ◌∷◌, ◌++◌, arith, if◌then◌else◌, str_eq_refl, eq_iff, lt→ltb,
  Bool-cases,
}
use emcp.Keys.{
  ApiKeyRecord, ApiKeyStatus, active, blacklisted, deleted, Db, CreateApiKeyInput, has_hash, first,
  find_by_hash, new_row, touch_last_used, create,
}
use emcp.Keys.Rows.{first-append_none}
use emcp.Auth.{
  AuthenticatedKey, AuthResult, ok, error, invalid_credentials, World, Env, NegCache, neg_cache_key,
  cached, forget, remember, ttl_or_default, key_of, admit, judge, look_up, check_token,
  authenticate, create_and_forget,
}
use emcp.Auth.Accepts.{
  IsKey, strip_prefix-append, IsKey-matches_key_body, not_empty, authenticate-ok_iff,
}

-- Only an accepted request writes to the database, and only the time of its last use.
abbrev pub WritesLittle : World → Env → AuthResult × World → Type 0
WritesLittle w env (result, w') =
    (w'.db ≡ w.db)
    ⊎ ((key : AuthenticatedKey) × (result ≡ ok key) × (w'.db ≡ touch_last_used w.db key.id env.now))

admit-WritesLittle :
    (w : World) (env : Env) (r : ApiKeyRecord) (s : ApiKeyStatus)
    → WritesLittle w env (admit w env r s)
unfolding admit
admit-WritesLittle w env r blacklisted = inl refl
admit-WritesLittle w env r deleted = inl refl
admit-WritesLittle w env r active = elim (Bool-cases env.touches) [
  | inl t ↦ inr (key_of r, refl, rw t)
  | inr f ↦ inl (rw f)
]

judge-WritesLittle :
    (w : World) (env : Env) (key : String) (o : Option ApiKeyRecord)
    → WritesLittle w env (judge w env key o)
unfolding judge
judge-WritesLittle w env key none = inl (ground arith)
judge-WritesLittle w env key (some r) = admit-WritesLittle w env r r.status

WritesLittle-if :
    (w : World) (env : Env) (b : Bool) (x y : AuthResult × World)
    → WritesLittle w env x
    → WritesLittle w env y
    → WritesLittle w env (if b then x else y)
WritesLittle-if w env true x y wx wy = wx
WritesLittle-if w env false x y wx wy = wy

look_up-WritesLittle :
    (w : World) (env : Env) (hash : String) → WritesLittle w env (look_up w env hash)
unfolding look_up
look_up-WritesLittle w env hash = WritesLittle-if w env _ _ _ (inl refl) (
    WritesLittle-if w env env.finds _ _
      (judge-WritesLittle w env (neg_cache_key hash) (find_by_hash w.db hash)) (inl refl))

module _ (hash : List ℕ → String) where
  check_token-WritesLittle :
      (w : World) (env : Env) (o : Option (List ℕ)) → WritesLittle w env (check_token hash w env o)
  unfolding check_token
  check_token-WritesLittle w env none = inl refl
  check_token-WritesLittle w env (some token) =
      WritesLittle-if w env _ _ _ (inl refl) (look_up-WritesLittle w env (hash token))

  -- Whatever the header, `authenticate` leaves the database as it is, or it accepts a key and sets
  -- that key's time of last use.
  pub authenticate-WritesLittle :
      (w : World) (env : Env) (header : Option (List ℕ))
      → WritesLittle w env (authenticate hash w env header)
  unfolding authenticate
  authenticate-WritesLittle w env none = inl refl
  authenticate-WritesLittle w env (some header) = check_token-WritesLittle w env _

-- what a `create` that succeeds leaves
create_and_forget-some :
    (w w' : World) (id : String) (now d : ℕ) (input : CreateApiKeyInput) (r : ApiKeyRecord)
    → create_and_forget w true id now d input ≡ some (r, w')
    → (r ≡ new_row id now d input)
      × (w'.db.api_keys ≡ w.db.api_keys ++ new_row id now d input ∷ [])
      × (find_by_hash w.db input.key_hash ≡ none)
      × (w'.cache ≡ forget (neg_cache_key input.key_hash) w.cache)
unfolding create_and_forget create
create_and_forget-some w w' id now d input r h = ground arith

and_false : (a b c : Bool) → c ≡ false → (a && b && c) ≡ false
and_false a b c h = ground arith

cached-forget : (key : String) (c : NegCache) (now : ℕ) → cached (forget key c) key now ≡ false
unfolding cached forget
cached-forget key [] now = refl
cached-forget key ((k, expires) ∷ c) now = ground (arith, cached-forget key c now)

cached-remember :
    (key : String) (expires : ℕ) (c : NegCache) (now : ℕ)
    → now < expires
    → cached (remember key expires c) key now ≡ true
unfolding cached remember
cached-remember key expires c now h = rw (str_eq_refl key, lt→ltb now expires h)

module _ (hash : List ℕ → String) where
  authenticate_formed :
      (w : World) (env : Env) (token : List ℕ)
      → IsKey token
      → authenticate hash w env (some (codes "Bearer " ++ token)) ≡ look_up w env (hash token)
  unfolding authenticate check_token
  authenticate_formed w env token formed =
      let m = IsKey-matches_key_body token formed in
      rw (strip_prefix-append, m, not_empty hash w env token m) refl

  look_up_remembers :
      (w : World) (env : Env) (h : String)
      → env.wired ≡ true
      → env.writes ≡ true
      → env.finds ≡ true
      → (env.reads && cached w.cache (neg_cache_key h) env.now) ≡ false
      → find_by_hash w.db h ≡ none
      → (look_up w env h).1.cache
        ≡ remember (neg_cache_key h) (env.now + ttl_or_default env.ttl_sec * 1000) w.cache
  unfolding look_up judge
  look_up_remembers w env h wired writes finds fresh missing = ground arith

  look_up-cached :
      (w : World) (env : Env) (h : String)
      → env.wired ≡ true
      → env.reads ≡ true
      → cached w.cache (neg_cache_key h) env.now ≡ true
      → (look_up w env h).0 ≡ error invalid_credentials
  unfolding look_up
  look_up-cached w env h wired reads hit = ground arith

  -- A key that was created with a Redis whose DEL succeeds is accepted at once, whatever had been
  -- tried with it before.
  pub authenticate-create :
      (w w' : World) (id : String) (now d : ℕ) (input : CreateApiKeyInput) (r : ApiKeyRecord)
      (token : List ℕ) (env : Env)
      → create_and_forget w true id now d input ≡ some (r, w')
      → IsKey token
      → input.key_hash ≡ hash token
      → env.finds ≡ true
      → (authenticate hash w' env (some (codes "Bearer " ++ token))).0 ≡ ok (key_of r)
  unfolding find_by_hash
  authenticate-create w w' id now d input r token env made formed same finds =
      let (whole, rows, free, forgot) = create_and_forget-some w w' id now d input r made in
      (authenticate-ok_iff hash w' env (some (codes "Bearer " ++ token)) (key_of r)).1 (record {
        token = token;
        bearer = refl;
        formed = formed;
        not_cached = and_false env.wired env.reads _ (
            ap (λ c. cached c (neg_cache_key (hash token)) env.now)
              (forgot ∙ ap (λ h. forget (neg_cache_key h) w.cache) same)
            ∙ cached-forget (neg_cache_key (hash token)) w.cache env.now);
        finds = finds;
        row = r;
        found =
            ap (first (has_hash (hash token))) rows
            ∙ first-append_none (has_hash (hash token)) w.db.api_keys _
                (ap (λ h. first (has_hash h) w.db.api_keys) (sym same) ∙ free)
            ∙ rw ((eq_iff input.key_hash (hash token)).1 same) (ap some (sym whole));
        is_active = ap (λ (o : ApiKeyRecord). o.status) whole;
        given = refl;
      })

  -- A miss that was cached hides the key for the time that the entry lives, also where the key has
  -- been created since without a Redis, as src/cli/keys/create.ts does.
  pub authenticate_miss_hides :
      (w : World) (db' : Db) (token : List ℕ) (env env' : Env)
      → IsKey token
      → env.wired ≡ true
      → env.writes ≡ true
      → env.finds ≡ true
      → (env.reads && cached w.cache (neg_cache_key (hash token)) env.now) ≡ false
      → find_by_hash w.db (hash token) ≡ none
      → env'.wired ≡ true
      → env'.reads ≡ true
      → env'.now < env.now + ttl_or_default env.ttl_sec * 1000
      → (authenticate hash
          (record {
            db = db';
            cache = (authenticate hash w env (some (codes "Bearer " ++ token))).1.cache;
          })
          env'
          (some (codes "Bearer " ++ token))).0
        ≡ error invalid_credentials
  authenticate_miss_hides w db' token env env' formed wired writes finds fresh none_found wired'
        reads' soon =
      let hit = cached-remember (neg_cache_key (hash token)) _ w.cache env'.now soon in
      ap (λ (o : AuthResult × World). o.0) (authenticate_formed _ env' token formed)
      ∙ look_up-cached _ env' (hash token) wired' reads' (
          ap (λ (o : AuthResult × World). cached o.1.cache (neg_cache_key (hash token)) env'.now)
            (authenticate_formed w env token formed)
          ∙ ap (λ c. cached c (neg_cache_key (hash token)) env'.now)
              (look_up_remembers w env (hash token) wired writes finds fresh none_found)
          ∙ hit)
