-- ===== src/Auth.antt =====
-- src/core/auth.ts and the key format of src/core/auth-hash.ts: authentication by bearer token, with
-- the cache of recent misses in Redis.
-- A header is the list of its UTF-16 code units. The HMAC of node:crypto is the parameter `hash`.
-- What the awaited and the fire-and-forget calls meet is an `Env`: whether Redis is wired, whether
-- its read and write, the database read and the update of `last_used_at` succeed, and the time.
pub mod Accepts
pub mod Misses
mod Tests
use Prim.Native.String
use emcp.Prelude.{
  codes, strip_prefix, all, ℕ, zero, suc, ◌+◌, ◌*◌, String, Bool, true, false, ◌&&◌, ◌||◌, not,
  Option, none, some, List, [], ◌∷◌, ltb, leb, ◌==◌, if◌then◌else◌, length, str_eq,
}
use emcp.Keys.{
  ApiKeyStatus, active, blacklisted, deleted, ApiKeyRecord, Db, CreateApiKeyInput, find_by_hash,
  touch_last_used, create,
}

-- [A-Za-z0-9_-]
unfoldable pub is_base64url : ℕ → Bool
is_base64url c =
    leb b'A' c && leb c b'Z'
    || leb b'a' c && leb c b'z'
    || leb b'0' c && leb c b'9'
    || c == b'_'
    || c == b'-'

abbrev body_chars : Option (List ℕ) → Bool
body_chars none = false
body_chars (some s) = length s == 43 && all is_base64url s

-- KEY_BODY_REGEX, /^mcp_(live|test)_[A-Za-z0-9_-]{43}$/
unfoldable pub matches_key_body : List ℕ → Bool
matches_key_body token =
    body_chars (strip_prefix (codes "mcp_live_") token)
    || body_chars (strip_prefix (codes "mcp_test_") token)

pub record AuthenticatedKey : Type 0 where
  pub id : String
  pub prefix : String
  pub name : String
  pub rate_limit_per_minute : ℕ
  pub allow_no_origin : Bool

pub data AuthError : Type 0 where
  auth_required malformed_token invalid_credentials key_blacklisted key_deleted : AuthError

-- `rejects`: the promise rejects, because the database read does.
pub data AuthResult : Type 0 where
  ok : AuthenticatedKey → AuthResult
  error : AuthError → AuthResult
  rejects : AuthResult

-- The cached misses, each with the time at which Redis drops it.
abbrev pub NegCache : Type 0
NegCache = List (String × ℕ)

pub record World : Type 0 where
  pub db : Db
  pub cache : NegCache

pub record Env : Type 0 where
  pub wired : Bool
  pub reads : Bool
  pub finds : Bool
  pub writes : Bool
  pub touches : Bool
  pub ttl_sec : Option ℕ
  pub now : ℕ

unfoldable pub neg_cache_key : String → String
neg_cache_key hash = String.◌++◌ "auth:miss:" hash

-- GET: whether the entry is there and has not expired
unfoldable pub cached : NegCache → String → ℕ → Bool
cached [] key now = false
cached ((k, expires) ∷ entries) key now =
    if str_eq k key then ltb now expires else cached entries key now

-- DEL
unfoldable pub forget : String → NegCache → NegCache
forget key [] = []
forget key ((k, expires) ∷ entries) =
    let rest = forget key entries in if str_eq k key then rest else (k, expires) ∷ rest

-- SET … EX
unfoldable pub remember : String → ℕ → NegCache → NegCache
unfolding forget
remember key expires entries = (key, expires) ∷ forget key entries

abbrev pub ttl_or_default : Option ℕ → ℕ
ttl_or_default none = 60
ttl_or_default (some ttl) = ttl

abbrev pub key_of : ApiKeyRecord → AuthenticatedKey
key_of r = record {
  id = r.id;
  prefix = r.key_prefix;
  name = r.name;
  rate_limit_per_minute = r.rate_limit_per_minute;
  allow_no_origin = r.allow_no_origin;
}

-- the branches on `record.status`
unfoldable pub admit : World → Env → ApiKeyRecord → ApiKeyStatus → AuthResult × World
admit w env r blacklisted = (error key_blacklisted, w)
admit w env r deleted = (error key_deleted, w)
admit w env r active = (
  ok (key_of r),
  (if env.touches then record w { db = touch_last_used w.db r.id env.now } else w),
)

-- the branches on what `findByHash` returns
unfoldable pub judge : World → Env → String → Option ApiKeyRecord → AuthResult × World
judge w env key none = (
  error invalid_credentials,
  (if env.wired && env.writes
      then record w { cache = remember key (env.now + ttl_or_default env.ttl_sec * 1000) w.cache }
      else w),
)
judge w env key (some r) = admit w env r r.status

unfoldable pub look_up : World → Env → String → AuthResult × World
look_up w env hash =
    if env.wired && env.reads && cached w.cache (neg_cache_key hash) env.now
    then (error invalid_credentials, w)
    else if env.finds
    then judge w env (neg_cache_key hash) (find_by_hash w.db hash)
    else (rejects, w)

abbrev is_empty : List ℕ → Bool
is_empty [] = true
is_empty (c ∷ s) = false

module _ (hash : List ℕ → String) where
  unfoldable pub check_token : World → Env → Option (List ℕ) → AuthResult × World
  check_token w env none = (error malformed_token, w)
  check_token w env (some token) =
      if is_empty token || not (matches_key_body token)
      then (error malformed_token, w)
      else look_up w env (hash token)

  unfoldable pub authenticate : World → Env → Option (List ℕ) → AuthResult × World
  authenticate w env none = (error auth_required, w)
  authenticate w env (some header) = check_token w env (strip_prefix (codes "Bearer ") header)

-- `ApiKeyRepository.create` with a Redis: the new key's cached miss is dropped, if the DEL succeeds
unfoldable pub create_and_forget :
    World → Bool → String → ℕ → ℕ → CreateApiKeyInput → Option (ApiKeyRecord × World)
create_and_forget w deletes id now default_limit input =
    elim (create w.db id now default_limit input) [
      | none ↦ none
      | some (r, db') ↦ some (
        r,
        record {
          db = db';
          cache = if deletes then forget (neg_cache_key input.key_hash) w.cache else w.cache;
        },
      )
    ]
