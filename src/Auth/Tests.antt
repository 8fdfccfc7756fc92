-- ===== src/Auth/Tests.antt =====
-- Runs of src/core/auth.ts with a hash that reads one character, and instances.
use emcp.Prelude.{
  codes, strip_prefix, ℕ, ◌≡◌, refl, ◌↔◌, inl, true, false, String, Option, none, some, List, [],
  ◌∷◌, ◌++◌, arith,
}
use emcp.Keys.{
  ApiKeyRecord, active, CreateApiKeyInput, first, find_by_id, find_by_hash, create, touch_last_used,
  update,
}
use emcp.Auth.{
  is_base64url, matches_key_body, ok, error, invalid_credentials, malformed_token, World, Env,
  neg_cache_key, cached, forget, remember, key_of, admit, judge, look_up, check_token, authenticate,
  create_and_forget,
}
use emcp.Auth.Accepts.{IsKey, Admits, authenticate-ok_iff, is_base64url-all}
use emcp.Auth.Misses.{WritesLittle, authenticate-WritesLittle, authenticate_miss_hides}

abbrev body : List ℕ
body = codes "AAAAAAAAAAAAAAAAAAAAAAAAAAAAAAAAAAAAAAAAAAA"

abbrev token : List ℕ
token = codes "mcp_live_" ++ body

abbrev header : Option (List ℕ)
header = some (codes "Bearer " ++ token)

abbrev hash : List ℕ → String
hash s = "h1"

abbrev row : ApiKeyRecord
row = record {
  id = "k1";
  key_prefix = "mcp_live_AAAAAAA";
  key_hash = "h1";
  name = "client";
  status = active;
  rate_limit_per_minute = 60;
  allow_no_origin = false;
  created_at = 5;
  last_used_at = none;
  blacklisted_at = none;
  deleted_at = none;
  request_count = 0;
  bytes_in = 0;
  bytes_out = 0;
  total_compute_ms = 0;
}

abbrev world : World
world = record { db = record { api_keys = row ∷ []; tool_usage = [] }; cache = [] }

abbrev bare : World
bare = record { db = record { api_keys = []; tool_usage = [] }; cache = [] }

abbrev env : ℕ → Env
env now = record {
  wired = true;
  reads = true;
  finds = true;
  writes = true;
  touches = true;
  ttl_sec = none;
  now = now;
}

abbrev input : CreateApiKeyInput
input = record {
  key_prefix = "mcp_live_AAAAAAA";
  key_hash = "h1";
  name = "client";
  rate_limit_per_minute = some 60;
  allow_no_origin = none;
}

all_auth : Unit {0}
unfolding strip_prefix is_base64url matches_key_body neg_cache_key cached forget remember admit
    judge look_up check_token authenticate create_and_forget first find_by_id find_by_hash create
    touch_last_used update
all_auth = tt

accepts : (authenticate hash world (env 9) header).0 ≡ ok (key_of row)
unfolding all_auth
accepts = refl

malformed :
    (authenticate hash world (env 9) (some (codes "Bearer mcp_live_"))).0 ≡ error malformed_token
unfolding all_auth
malformed = refl

created : create_and_forget bare true "k1" 5 100 input ≡ some (row, world)
unfolding all_auth
created = refl

token-IsKey : IsKey token
unfolding is_base64url
token-IsKey = record {
  body = body;
  split = inl refl;
  long = refl;
  chars = is_base64url-all body refl;
}

authenticate-ok_iff_example :
    ((authenticate hash world (env 9) header).0 ≡ ok (key_of row))
    ↔ Admits hash world (env 9) header (key_of row)
authenticate-ok_iff_example = authenticate-ok_iff hash world (env 9) header (key_of row)

authenticate-WritesLittle_example :
    WritesLittle world (env 9) (authenticate hash world (env 9) header)
authenticate-WritesLittle_example = authenticate-WritesLittle hash world (env 9) header

authenticate_miss_hides_example :
    (authenticate hash
      (record {
        db = world.db;
        cache = (authenticate hash bare (env 9) (some (codes "Bearer " ++ token))).1.cache;
      })
      (env 60008)
      (some (codes "Bearer " ++ token))).0
    ≡ error invalid_credentials
unfolding find_by_hash first cached
authenticate_miss_hides_example =
    authenticate_miss_hides hash bare world.db token (env 9) (env 60008) token-IsKey refl refl refl
      refl refl refl refl (omega arith)
