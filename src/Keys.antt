-- ===== src/Keys.antt =====
-- src/db/repos/api-keys.ts: the repository of API keys, over the tables of migrations/.
-- A table is a list of rows, and each SQL statement of the source is a function of the tables. The
-- rows come back through `mapRow`, which renames the columns, so a row is an `ApiKeyRecord`. Times
-- (`now()`) and generated ids are arguments. A BIGINT column holds less than 2 ^ 63.
pub mod Rows
pub mod Usage
pub mod Operations
pub mod Lifecycle
mod Tests
use emcp.Prelude.{
  ℕ, zero, suc, ◌+◌, ◌^◌, String, Bool, true, false, ◌&&◌, ◌||◌, not, Option, none, some, List, [],
  ◌∷◌, ◌++◌, map, ltb, leb, if◌then◌else◌, length, str_eq, All,
}

pub data ApiKeyStatus : Type 0 where
  active blacklisted deleted : ApiKeyStatus

abbrev pub is_active : ApiKeyStatus → Bool
is_active active = true
is_active _ = false

abbrev pub is_blacklisted : ApiKeyStatus → Bool
is_blacklisted blacklisted = true
is_blacklisted _ = false

abbrev pub is_deleted : ApiKeyStatus → Bool
is_deleted deleted = true
is_deleted _ = false

pub record ApiKeyRecord : Type 0 where
  pub id : String
  pub key_prefix : String
  pub key_hash : String
  pub name : String
  pub status : ApiKeyStatus
  pub rate_limit_per_minute : ℕ
  pub allow_no_origin : Bool
  pub created_at : ℕ
  pub last_used_at : Option ℕ
  pub blacklisted_at : Option ℕ
  pub deleted_at : Option ℕ
  pub request_count : ℕ
  pub bytes_in : ℕ
  pub bytes_out : ℕ
  pub total_compute_ms : ℕ

-- a row of `api_key_tool_usage`
pub record ToolUsage : Type 0 where
  pub key_id : String
  pub tool_name : String
  pub invocation_count : ℕ
  pub bytes_in : ℕ
  pub bytes_out : ℕ
  pub total_compute_ms : ℕ
  pub last_used_at : ℕ

pub record Db : Type 0 where
  pub api_keys : List ApiKeyRecord
  pub tool_usage : List ToolUsage

pub record CreateApiKeyInput : Type 0 where
  pub key_prefix : String
  pub key_hash : String
  pub name : String
  pub rate_limit_per_minute : Option ℕ
  pub allow_no_origin : Option Bool

pub record RecordUsageInput : Type 0 where
  pub key_id : String
  pub tool_name : Option String
  pub bytes_in : ℕ
  pub bytes_out : ℕ
  pub compute_ms : ℕ

-- SELECT … WHERE p LIMIT 1: the first row, where the table has one
unfoldable pub first : (ApiKeyRecord → Bool) → List ApiKeyRecord → Option ApiKeyRecord
first p [] = none
first p (r ∷ rs) = if p r then some r else first p rs

unfoldable pub select : (ApiKeyRecord → Bool) → List ApiKeyRecord → List ApiKeyRecord
select p [] = []
select p (r ∷ rs) = let rest = select p rs in if p r then r ∷ rest else rest

-- UPDATE … SET f WHERE p
unfoldable pub update :
    (ApiKeyRecord → Bool) → (ApiKeyRecord → ApiKeyRecord) → List ApiKeyRecord → List ApiKeyRecord
update p f [] = []
update p f (r ∷ rs) = (if p r then f r else r) ∷ update p f rs

abbrev pub has_id : String → ApiKeyRecord → Bool
has_id id r = str_eq r.id id

abbrev pub has_hash : String → ApiKeyRecord → Bool
has_hash hash r = str_eq r.key_hash hash

abbrev pub has_prefix : String → ApiKeyRecord → Bool
has_prefix prefix r = str_eq r.key_prefix prefix

unfoldable pub find_by_id : Db → String → Option ApiKeyRecord
find_by_id db id = first (has_id id) db.api_keys

unfoldable pub find_by_prefix : Db → String → Option ApiKeyRecord
find_by_prefix db prefix = first (has_prefix prefix) db.api_keys

unfoldable pub find_by_hash : Db → String → Option ApiKeyRecord
find_by_hash db hash = first (has_hash hash) db.api_keys

-- `ambiguous n` is the `ConflictError` over `n` rows.
pub data Unique : Type 0 where
  missing : Unique
  one : ApiKeyRecord → Unique
  ambiguous : ℕ → Unique

abbrev unique_of : List ApiKeyRecord → Unique
unique_of [] = missing
unique_of (r ∷ []) = one r
unique_of rs = ambiguous (length rs)

unfoldable pub find_by_prefix_unique : Db → String → Unique
find_by_prefix_unique db prefix = unique_of (select (has_prefix prefix) db.api_keys)

abbrev or_default {ℓ} : {A : Type ℓ} → Option A → A → A
or_default none d = d
or_default (some a) d = a

abbrev pub new_row : String → ℕ → ℕ → CreateApiKeyInput → ApiKeyRecord
new_row id now default_limit input = record {
  id = id;
  key_prefix = input.key_prefix;
  key_hash = input.key_hash;
  name = input.name;
  status = active;
  rate_limit_per_minute = or_default input.rate_limit_per_minute default_limit;
  allow_no_origin = or_default input.allow_no_origin false;
  created_at = now;
  last_used_at = none;
  blacklisted_at = none;
  deleted_at = none;
  request_count = 0;
  bytes_in = 0;
  bytes_out = 0;
  total_compute_ms = 0;
}

abbrev absent : Option ApiKeyRecord → Bool
absent none = true
absent (some r) = false

-- `none`: the INSERT violates the primary key on `id` or the UNIQUE constraint on `key_hash`, and
-- `create` throws. `default_limit` is `config.rateLimitDefaultPerMinute`.
unfoldable pub create : Db → String → ℕ → ℕ → CreateApiKeyInput → Option (ApiKeyRecord × Db)
unfolding find_by_id find_by_hash
create db id now default_limit input =
    let row = new_row id now default_limit input in
    if absent (find_by_id db id) && absent (find_by_hash db input.key_hash)
    then some (row, record db { api_keys = db.api_keys ++ row ∷ [] })
    else none

unfoldable pub blacklist : Db → String → ℕ → Db
blacklist db id now = record db {
  api_keys =
      update (has_id id) (λ r. record r { status = blacklisted; blacklisted_at = some now })
        db.api_keys;
}

unfoldable pub unblacklist : Db → String → Db
unblacklist db id = record db {
  api_keys =
      update (λ r. has_id id r && is_blacklisted r.status)
        (λ r. record r { status = active; blacklisted_at = none }) db.api_keys;
}

unfoldable pub soft_delete : Db → String → ℕ → Db
soft_delete db id now = record db {
  api_keys =
      update (has_id id) (λ r. record r { status = deleted; deleted_at = some now }) db.api_keys;
}

unfoldable pub set_rate_limit : Db → String → ℕ → Db
set_rate_limit db id per_minute = record db {
  api_keys = update (has_id id) (λ r. record r { rate_limit_per_minute = per_minute }) db.api_keys;
}

unfoldable pub touch_last_used : Db → String → ℕ → Db
touch_last_used db id now = record db {
  api_keys = update (has_id id) (λ r. record r { last_used_at = some now }) db.api_keys;
}
