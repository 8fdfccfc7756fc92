-- ===== src/Keys/Operations.antt =====
-- The calls that change the tables of src/db/repos/api-keys.ts, as data, and a run of them.
use emcp.Prelude.{
  ℕ, String, ◌≡◌, inl, inr, ◌&&◌, Option, none, some, List, [], ◌∷◌, ◌++◌, arith, Bool-cases,
}
use emcp.Keys.{
  ApiKeyRecord, Db, CreateApiKeyInput, RecordUsageInput, create, blacklist, unblacklist,
  soft_delete, set_rate_limit, touch_last_used, new_row, absent, find_by_id, find_by_hash,
}
use emcp.Keys.Usage.{Connection, record_usage}

pub data Op : Type 0 where
  creates : String → ℕ → ℕ → CreateApiKeyInput → Op
  blacklists : String → ℕ → Op
  unblacklists : String → Op
  soft_deletes : String → ℕ → Op
  sets_rate_limit : String → ℕ → Op
  touches : String → ℕ → Op
  records : RecordUsageInput → ℕ → Connection → Op

-- a refused INSERT changes nothing
abbrev pub created_or : Db → Option (ApiKeyRecord × Db) → Db
created_or db none = db
created_or db (some (r, db')) = db'

abbrev pub apply : Db → Op → Db
apply db (creates id now default_limit input) = created_or db (create db id now default_limit input)
apply db (blacklists id now) = blacklist db id now
apply db (unblacklists id) = unblacklist db id
apply db (soft_deletes id now) = soft_delete db id now
apply db (sets_rate_limit id n) = set_rate_limit db id n
apply db (touches id now) = touch_last_used db id now
apply db (records input now c) = record_usage db input now c

unfoldable pub run : Db → List Op → Db
run db [] = db
run db (op ∷ ops) = run (apply db op) ops

abbrev pub empty : Db
empty = record { api_keys = []; tool_usage = [] }

-- What holds at first and is kept by each call holds after any run.
pub run_induction {ℓ} :
    (P : Db → Type ℓ)
    → ((db : Db) (op : Op) → P db → P (apply db op))
    → (db : Db) (ops : List Op) → P db
    → P (run db ops)
unfolding run
run_induction P keep db [] h = h
run_induction P keep db (op ∷ ops) h = run_induction P keep (apply db op) ops (keep db op h)

module _ {ℓ} (P : Db → Type ℓ) (db : Db) (id : String) (now d : ℕ) (input : CreateApiKeyInput) where
  abbrev grown : Db
  grown = record db { api_keys = db.api_keys ++ new_row id now d input ∷ [] }

  -- An INSERT that is refused changes nothing; another appends a row whose id and hash are new.
  pub create_cases :
      P db
      → (find_by_id db id ≡ none → find_by_hash db input.key_hash ≡ none → P grown)
      → P (created_or db (create db id now d input))
  unfolding create
  create_cases refused inserted =
      elim (Bool-cases (absent (find_by_id db id) && absent (find_by_hash db input.key_hash))) [
        | inl fits ↦ rw fits (inserted (ground arith) (ground arith))
        | inr taken ↦ rw taken refused
      ]
