-- ===== src/Keys/Usage.antt =====
-- `recordUsage` of src/db/repos/api-keys.ts: one transaction that counts a request on its key and on
-- the tool that it called. A statement that fails is `none`; what the connection lets through is a
-- `Connection`. A COMMIT that the server does not confirm counts as rolled back.
pub mod Balance
pub mod Atomic
pub mod Covered
use emcp.Prelude.{
  ◌>>=◌, ℕ, ◌+◌, ◌^◌, String, Bool, true, false, ◌&&◌, not, Option, none, some, List, [], ◌∷◌, ltb,
  if◌then◌else◌, str_eq,
}
use emcp.Keys.{ApiKeyRecord, ToolUsage, Db, RecordUsageInput, has_id, absent, first}

pub record Connection : Type 0 where
  pub connects : Bool
  pub begins : Bool
  pub updates : Bool
  pub upserts : Bool
  pub commits : Bool

abbrev pub bigint_limit : ℕ
bigint_limit = 2 ^ 63

-- a sum for a BIGINT column, which is an error where it does not fit
unfoldable pub bigint_sum : ℕ → ℕ → Option ℕ
bigint_sum a b = let s = a + b in if ltb s bigint_limit then some s else none

unfoldable pub counted_key : RecordUsageInput → ℕ → ApiKeyRecord → Option ApiKeyRecord
unfolding bigint_sum
counted_key input now r = do
  requests ← bigint_sum r.request_count 1
  received ← bigint_sum r.bytes_in input.bytes_in
  sent ← bigint_sum r.bytes_out input.bytes_out
  computed ← bigint_sum r.total_compute_ms input.compute_ms
  some (record r {
    request_count = requests;
    bytes_in = received;
    bytes_out = sent;
    total_compute_ms = computed;
    last_used_at = some now;
  })

-- UPDATE api_keys SET … WHERE id = $1
unfoldable pub count_on_keys : RecordUsageInput → ℕ → List ApiKeyRecord → Option (List ApiKeyRecord)
count_on_keys input now [] = some []
count_on_keys input now (r ∷ rs) = do
  r' ← if has_id input.key_id r then counted_key input now r else some r
  rs' ← count_on_keys input now rs
  some (r' ∷ rs')

abbrev pub new_usage : RecordUsageInput → String → ℕ → ToolUsage
new_usage input tool now = record {
  key_id = input.key_id;
  tool_name = tool;
  invocation_count = 1;
  bytes_in = input.bytes_in;
  bytes_out = input.bytes_out;
  total_compute_ms = input.compute_ms;
  last_used_at = now;
}

unfoldable pub counted_tool : RecordUsageInput → ℕ → ToolUsage → Option ToolUsage
unfolding bigint_sum
counted_tool input now u = do
  invocations ← bigint_sum u.invocation_count 1
  received ← bigint_sum u.bytes_in input.bytes_in
  sent ← bigint_sum u.bytes_out input.bytes_out
  computed ← bigint_sum u.total_compute_ms input.compute_ms
  some (record u {
    invocation_count = invocations;
    bytes_in = received;
    bytes_out = sent;
    total_compute_ms = computed;
    last_used_at = now;
  })

-- INSERT INTO api_key_tool_usage … ON CONFLICT (key_id, tool_name) DO UPDATE, where `referenced`
-- says whether the foreign key finds its key
unfoldable pub upsert :
    Bool → RecordUsageInput → String → ℕ → List ToolUsage → Option (List ToolUsage)
upsert referenced input tool now [] =
    if referenced then some (new_usage input tool now ∷ []) else none
upsert referenced input tool now (u ∷ us) =
    let changed = (do u' ← counted_tool input now u; some (u' ∷ us)) in
    let later = (do us' ← upsert referenced input tool now us; some (u ∷ us')) in
    if str_eq u.key_id input.key_id && str_eq u.tool_name tool then changed else later

unfoldable pub count_on_tool :
    Bool → RecordUsageInput → Option String → ℕ → List ToolUsage → Option (List ToolUsage)
count_on_tool referenced input none now us = some us
count_on_tool referenced input (some tool) now us = upsert referenced input tool now us

abbrev pub when {ℓ} : {A : Type ℓ} → Bool → Option A → Option A
when true m = m
when false m = none

-- what stands between BEGIN and COMMIT; without a tool there is no second statement
unfoldable pub transaction : Db → RecordUsageInput → ℕ → Connection → Option Db
transaction db input now c = do
  keys ← when c.updates (count_on_keys input now db.api_keys)
  usage ←
      (let known = not (absent (first (has_id input.key_id) db.api_keys)) in
        let counted = count_on_tool known input input.tool_name now db.tool_usage in
        elim input.tool_name [ none ↦ counted | some tool ↦ when c.upserts counted ])
  when c.commits (some (record { api_keys = keys; tool_usage = usage }))

unfoldable pub record_usage : Db → RecordUsageInput → ℕ → Connection → Db
record_usage db input now c = elim (when c.connects (when c.begins (transaction db input now c))) [
  | none ↦ db
  | some db' ↦ db'
]
