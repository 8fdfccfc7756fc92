-- ===== src/Keys/Usage/Atomic.antt =====
-- `recordUsage` of src/db/repos/api-keys.ts is atomic, and what is counted on a key covers what is
-- counted on its tools.
use emcp.Prelude.{
  ℕ, ◌+◌, String, ◌≡◌, ap, ◌∙◌, ◌⊎◌, inl, inr, Bool, true, false, not, Option, none, some, List, [],
  ◌∷◌, arith, if◌then◌else◌, str_eq, eq_iff, Bool-cases, Option-cases,
}
use emcp.Keys.{ApiKeyRecord, ToolUsage, Db, RecordUsageInput, has_id, absent, first, find_by_id}
use emcp.Keys.Usage.{
  Connection, counted_key, count_on_keys, count_on_tool, when, transaction, record_usage,
}
use emcp.Keys.Usage.Balance.{Column, of_key, share, total, counted_key-column, upsert-total}

-- the row of a key before and after a request is counted
abbrev pub Grown : RecordUsageInput → String → Option ApiKeyRecord → Option ApiKeyRecord → Type 0
Grown input k none none = Unit
Grown input k (some r) (some r') = (c : Column) → of_key c r' ≡ of_key c r + share c input k
Grown input k _ _ = ⊥

-- the UPDATE on one row
abbrev counted_row : RecordUsageInput → ℕ → ApiKeyRecord → Option ApiKeyRecord
counted_row input now r = if has_id input.key_id r then counted_key input now r else some r

counted_row-column :
    (c : Column) (input : RecordUsageInput) (now : ℕ) (r s : ApiKeyRecord)
    → counted_row input now r ≡ some s
    → (of_key c s ≡ of_key c r + share c input r.id) × (s.id ≡ r.id)
counted_row-column c input now r s h = elim (Bool-cases (str_eq r.id input.key_id)) [
  | inl mine ↦ ground (
    arith,
    counted_key-column c input now r s,
    eq_iff r.id input.key_id,
    eq_iff input.key_id r.id,
  )
  | inr other ↦ ground (arith, eq_iff r.id input.key_id, eq_iff input.key_id r.id)
]

Grown-cons :
    (input : RecordUsageInput) (k : String) (r s : ApiKeyRecord) (rs rs' : List ApiKeyRecord)
    → s.id ≡ r.id
    → ((c : Column) → of_key c s ≡ of_key c r + share c input r.id)
    → Grown input k (first (has_id k) rs) (first (has_id k) rs')
    → Grown input k (first (has_id k) (r ∷ rs)) (first (has_id k) (s ∷ rs'))
unfolding first
Grown-cons input k r s rs rs' same grown later = elim (Bool-cases (str_eq r.id k)) [
  | inl found ↦
      let found' : str_eq s.id k ≡ true = ap (λ (i : String). str_eq i k) same ∙ found in
      let e = (eq_iff r.id k).0 found in
      rw (found, found') (λ c. grown c ∙ ap (λ i. of_key c r + share c input i) e)
  | inr other ↦
      let other' : str_eq s.id k ≡ false = ap (λ (i : String). str_eq i k) same ∙ other in
      rw (other, other') later
]

count_on_keys-Grown :
    (input : RecordUsageInput) (now : ℕ) (k : String) (rs rs' : List ApiKeyRecord)
    → count_on_keys input now rs ≡ some rs'
    → Grown input k (first (has_id k) rs) (first (has_id k) rs')
unfolding count_on_keys
count_on_keys-Grown input now k [] rs' h =
    let e : rs' ≡ [] = ground arith in rw e (unfold first in tt)
count_on_keys-Grown input now k (r ∷ rs) rs' h = elim (Option-cases (counted_row input now r)) [
  | inl e ↦ ground arith
  | inr (s, e) ↦ elim (Option-cases (count_on_keys input now rs)) [
    | inl e' ↦ ground arith
    | inr (rs'', e') ↦
        let whole : rs' ≡ s ∷ rs'' = ground arith in
        rw whole (
          Grown-cons input k r s rs rs'' (counted_row-column Column.calls input now r s e).1
            (λ c. (counted_row-column c input now r s e).0)
            (count_on_keys-Grown input now k rs rs'' e'))
  ]
]

-- what one request adds to the tools of a key
abbrev pub tool_share : Column → RecordUsageInput → String → Option String → ℕ
tool_share c input k none = 0
tool_share c input k (some tool) = share c input k

pub count_on_tool-total :
    (c : Column) (known : Bool) (input : RecordUsageInput) (o : Option String) (now : ℕ)
    (k : String) (us us' : List ToolUsage)
    → count_on_tool known input o now us ≡ some us'
    → total c k us' ≡ total c k us + tool_share c input k o
unfolding count_on_tool
count_on_tool-total c known input none now k us us' h =
    let e : us' ≡ us = ground arith in rw e (omega arith)
count_on_tool-total c known input (some tool) now k us us' h =
    upsert-total c known input tool now k us us' h

-- The request is counted in both tables.
pub record Recorded (input : RecordUsageInput) (db db' : Db) : Type 0 where
  pub keys : (k : String) → Grown input k (find_by_id db k) (find_by_id db' k)
  pub tools :
      (c : Column) (k : String)
      → total c k db'.tool_usage ≡ total c k db.tool_usage + tool_share c input k input.tool_name

abbrev pub known : Db → RecordUsageInput → Bool
known db input = not (absent (first (has_id input.key_id) db.api_keys))

pub transaction-some :
    (db db' : Db) (input : RecordUsageInput) (now : ℕ) (c : Connection)
    → transaction db input now c ≡ some db'
    → (count_on_keys input now db.api_keys ≡ some db'.api_keys)
      × (count_on_tool (known db input) input input.tool_name now db.tool_usage
          ≡ some db'.tool_usage)
unfolding transaction
transaction-some db db' input now c h = ground arith

pub transaction-Recorded :
    (db db' : Db) (input : RecordUsageInput) (now : ℕ) (c : Connection)
    → transaction db input now c ≡ some db'
    → Recorded input db db'
unfolding find_by_id
transaction-Recorded db db' input now c h =
    let (on_keys, on_tool) = transaction-some db db' input now c h in
    record {
      keys = λ k. count_on_keys-Grown input now k db.api_keys db'.api_keys on_keys;
      tools = λ col k.
          count_on_tool-total col (known db input) input input.tool_name now k db.tool_usage
            db'.tool_usage on_tool;
    }

-- `recordUsage` counts the request on its key and, if it names a tool, on that tool, or it leaves
-- both tables as they were: whichever statement fails, nothing is counted by half.
pub record_usage-atomic :
    (db : Db) (input : RecordUsageInput) (now : ℕ) (c : Connection)
    → (record_usage db input now c ≡ db) ⊎ Recorded input db (record_usage db input now c)
unfolding record_usage
record_usage-atomic db input now c =
    elim (Option-cases (when c.connects (when c.begins (transaction db input now c)))) [
      | inl e ↦ inl (ground arith)
      | inr (db', e) ↦
          inr (rw (e, record_usage) (transaction-Recorded db db' input now c (ground arith)))
    ]
