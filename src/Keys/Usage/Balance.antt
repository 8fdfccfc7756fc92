-- ===== src/Keys/Usage/Balance.antt =====
-- The counters of a key against the usage of its tools, over `recordUsage` of
-- src/db/repos/api-keys.ts.
use emcp.Prelude.{
  ℕ, ◌+◌, String, ◌≡◌, refl, inl, inr, Bool, false, ◌&&◌, ◌||◌, none, some, List, [], ◌∷◌, arith,
  if◌then◌else◌, str_eq, eq_iff, Bool-cases, Option-cases,
}
use emcp.Keys.{ApiKeyRecord, ToolUsage, RecordUsageInput}
use emcp.Keys.Usage.{counted_key, counted_tool, upsert, new_usage}

-- The four quantities that both tables count.
pub data Column : Type 0 where
  calls received sent computed : Column

abbrev pub of_key : Column → ApiKeyRecord → ℕ
of_key calls r = r.request_count
of_key received r = r.bytes_in
of_key sent r = r.bytes_out
of_key computed r = r.total_compute_ms

abbrev pub of_tool : Column → ToolUsage → ℕ
of_tool calls u = u.invocation_count
of_tool received u = u.bytes_in
of_tool sent u = u.bytes_out
of_tool computed u = u.total_compute_ms

abbrev pub added : Column → RecordUsageInput → ℕ
added calls input = 1
added received input = input.bytes_in
added sent input = input.bytes_out
added computed input = input.compute_ms

-- the sum of a column over the tools of one key
pub total : Column → String → List ToolUsage → ℕ
total c k [] = 0
total c k (u ∷ us) = (if str_eq u.key_id k then of_tool c u else 0) + total c k us

-- whether a key has used any tool
unfoldable pub uses : String → List ToolUsage → Bool
uses k [] = false
uses k (u ∷ us) = str_eq u.key_id k || uses k us

counted_tool-column :
    (c : Column) (input : RecordUsageInput) (now : ℕ) (u u' : ToolUsage)
    → counted_tool input now u ≡ some u'
    → (of_tool c u' ≡ of_tool c u + added c input) × (u'.key_id ≡ u.key_id)
unfolding counted_tool
counted_tool-column calls input now u u' h = ground arith
counted_tool-column received input now u u' h = ground arith
counted_tool-column sent input now u u' h = ground arith
counted_tool-column computed input now u u' h = ground arith

pub counted_key-column :
    (c : Column) (input : RecordUsageInput) (now : ℕ) (r r' : ApiKeyRecord)
    → counted_key input now r ≡ some r'
    → (of_key c r' ≡ of_key c r + added c input) × (r'.id ≡ r.id)
unfolding counted_key
counted_key-column calls input now r r' h = ground arith
counted_key-column received input now r r' h = ground arith
counted_key-column sent input now r r' h = ground arith
counted_key-column computed input now r r' h = ground arith

new-column :
    (c : Column) (input : RecordUsageInput) (tool : String) (now : ℕ)
    → of_tool c (new_usage input tool now) ≡ added c input
new-column calls input tool now = refl
new-column received input tool now = refl
new-column sent input tool now = refl
new-column computed input tool now = refl

-- what one request adds to the sum of a key
abbrev pub share : Column → RecordUsageInput → String → ℕ
share c input k = if str_eq input.key_id k then added c input else 0

pub upsert-total :
    (c : Column) (referenced : Bool) (input : RecordUsageInput) (tool : String) (now : ℕ)
    (k : String) (us us' : List ToolUsage)
    → upsert referenced input tool now us ≡ some us'
    → total c k us' ≡ total c k us + share c input k
unfolding upsert total
upsert-total c referenced input tool now k [] us' h = ground (arith, new-column c input tool now)
upsert-total c referenced input tool now k (u ∷ us) us' h =
    elim (Bool-cases (str_eq u.key_id input.key_id && str_eq u.tool_name tool)) [
      | inl here ↦ elim (Option-cases (counted_tool input now u)) [
        | inl e ↦ ground arith
        | inr (u', e) ↦
            ground (arith, counted_tool-column c input now u u' e, eq_iff u.key_id input.key_id)
      ]
      | inr there ↦ elim (Option-cases (upsert referenced input tool now us)) [
        | inl e ↦ ground arith
        | inr (us'', e) ↦ ground (arith, upsert-total c referenced input tool now k us us'' e)
      ]
    ]

-- With no key to refer to and no usage of it yet, the foreign key refuses.
pub upsert-refused :
    (input : RecordUsageInput) (tool : String) (now : ℕ) (us : List ToolUsage)
    → uses input.key_id us ≡ false
    → upsert false input tool now us ≡ none
unfolding upsert uses
upsert-refused input tool now [] h = refl
upsert-refused input tool now (u ∷ us) h = ground (arith, upsert-refused input tool now us)

pub upsert-uses :
    (referenced : Bool) (input : RecordUsageInput) (tool : String) (now : ℕ) (k : String)
    (us us' : List ToolUsage)
    → upsert referenced input tool now us ≡ some us'
    → uses k us' ≡ (str_eq input.key_id k || uses k us)
unfolding upsert uses
upsert-uses referenced input tool now k [] us' h = ground arith
upsert-uses referenced input tool now k (u ∷ us) us' h =
    elim (Bool-cases (str_eq u.key_id input.key_id && str_eq u.tool_name tool)) [
      | inl here ↦ elim (Option-cases (counted_tool input now u)) [
        | inl e ↦ ground arith
        | inr (u', e) ↦
            ground (arith, counted_tool-column calls input now u u' e, eq_iff u.key_id input.key_id)
      ]
      | inr there ↦ elim (Option-cases (upsert referenced input tool now us)) [
        | inl e ↦ ground arith
        | inr (us'', e) ↦ ground (arith, upsert-uses referenced input tool now k us us'' e)
      ]
    ]

-- A key that has used no tool has nothing to sum.
pub total_unused :
    (c : Column) (k : String) (us : List ToolUsage) → uses k us ≡ false → total c k us ≡ 0
unfolding uses total
total_unused c k [] h = refl
total_unused c k (u ∷ us) h = ground (arith, total_unused c k us)
