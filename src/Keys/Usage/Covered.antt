-- ===== src/Keys/Usage/Covered.antt =====
-- Over every operation of src/db/repos/api-keys.ts, what is counted on the tools of a key is never
-- more than what is counted on the key.
use mathlib.Core.Option
use emcp.Prelude.{
  ℕ, ◌+◌, ◌≤◌, String, ◌≡◌, refl, ap, ◌∙◌, inl, inr, Bool, true, false, not, Option, none, some,
  List, arith, if◌then◌else◌, str_eq, eq_iff, Bool-cases, Option-cases,
}
use emcp.Keys.{
  ApiKeyRecord, ToolUsage, Db, CreateApiKeyInput, RecordUsageInput, has_id, absent, first,
  find_by_id, blacklist, unblacklist, soft_delete, set_rate_limit, touch_last_used, update, new_row,
}
use emcp.Keys.Rows.{changed, first-update, first-append_none, first-append_some}
use emcp.Keys.Usage.{Connection, count_on_tool, when, transaction, record_usage}
use emcp.Keys.Operations.{
  Op, creates, blacklists, unblacklists, soft_deletes, sets_rate_limit, touches, records, apply,
  run, empty, create_cases, run_induction,
}
use emcp.Keys.Usage.Balance.{
  Column, calls, received, sent, computed, of_key, share, total, uses, upsert-uses, upsert-refused,
  total_unused,
}
use emcp.Keys.Usage.Atomic.{Grown, tool_share, known, transaction-some, transaction-Recorded}

-- a key and its usage: no usage without a key, and no column of the tools above that of the key
abbrev pub Covered : String → List ToolUsage → Option ApiKeyRecord → Type 0
Covered k us none = uses k us ≡ false
Covered k us (some r) = (c : Column) → total c k us ≤ of_key c r

pub record IsCovered (db : Db) : Type 0 where
  pub at_key : (k : String) → Covered k db.tool_usage (find_by_id db k)

tool_share-le :
    (c : Column) (input : RecordUsageInput) (k : String) (o : Option String)
    → tool_share c input k o ≤ share c input k
tool_share-le c input k none = omega arith
tool_share-le c input k (some tool) = omega arith

-- With no key of that name, a counted request leaves that name without usage.
still_unused :
    (b : Bool) (input : RecordUsageInput) (o : Option String) (now : ℕ) (k : String)
    (us us' : List ToolUsage)
    → (str_eq input.key_id k ≡ true → b ≡ false)
    → uses k us ≡ false
    → count_on_tool b input o now us ≡ some us'
    → uses k us' ≡ false
unfolding count_on_tool
still_unused b input none now k us us' unknown h e = let same : us' ≡ us = ground arith in rw same h
still_unused b input (some tool) now k us us' unknown h e =
    elim (Bool-cases (str_eq input.key_id k)) [
      | inl mine ↦
          let id = (eq_iff input.key_id k).0 mine in
          cc (
            upsert-refused input tool now us (ap (λ (i : String). uses i us) id ∙ h),
            e,
            unknown mine,
          )
      | inr other ↦ upsert-uses b input tool now k us us' e ∙ rw (other, h) refl
    ]

unknown_key :
    (db : Db) (input : RecordUsageInput) (k : String)
    → find_by_id db k ≡ none
    → str_eq input.key_id k ≡ true
    → known db input ≡ false
unfolding find_by_id
unknown_key db input k e mine =
    ap (λ i. not (absent (first (has_id i) db.api_keys))) ((eq_iff input.key_id k).0 mine)
    ∙ ap (λ o. not (absent o)) e

Covered-Grown :
    (input : RecordUsageInput) (k : String) (us us' : List ToolUsage) (o o' : Option ApiKeyRecord)
    → Grown input k o o'
    → ((c : Column) → total c k us' ≡ total c k us + tool_share c input k input.tool_name)
    → (o ≡ none → uses k us ≡ false → uses k us' ≡ false)
    → Covered k us o
    → Covered k us' o'
Covered-Grown input k us us' none none g t u cov = u refl cov
Covered-Grown input k us us' (some r) (some r') g t u cov =
    λ c. omega (arith, g c, t c, cov c, tool_share-le c input k input.tool_name)
Covered-Grown input k us us' none (some r') g t u cov = absurd g
Covered-Grown input k us us' (some r) none g t u cov = absurd g

transaction-IsCovered :
    (db db' : Db) (input : RecordUsageInput) (now : ℕ) (c : Connection)
    → transaction db input now c ≡ some db'
    → IsCovered db
    → IsCovered db'
transaction-IsCovered db db' input now c h cov =
    let on_tool = (transaction-some db db' input now c h).1 in
    let counted = transaction-Recorded db db' input now c h in
    record {
      at_key = λ k.
          Covered-Grown input k db.tool_usage db'.tool_usage (find_by_id db k) (find_by_id db' k)
            (counted.keys k) (λ col. counted.tools col k)
            (λ e unused.
              still_unused (known db input) input input.tool_name now k db.tool_usage db'.tool_usage
                (unknown_key db input k e) unused on_tool)
            (cov.at_key k);
    }

-- If no tool of any key is above its key, so it is after `recordUsage`, whatever fails in it.
pub record_usage-IsCovered :
    (db : Db) (input : RecordUsageInput) (now : ℕ) (c : Connection)
    → IsCovered db
    → IsCovered (record_usage db input now c)
unfolding record_usage
record_usage-IsCovered db input now c cov =
    elim (Option-cases (when c.connects (when c.begins (transaction db input now c)))) [
      | inl e ↦ rw (e, record_usage) cov
      | inr (db', e) ↦
          rw (e, record_usage) (transaction-IsCovered db db' input now c (ground arith) cov)
    ]

abbrev SameCounters : ApiKeyRecord → ApiKeyRecord → Type 0
SameCounters a b =
    (a.request_count ≡ b.request_count)
    × (a.bytes_in ≡ b.bytes_in)
    × (a.bytes_out ≡ b.bytes_out)
    × (a.total_compute_ms ≡ b.total_compute_ms)

same_column : (c : Column) (a b : ApiKeyRecord) → SameCounters a b → of_key c a ≡ of_key c b
same_column calls a b h = h.0
same_column received a b h = h.1
same_column sent a b h = h.2
same_column computed a b h = h.3

-- an UPDATE that leaves ids and counters alone
module _ (q : ApiKeyRecord → Bool) (f : ApiKeyRecord → ApiKeyRecord)
    (same_id : (r : ApiKeyRecord) → (f r).id ≡ r.id)
    (same_counters : (r : ApiKeyRecord) → SameCounters (f r) r) where
  Covered-changed :
      (k : String) (us : List ToolUsage) (o : Option ApiKeyRecord)
      → Covered k us o
      → Covered k us (Option.map (changed q f) o)
  Covered-changed k us none cov = cov
  Covered-changed k us (some r) cov = λ c. elim (Bool-cases (q r)) [
    | inl hit ↦ rw (hit, same_column c (f r) r (same_counters r)) (cov c)
    | inr miss ↦ rw miss (cov c)
  ]

  update-IsCovered :
      (db : Db) → IsCovered db → IsCovered (record db { api_keys = update q f db.api_keys })
  unfolding find_by_id
  update-IsCovered db cov = record {
    at_key = λ k.
        rw
          (first-update (has_id k) q f (λ r. ap (λ (i : String). str_eq i k) (same_id r))
            db.api_keys)
          (Covered-changed k db.tool_usage (first (has_id k) db.api_keys) (cov.at_key k));
  }

create-IsCovered :
    (db : Db) (id : String) (now d : ℕ) (input : CreateApiKeyInput)
    → IsCovered db
    → IsCovered (apply db (creates id now d input))
unfolding find_by_id
create-IsCovered db id now d input cov = create_cases IsCovered db id now d input cov (λ free _.
    record {
      at_key = λ k. elim (Option-cases (first (has_id k) db.api_keys)) [
        | inl e ↦
            rw (first-append_none (has_id k) db.api_keys (new_row id now d input) e)
              (at_new k (new_row id now d input) db.tool_usage (rw e at (cov.at_key k)))
        | inr (r, e) ↦
            rw (first-append_some (has_id k) db.api_keys (new_row id now d input) r e)
              (rw e at (cov.at_key k))
      ];
    })
  where
    at_new :
        (k : String) (row : ApiKeyRecord) (us : List ToolUsage)
        → uses k us ≡ false
        → Covered k us (if has_id k row then some row else none)
    at_new k row us unused = elim (Bool-cases (str_eq row.id k)) [
      | inl hit ↦ rw hit (λ c. rw (total_unused c k us unused) (omega arith))
      | inr miss ↦ rw miss unused
    ]

apply-IsCovered : (db : Db) (op : Op) → IsCovered db → IsCovered (apply db op)
unfolding blacklist unblacklist soft_delete set_rate_limit touch_last_used
apply-IsCovered db (creates id now d input) cov = create-IsCovered db id now d input cov
apply-IsCovered db (records input now c) cov = record_usage-IsCovered db input now c cov
apply-IsCovered db (blacklists id now) cov =
    update-IsCovered _ _ (λ r. refl) (λ r. (refl, refl, refl, refl)) db cov
apply-IsCovered db (unblacklists id) cov =
    update-IsCovered _ _ (λ r. refl) (λ r. (refl, refl, refl, refl)) db cov
apply-IsCovered db (soft_deletes id now) cov =
    update-IsCovered _ _ (λ r. refl) (λ r. (refl, refl, refl, refl)) db cov
apply-IsCovered db (sets_rate_limit id n) cov =
    update-IsCovered _ _ (λ r. refl) (λ r. (refl, refl, refl, refl)) db cov
apply-IsCovered db (touches id now) cov =
    update-IsCovered _ _ (λ r. refl) (λ r. (refl, refl, refl, refl)) db cov

empty-IsCovered : IsCovered empty
unfolding find_by_id first uses
empty-IsCovered = record { at_key = λ k. refl }

-- After any run of calls on the empty tables, in which any statement may fail, each of the four
-- counters of a key is at least the sum of that column over the tools of the key, and no tool is
-- counted for a key that is not there.
pub run-IsCovered : (ops : List Op) → IsCovered (run empty ops)
run-IsCovered ops = run_induction IsCovered apply-IsCovered empty ops empty-IsCovered
