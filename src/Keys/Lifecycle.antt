-- ===== src/Keys/Lifecycle.antt =====
-- The life of a key over the operations of src/db/repos/api-keys.ts.
use mathlib.Core.Option
use emcp.Prelude.{
  ℕ, String, ◌≡◌, refl, ap, ◌∙◌, inl, inr, Bool, false, Option, some, List, [], ◌∷◌, arith,
  if◌then◌else◌, str_eq, eq_iff, str_eq_refl, Bool-cases, Option-cases, All,
}
use emcp.Keys.{
  ApiKeyStatus, active, blacklisted, deleted, is_blacklisted, ApiKeyRecord, Db, CreateApiKeyInput,
  RecordUsageInput, has_id, first, update, find_by_id, blacklist, unblacklist, soft_delete,
  set_rate_limit, touch_last_used,
}
use emcp.Keys.Rows.{changed, first-update, first-append_some}
use emcp.Keys.Usage.{Connection, counted_key, count_on_keys, when, transaction, record_usage}
use emcp.Keys.Usage.Atomic.{transaction-some}
use emcp.Keys.Operations.{
  Op, creates, blacklists, unblacklists, soft_deletes, sets_rate_limit, touches, records, apply,
  run, create_cases,
}

-- The status of key `k` after a call, from its status before.
abbrev pub next_status : Op → String → ApiKeyStatus → ApiKeyStatus
next_status (blacklists id now) k s = if str_eq k id then blacklisted else s
next_status (unblacklists id) k s =
    if str_eq k id then (if is_blacklisted s then active else s) else s
next_status (soft_deletes id now) k s = if str_eq k id then deleted else s
next_status _ k s = s

-- the row is there, with this status
pub record HasStatus (k : String) (s : ApiKeyStatus) (o : Option ApiKeyRecord) : Type 0 where
  pub row : ApiKeyRecord
  pub found : o ≡ some row
  pub named : row.id ≡ k
  pub status : row.status ≡ s

-- an UPDATE that keeps ids
module _ (q : ApiKeyRecord → Bool) (f : ApiKeyRecord → ApiKeyRecord)
    (same_id : (r : ApiKeyRecord) → (f r).id ≡ r.id) where
  changed-id : (r : ApiKeyRecord) → (changed q f r).id ≡ r.id
  changed-id r = ground (arith, same_id r)

  update-HasStatus :
      (k : String) (s t : ApiKeyStatus) (rs : List ApiKeyRecord)
      → ((r : ApiKeyRecord) → r.id ≡ k → r.status ≡ s → (changed q f r).status ≡ t)
      → HasStatus k s (first (has_id k) rs)
      → HasStatus k t (first (has_id k) (update q f rs))
  update-HasStatus k s t rs step h = record {
    row = changed q f h.row;
    found =
        first-update (has_id k) q f (λ r. ap (λ (i : String). str_eq i k) (same_id r)) rs
        ∙ ap (Option.map (changed q f)) h.found;
    named = changed-id h.row ∙ h.named;
    status = step h.row h.named h.status;
  }

counted_key-status :
    (input : RecordUsageInput) (now : ℕ) (r r' : ApiKeyRecord)
    → counted_key input now r ≡ some r'
    → (r'.id ≡ r.id) × (r'.status ≡ r.status)
unfolding counted_key
counted_key-status input now r r' h = ground arith

count_on_keys-HasStatus :
    (input : RecordUsageInput) (now : ℕ) (k : String) (s : ApiKeyStatus)
    (rs rs' : List ApiKeyRecord)
    → count_on_keys input now rs ≡ some rs'
    → HasStatus k s (first (has_id k) rs)
    → HasStatus k s (first (has_id k) rs')
unfolding count_on_keys first
count_on_keys-HasStatus input now k s [] rs' e h = absurd (cc h.found)
count_on_keys-HasStatus input now k s (r ∷ rs) rs' e h =
    elim (Option-cases (if has_id input.key_id r then counted_key input now r else some r)) [
      | inl e' ↦ ground arith
      | inr (r', e') ↦ elim (Option-cases (count_on_keys input now rs)) [
        | inl e'' ↦ ground arith
        | inr (rs'', e'') ↦
            let whole : rs' ≡ r' ∷ rs'' = ground arith in
            let kept : (r'.id ≡ r.id) × (r'.status ≡ r.status) =
              ground (arith, counted_key-status input now r r') in
            rw whole (elim (Bool-cases (str_eq r.id k)) [
              | inl mine ↦ record {
                row = r';
                found = ground arith;
                named = ground (arith, eq_iff r.id k);
                status = ground (arith, h.found, h.status);
              }
              | inr other ↦
                  let later = count_on_keys-HasStatus input now k s rs rs'' e'' (record {
                    row = h.row;
                    found = ground (arith, h.found);
                    named = h.named;
                    status = h.status;
                  }) in
                  record {
                    row = later.row;
                    found = ground (arith, later.found);
                    named = later.named;
                    status = later.status;
                  }
            ])
      ]
    ]

record_usage-HasStatus :
    (db : Db) (input : RecordUsageInput) (now : ℕ) (c : Connection) (k : String) (s : ApiKeyStatus)
    → HasStatus k s (find_by_id db k)
    → HasStatus k s (find_by_id (record_usage db input now c) k)
unfolding record_usage find_by_id
record_usage-HasStatus db input now c k s h =
    elim (Option-cases (when c.connects (when c.begins (transaction db input now c)))) [
      | inl e ↦ rw (e, record_usage) h
      | inr (db', e) ↦
          rw (e, record_usage)
            (count_on_keys-HasStatus input now k s db.api_keys db'.api_keys
              (transaction-some db db' input now c (ground arith)).0 h)
    ]

create-HasStatus :
    (db : Db) (id : String) (now d : ℕ) (input : CreateApiKeyInput) (k : String) (s : ApiKeyStatus)
    → HasStatus k s (find_by_id db k)
    → HasStatus k s (find_by_id (apply db (creates id now d input)) k)
unfolding find_by_id
create-HasStatus db id now d input k s h =
    create_cases (λ db'. HasStatus k s (find_by_id db' k)) db id now d input h
      (λ _ _. record {
        row = h.row;
        found = first-append_some (has_id k) db.api_keys _ h.row h.found;
        named = h.named;
        status = h.status;
      })

-- Each call moves the status of each key as `next_status` says, and no call removes a key.
pub apply-HasStatus :
    (db : Db) (op : Op) (k : String) (s : ApiKeyStatus)
    → HasStatus k s (find_by_id db k)
    → HasStatus k (next_status op k s) (find_by_id (apply db op) k)
unfolding find_by_id blacklist unblacklist soft_delete set_rate_limit touch_last_used
apply-HasStatus db (creates id now d input) k s h = create-HasStatus db id now d input k s h
apply-HasStatus db (records input now c) k s h = record_usage-HasStatus db input now c k s h
apply-HasStatus db (blacklists id now) k s h =
    update-HasStatus _ _ (λ r. refl) k s _ db.api_keys
      (λ r named status. rw (named, status) (ground (arith, eq_iff k id))) h
apply-HasStatus db (unblacklists id) k s h =
    update-HasStatus _ _ (λ r. refl) k s _ db.api_keys
      (λ r named status. rw (named, status) (ground (arith, eq_iff k id))) h
apply-HasStatus db (soft_deletes id now) k s h =
    update-HasStatus _ _ (λ r. refl) k s _ db.api_keys
      (λ r named status. rw (named, status) (ground (arith, eq_iff k id))) h
apply-HasStatus db (sets_rate_limit id n) k s h =
    update-HasStatus _ _ (λ r. refl) k s _ db.api_keys (λ r named status. ground arith) h
apply-HasStatus db (touches id now) k s h =
    update-HasStatus _ _ (λ r. refl) k s _ db.api_keys (λ r named status. ground arith) h

-- the status of a key after a run of calls
pub final_status : List Op → String → ApiKeyStatus → ApiKeyStatus
final_status [] k s = s
final_status (op ∷ ops) k s = final_status ops k (next_status op k s)

-- After any run of calls a key is still there, with the status that the calls on its id give one
-- after another: `blacklist` and `softDelete` always take effect, `unblacklist` only on a
-- blacklisted key, and no other call touches a status.
pub run-HasStatus :
    (db : Db) (ops : List Op) (k : String) (s : ApiKeyStatus)
    → HasStatus k s (find_by_id db k)
    → HasStatus k (final_status ops k s) (find_by_id (run db ops) k)
unfolding run final_status
run-HasStatus db [] k s h = h
run-HasStatus db (op ∷ ops) k s h =
    run-HasStatus (apply db op) ops k (next_status op k s) (apply-HasStatus db op k s h)

-- the call does not blacklist the key
abbrev pub Spares : String → Op → Type 0
Spares k (blacklists id now) = str_eq k id ≡ false
Spares k _ = Unit

next_status_deleted : (op : Op) (k : String) → Spares k op → next_status op k deleted ≡ deleted
next_status_deleted (blacklists id now) k h = rw h
next_status_deleted (unblacklists id) k h = ground arith
next_status_deleted (soft_deletes id now) k h = ground arith
next_status_deleted _ k h = refl

final_status_deleted :
    (ops : List Op) (k : String) → All (Spares k) ops → final_status ops k deleted ≡ deleted
unfolding final_status
final_status_deleted [] k h = refl
final_status_deleted (op ∷ ops) k (h, hs) =
    rw (next_status_deleted op k h) (final_status_deleted ops k hs)

-- A deleted key stays deleted over any run of calls that does not blacklist it.
pub run-deleted :
    (db : Db) (ops : List Op) (k : String)
    → HasStatus k deleted (find_by_id db k)
    → All (Spares k) ops
    → HasStatus k deleted (find_by_id (run db ops) k)
run-deleted db ops k h spared =
    rw (final_status_deleted ops k spared) at (run-HasStatus db ops k deleted h)

-- A key in any status, a deleted one included, is active again once it has been blacklisted and
-- unblacklisted.
pub unblacklist-blacklist :
    (db : Db) (k : String) (now : ℕ) (s : ApiKeyStatus)
    → HasStatus k s (find_by_id db k)
    → HasStatus k active (find_by_id (unblacklist (blacklist db k now) k) k)
unblacklist-blacklist db k now s h =
    let e : final_status (blacklists k now ∷ unblacklists k ∷ []) k s ≡ active =
      unfold final_status in simp str_eq_refl in
    unfold run in rw e at (run-HasStatus db (blacklists k now ∷ unblacklists k ∷ []) k s h)
