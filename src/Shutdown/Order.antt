-- ===== src/Shutdown/Order.antt =====
-- The order of the shutdown handlers of src/lib/shutdown.ts, and how long they are awaited.
use emcp.Prelude.{
  ℕ, zero, suc, ◌+◌, ◌*◌, ◌/◌, ◌≤◌, ◌≡◌, refl, ap, ◌∙◌, sym, inl, inr, max, String, Option, none,
  some, List, [], ◌∷◌, ◌++◌, arith, length, leb, if_cases, subst, Bool-cases,
}
use native.Mathlib.Nat.{div-mul-le_self}
use emcp.Shutdown.{
  Entry, ShutdownRegistry, timeout_of, per_handler_timeout_ms, Call, settled, run_one, run_down,
  execute, run_unless, run, elapsed,
}

abbrev pub reverse : List String → List String
reverse [] = []
reverse (name ∷ names) = reverse names ++ name ∷ []

abbrev pub names_of : List Entry → List String
names_of [] = []
names_of (entry ∷ entries) = entry.name ∷ names_of entries

abbrev pub called : List Call → List String
called [] = []
called (call ∷ calls) = call.name ∷ called calls

called-append : (xs ys : List Call) → called (xs ++ ys) ≡ called xs ++ called ys
called-append [] ys = refl
called-append (x ∷ xs) ys = ap (λ t. x.name ∷ t) (called-append xs ys)

elapsed-append : (xs ys : List Call) → elapsed (xs ++ ys) ≡ elapsed xs + elapsed ys
elapsed-append [] ys = omega arith
elapsed-append (x ∷ xs) ys = ground (arith, elapsed-append xs ys)

settled_within :
    (entry : Entry) (timeout_ms : ℕ) (o : Option ℕ)
    → ((settled entry timeout_ms o).name ≡ entry.name)
      × ((settled entry timeout_ms o).elapsed ≤ timeout_ms)
settled_within entry timeout_ms none = (refl, omega arith)
settled_within entry timeout_ms (some after) =
    if_cases (λ (c : Call). (c.name ≡ entry.name) × (c.elapsed ≤ timeout_ms)) (leb after timeout_ms)
      (λ soon. (refl, ground (arith, soon))) (λ late. (refl, omega arith))

run_one_within :
    (entry : Entry) (timeout_ms : ℕ)
    → ((run_one entry timeout_ms).name ≡ entry.name)
      × ((run_one entry timeout_ms).elapsed ≤ timeout_ms)
unfolding run_one
run_one_within entry timeout_ms = settled_within entry timeout_ms entry.handler.settles_after

run_down-reverse :
    (timeout_ms : ℕ) (entries : List Entry)
    → called (run_down timeout_ms entries) ≡ reverse (names_of entries)
unfolding run_down
run_down-reverse timeout_ms [] = refl
run_down-reverse timeout_ms (entry ∷ entries) =
    called-append (run_down timeout_ms entries) (run_one entry timeout_ms ∷ [])
    ∙ (λ i. run_down-reverse timeout_ms entries i ++ (run_one_within entry timeout_ms).0 i ∷ [])

run_down_within :
    (timeout_ms : ℕ) (entries : List Entry)
    → elapsed (run_down timeout_ms entries) ≤ length entries * timeout_ms
unfolding run_down
run_down_within timeout_ms [] = omega arith
run_down_within timeout_ms (entry ∷ entries) = ground (
  arith,
  elapsed-append (run_down timeout_ms entries) (run_one entry timeout_ms ∷ []),
  run_down_within timeout_ms entries,
  (run_one_within entry timeout_ms).1,
)

share_within : (n total least : ℕ) → suc n * max (total / suc n) least ≤ max total (suc n * least)
share_within n total least = elim (Bool-cases (leb (total / suc n) least)) [
  | inl small ↦
      subst (λ m. suc n * m ≤ max total (suc n * least)) {x = least} (sym (ground (arith, small)))
        (omega arith)
  | inr large ↦
      subst (λ m. suc n * m ≤ max total (suc n * least)) {x = total / suc n}
        (sym (ground (arith, large))) (ground (arith, div-mul-le_self total (suc n)))
]

timeout_within : (n total least : ℕ) → n * timeout_of total least n ≤ max total (n * least)
timeout_within zero total least = omega arith
timeout_within (suc n) total least = share_within n total least

execute_within :
    (r : ShutdownRegistry)
    → elapsed (execute r) ≤ max r.total_timeout_ms (length r.entries * r.min_handler_timeout_ms)
unfolding execute per_handler_timeout_ms
execute_within r = ground (
  arith,
  run_down_within (per_handler_timeout_ms r) r.entries,
  timeout_within (length r.entries) r.total_timeout_ms r.min_handler_timeout_ms,
)

-- The first run calls each handler once, in the reverse of the order of registration, whether or not
-- others fail or time out, and awaits them no longer than the total budget or the least time of each
-- handler together, whichever is longer; a second run calls none.
pub run_in_order :
    (r : ShutdownRegistry) (reason again : String)
    → r.started ≡ none
    → (called (run r reason).0 ≡ reverse (names_of r.entries))
      × (elapsed (run r reason).0
          ≤ max r.total_timeout_ms (length r.entries * r.min_handler_timeout_ms))
      × ((run (run r reason).1 again).0 ≡ [])
unfolding run execute
run_in_order r reason again h =
    subst
      (λ o.
        (called (run_unless r reason o).0 ≡ reverse (names_of r.entries))
        × (elapsed (run_unless r reason o).0
            ≤ max r.total_timeout_ms (length r.entries * r.min_handler_timeout_ms))
        × ((run (run_unless r reason o).1 again).0 ≡ []))
      (sym h) (run_down-reverse (per_handler_timeout_ms r) r.entries, execute_within r, refl)
