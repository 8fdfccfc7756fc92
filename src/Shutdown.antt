-- ===== src/Shutdown.antt =====
-- src/lib/shutdown.ts: the registry of shutdown handlers and what follows a signal. What a handler does is
-- its `Handler`: the time after which its promise settles, if it does, and whether it rejects. Time is
-- counted while a run awaits.
pub mod Order
mod Tests
use emcp.Prelude.{
  ℕ, zero, suc, ◌+◌, ◌/◌, max, min, Bool, true, false, String, Option, none, some, List, [], ◌∷◌,
  ◌++◌, length, leb, if◌then◌else◌,
}

pub record Handler : Type 0 where
  pub settles_after : Option ℕ
  pub rejects : Bool

pub record Entry : Type 0 where
  pub name : String
  pub handler : Handler

-- `started`: the reason of the first run
pub record ShutdownRegistry : Type 0 where
  pub entries : List Entry
  pub started : Option String
  pub total_timeout_ms : ℕ
  pub min_handler_timeout_ms : ℕ

unfoldable pub register : ShutdownRegistry → String → Handler → ShutdownRegistry
register r name handler = record r {
  entries = r.entries ++ record { name = name; handler = handler } ∷ [];
}

-- by the number of entries
abbrev pub timeout_of : ℕ → ℕ → ℕ → ℕ
timeout_of total least zero = least
timeout_of total least (suc n) = max (total / suc n) least

unfoldable pub per_handler_timeout_ms : ShutdownRegistry → ℕ
per_handler_timeout_ms r = timeout_of r.total_timeout_ms r.min_handler_timeout_ms (length r.entries)

-- how a call of a handler ends
pub data Ending : Type 0 where
  finished failed timed_out : Ending

-- one call of a handler: which one, how it ends and how long it is awaited
pub record Call : Type 0 where
  pub name : String
  pub ending : Ending
  pub elapsed : ℕ

abbrev pub ending_of : Bool → Ending
ending_of rejects = if rejects then failed else finished

-- the race against the timer
abbrev pub settled : Entry → ℕ → Option ℕ → Call
settled entry timeout_ms none = record {
  name = entry.name;
  ending = timed_out;
  elapsed = timeout_ms;
}
settled entry timeout_ms (some after) =
    if leb after timeout_ms
    then record { name = entry.name; ending = ending_of entry.handler.rejects; elapsed = after }
    else record { name = entry.name; ending = timed_out; elapsed = timeout_ms }

unfoldable pub run_one : Entry → ℕ → Call
run_one entry timeout_ms = settled entry timeout_ms entry.handler.settles_after

-- The loop down from the last entry: the calls in their order.
unfoldable pub run_down : ℕ → List Entry → List Call
run_down timeout_ms [] = []
run_down timeout_ms (entry ∷ entries) = run_down timeout_ms entries ++ run_one entry timeout_ms ∷ []

unfoldable pub execute : ShutdownRegistry → List Call
execute r = run_down (per_handler_timeout_ms r) r.entries

abbrev pub run_unless : ShutdownRegistry → String → Option String → List Call × ShutdownRegistry
run_unless r reason (some earlier) = ([], r)
run_unless r reason none = (execute r, record r { started = some reason })

-- `run`: the calls it makes, none where it has been run before
unfoldable pub run : ShutdownRegistry → String → List Call × ShutdownRegistry
run r reason = run_unless r reason r.started

abbrev pub elapsed : List Call → ℕ
elapsed [] = 0
elapsed (call ∷ calls) = call.elapsed + elapsed calls

-- the exit code of `handleSignal`; `rejects` is what the runner's promise does
unfoldable pub handle_signal : Bool → ℕ
handle_signal rejects = if rejects then 1 else 0
