-- ===== src/Server/ToolCall.antt =====
-- The wrapper of a tool's handler in `registerSessionTools` of src/server.ts: what a call adds to the
-- request metric and to the audit stream, what it writes to the database, and what the client gets.
-- The write of the usage, which the source leaves to a microtask, is made when the call ends.
pub mod Usage
mod Tests
use emcp.Prelude.{ℕ, Bool, true, false, String, Option, none, some, List, [], ◌∷◌, if◌then◌else◌}
use emcp.Errors.{AppError, rate_limit_error, transient_error}
use emcp.Keys.{Db, RecordUsageInput}
use emcp.Keys.Usage.{Connection, record_usage}

-- what a handler throws: an AppError, or anything else
pub data Thrown : Type 0 where
  app : AppError → Thrown
  foreign : Thrown

-- how a handler ends: with a result of so many bytes, which may say `isError`, or with an error
pub data Ended : Type 0 where
  returned : Bool → ℕ → Ended
  threw : Thrown → Ended

pub record ToolCall : Type 0 where
  pub key_id : String
  pub tool : String
  pub bytes_in : ℕ
  pub duration_ms : ℕ
  pub ended : Ended
  pub aborted : Bool
  pub now : ℕ
  pub connection : Connection

-- the label `status` of the metric
pub data Status : Type 0 where
  success failure aborted_shutdown : Status

-- the outcome in the audit record
pub data Outcome : Type 0 where
  succeeded tool_is_error by_shutdown rate_limited transient unknown : Outcome
  named : AppError → Outcome

pub data Answer : Type 0 where
  result : Bool → ℕ → Answer
  throws : AppError → Answer

pub record Wrapped : Type 0 where
  pub db : Db
  pub status : Option Status
  pub outcome : Outcome
  pub answer : Answer

unfoldable pub categorize_tool_error : Thrown → Outcome
categorize_tool_error (app rate_limit_error) = rate_limited
categorize_tool_error (app transient_error) = transient
categorize_tool_error (app e) = named e
categorize_tool_error foreign = unknown

abbrev pub is_rate_limit : Thrown → Bool
is_rate_limit (app rate_limit_error) = true
is_rate_limit _ = false

-- an AppError is thrown on, and any other hidden
abbrev pub shown : Thrown → AppError
shown (app e) = e
shown foreign = transient_error

abbrev pub usage_of : ToolCall → ℕ → RecordUsageInput
usage_of call bytes_out = record {
  key_id = call.key_id;
  tool_name = some call.tool;
  bytes_in = call.bytes_in;
  bytes_out = bytes_out;
  compute_ms = call.duration_ms;
}

abbrev pub failed_status : Bool → Thrown → Option Status
failed_status aborted e =
    if is_rate_limit e then none else some (if aborted then aborted_shutdown else failure)

abbrev pub wrapped : Db → ToolCall → Ended → Wrapped
wrapped db call (returned is_error bytes_out) = record {
  db = record_usage db (usage_of call bytes_out) call.now call.connection;
  status = some success;
  outcome = if is_error then tool_is_error else succeeded;
  answer = result is_error bytes_out;
}
wrapped db call (threw e) = record {
  db = db;
  status = failed_status call.aborted e;
  outcome = if call.aborted then by_shutdown else categorize_tool_error e;
  answer = throws (shown e);
}

unfoldable pub call_tool : Db → ToolCall → Wrapped
call_tool db call = wrapped db call call.ended

unfoldable pub call_tools : Db → List ToolCall → Db
call_tools db [] = db
call_tools db (call ∷ calls) = call_tools (call_tool db call).db calls
