-- ===== src/Server/ToolCall/Usage.antt =====
-- The usage that the tool calls of src/server.ts record.
use emcp.Prelude.{◌≡◌, refl, List, [], ◌∷◌}
use emcp.Keys.{Db}
use emcp.Keys.Operations.{Op, records, run}
use emcp.Server.ToolCall.{
  Ended, returned, threw, ToolCall, usage_of, wrapped, call_tool, call_tools,
}

abbrev pub op_of : ToolCall → Ended → List Op → List Op
op_of call (returned is_error bytes_out) ops =
    records (usage_of call bytes_out) call.now call.connection ∷ ops
op_of call (threw e) ops = ops

-- one write of the usage for each call that returns
abbrev pub usages : List ToolCall → List Op
usages [] = []
usages (call ∷ calls) = op_of call call.ended (usages calls)

after_call :
    (db : Db) (call : ToolCall) (calls : List ToolCall) (ended : Ended)
    → ((d : Db) → call_tools d calls ≡ run d (usages calls))
    → call_tools (wrapped db call ended).db calls ≡ run db (op_of call ended (usages calls))
unfolding run
after_call db call calls (returned is_error bytes_out) h = h _
after_call db call calls (threw e) h = h db

-- A sequence of tool calls writes to the database the usage of each call that returns, in their order, and
-- nothing for a call that throws.
pub call_tools-run : (db : Db) (calls : List ToolCall) → call_tools db calls ≡ run db (usages calls)
unfolding call_tools call_tool run
call_tools-run db [] = refl
call_tools-run db (call ∷ calls) = after_call db call calls call.ended (λ d. call_tools-run d calls)
