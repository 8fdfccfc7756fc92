-- ===== src/Expr/Calculator.antt =====
-- The mode `evaluate` of src/tools/calculator.ts, from its arguments to the value: `buildEvalEnv` and the
-- evaluator behind it. The variables are the members of a JSON object, in their order.
pub mod Scoped
mod Tests
use emcp.Prelude.{
  ℕ, Bool, true, false, not, ◌&&◌, ◌||◌, Option, none, some, List, [], ◌∷◌, any, all, same_text,
  if◌then◌else◌,
}
use emcp.Expr.{Text, ParseError, Result, returns, throws}
use emcp.Expr.Tokenizer.{is_ident_start, is_ident_cont}
use emcp.Expr.Parser.{
  AstNode, literal, identifier, binary, unary, factorial, call, Args, no_args, arg, parse,
}
use emcp.Expr.Evaluator.{
  Numbers, Builtin, Named, EvalEnv, Fault, Eval, value, fault, own, evaluate, collect_identifiers,
}

-- the errors before the evaluation
pub data Refusal : Type 0 where
  no_expression : Refusal
  parse_error : ParseError → Refusal
  shadows variable_not_finite unbound invalid_name : Text → Refusal

pub data Built (F : Type 0) : Type 0 where
  built : AstNode F → Named F → Built F
  refused : Refusal → Built F

abbrev pub has_own : {A : Type 0} → Named A → Text → Bool
has_own [] name = false
has_own ((key, a) ∷ members) name = same_text key name || has_own members name

unfoldable mutual
  pub is_function_call_name : {F : Type 0} → AstNode F → Text → Bool
  is_function_call_name (literal v) name = false
  is_function_call_name (identifier n) name = false
  is_function_call_name (binary op left right) name =
      is_function_call_name left name || is_function_call_name right name
  is_function_call_name (unary op operand) name = is_function_call_name operand name
  is_function_call_name (factorial operand) name = is_function_call_name operand name
  is_function_call_name (call n args) name = same_text n name || is_called_in_args args name

  pub is_called_in_args : {F : Type 0} → Args F → Text → Bool
  is_called_in_args no_args name = false
  is_called_in_args (arg a others) name =
      is_function_call_name a name || is_called_in_args others name

-- /^[A-Za-z_][A-Za-z0-9_]*$/
unfoldable pub is_identifier : Text → Bool
is_identifier [] = false
is_identifier (c ∷ cs) = is_ident_start c && all is_ident_cont cs

module _ {F : Type 0} (num : Numbers F) (constants : Named F) (builtins : Named (Builtin F)) where
  abbrev pub is_reserved : Text → Bool
  is_reserved name = has_own builtins name || has_own constants name

  -- the first loop over the variables
  unfoldable pub check_variables : Named F → Option Refusal
  check_variables [] = none
  check_variables ((name, v) ∷ members) =
      let later = check_variables members in
      if is_reserved name
      then some (shadows name)
      else if not (num.is_finite v)
      then some (variable_not_finite name)
      else later

  -- the loop over the identifiers
  unfoldable pub check_identifiers : AstNode F → Named F → List Text → Option Refusal
  check_identifiers ast variables [] = none
  check_identifiers ast variables (name ∷ names) =
      let later = check_identifiers ast variables names in
      if has_own variables name || (has_own constants name || is_function_call_name ast name)
      then later
      else some (unbound name)

  -- the second loop over the variables
  unfoldable pub check_names : Named F → Option Refusal
  check_names [] = none
  check_names ((name, v) ∷ members) =
      let later = check_names members in
      if is_identifier name then later else some (invalid_name name)

  abbrev pub or_refusal : Option Refusal → Built F → Built F
  or_refusal none later = later
  or_refusal (some r) later = refused r

  unfoldable pub check_parsed : Named F → Result (AstNode F) → Built F
  check_parsed variables (throws e) = refused (parse_error e)
  check_parsed variables (returns ast) = or_refusal (check_variables variables) (
      or_refusal (check_identifiers ast variables (collect_identifiers ast []))
        (or_refusal (check_names variables) (built ast variables)))

  unfoldable pub build_eval_env : (Text → Option F) → Option Text → Named F → Built F
  build_eval_env to_number none variables = refused no_expression
  build_eval_env to_number (some source) variables = check_parsed variables (parse to_number source)

  -- what the evaluation of a built expression gives
  abbrev pub env_of : Named F → EvalEnv F
  env_of variables = record { variables = variables; constants = constants; builtins = builtins }

  pub data Answer : Type 0 where
    computed : F → Answer
    refuses : Refusal → Answer
    fails : Fault → Answer

  abbrev pub answer_of : Eval F → Answer
  answer_of (value v) = computed v
  answer_of (fault f) = fails f

  unfoldable pub evaluate_built : Built F → Answer
  evaluate_built (refused r) = refuses r
  evaluate_built (built ast variables) = answer_of (evaluate num (env_of variables) ast)

  unfoldable pub run_evaluate : (Text → Option F) → Option Text → Named F → Answer
  run_evaluate to_number source variables =
      evaluate_built (build_eval_env to_number source variables)
