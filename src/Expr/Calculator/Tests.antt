-- ===== src/Expr/Calculator/Tests.antt =====
-- Runs of src/tools/calculator.ts in the mode `evaluate`, on natural numbers, and instances.
use emcp.Prelude.{
  ℕ, ◌+◌, ◌-◌, ◌*◌, ◌/◌, ◌%◌, ◌^◌, ◌≡◌, refl, true, false, Option, none, some, List, [], ◌∷◌, codes,
  same_text, ◌==◌, decimal_from, All,
}
use emcp.Expr.{Text}
use emcp.Expr.Tokenizer.{
  is_whitespace, is_digit, is_ident_start, is_ident_cont, single_char_token, scan_while,
  starts_with, scan_fraction, scan_sign, scan_exponent, scan_number, next_token, push_bound,
  tokenize_from, tokenize,
}
use emcp.Expr.Parser.{
  AstNode, literal, identifier, binary, add, mul, call, arg, no_args, additive_op,
  multiplicative_op, unary_op, is_kind, eat, position_of, expect_rparen, parse_literal, parse_args,
  parse_call, parse_token, parse_atom, parse_power, postfix_rest, parse_postfix, parse_unary,
  multiplicative_rest, parse_multiplicative, additive_rest, parse_additive, too_deep_here, below,
  parse_program, parse,
}
use emcp.Expr.Evaluator.{
  Numbers, Builtin, exactly, Named, EvalEnv, unknown_identifier, type_error, fault, own, arity_fits,
  apply_binary, variable, apply_builtin, call_named, evaluate, with_variable,
  compile_single_variable, insert, collect_identifiers,
}
use emcp.Expr.Evaluator.Agreement.{evaluate-collect_identifiers}
use emcp.Expr.Calculator.{
  built, is_function_call_name, is_identifier, check_variables, check_identifiers, check_names,
  check_parsed, build_eval_env, env_of, evaluate_built, run_evaluate, computed, fails, refuses,
  unbound,
}
use emcp.Expr.Calculator.Scoped.{IsScopedFault, build_eval_env_scoped}

all_calculator : Unit {0}
unfolding is_whitespace is_digit is_ident_start is_ident_cont single_char_token scan_while
    starts_with scan_fraction scan_sign scan_exponent scan_number next_token push_bound
    tokenize_from tokenize additive_op multiplicative_op unary_op is_kind eat position_of
    expect_rparen parse_literal parse_args parse_call parse_token parse_atom parse_power
    postfix_rest parse_postfix parse_unary multiplicative_rest parse_multiplicative additive_rest
    parse_additive too_deep_here below parse_program parse same_text decimal_from own arity_fits
    apply_binary variable apply_builtin call_named evaluate with_variable compile_single_variable
    insert collect_identifiers is_function_call_name is_identifier check_variables check_identifiers
    check_names check_parsed build_eval_env evaluate_built run_evaluate
all_calculator = tt

abbrev naturals : Numbers ℕ
naturals = record {
  plus = λ a b. a + b;
  minus = λ a b. a - b;
  times = λ a b. a * b;
  over = λ a b. a / b;
  modulo = λ a b. a % b;
  power = λ a b. a ^ b;
  negate = λ a. a;
  fact = λ a. none;
  is_zero = λ a. a == 0;
  is_finite = λ a. true;
  is_nan = λ a. false;
}

abbrev double_of : List ℕ → Option ℕ
double_of (n ∷ ns) = some (2 * n)
double_of [] = none

abbrev builtins : Named (Builtin ℕ)
builtins = (codes "double", record { arity = exactly 1; impl = double_of }) ∷ []

abbrev constants : Named ℕ
constants = (codes "ten", 10) ∷ []

abbrev read_digits : Text → Option ℕ
read_digits s = some (decimal_from 0 s)

abbrev variables : Named ℕ
variables = (codes "x", 3) ∷ []

computes :
    run_evaluate naturals constants builtins read_digits (some (codes "double(x)*ten+1")) variables
    ≡ computed 61
unfolding all_calculator
computes = refl

refuses_unbound :
    run_evaluate naturals constants builtins read_digits (some (codes "x+y")) variables
    ≡ refuses (unbound (codes "y"))
unfolding all_calculator
refuses_unbound = refl

-- the name of an inherited member is called
inherits_member :
    run_evaluate naturals constants builtins read_digits (some (codes "constructor(1)")) variables
    ≡ fails type_error
unfolding all_calculator
inherits_member = refl

abbrev called_name : AstNode ℕ
called_name =
    binary add (identifier (codes "double")) (call (codes "double") (arg (literal 1) no_args))

builds_called_name :
    build_eval_env naturals constants builtins read_digits
      (some (codes "double+double(1)"))
      variables
    ≡ built called_name variables
unfolding all_calculator
builds_called_name = refl

misses_called_name :
    evaluate naturals (env_of naturals constants builtins variables) called_name
    ≡ fault (unknown_identifier (codes "double"))
unfolding all_calculator
misses_called_name = refl

build_eval_env_scoped_example : IsScopedFault called_name (unknown_identifier (codes "double"))
build_eval_env_scoped_example =
    build_eval_env_scoped naturals constants builtins read_digits (some (codes "double+double(1)"))
      variables variables called_name (unknown_identifier (codes "double")) builds_called_name
      misses_called_name

abbrev env : EvalEnv ℕ
env = env_of naturals constants builtins variables

abbrev others : Named ℕ
others = (codes "y", 4) ∷ variables

abbrev reads_x : AstNode ℕ
reads_x = binary mul (identifier (codes "x")) (literal 2)

agrees : All (λ name. own variables name ≡ own others name) (collect_identifiers reads_x [])
unfolding all_calculator
agrees = (refl, tt)

evaluate-collect_identifiers_example :
    evaluate naturals env reads_x ≡ evaluate naturals (record env { variables = others }) reads_x
evaluate-collect_identifiers_example =
    evaluate-collect_identifiers naturals env others reads_x agrees
