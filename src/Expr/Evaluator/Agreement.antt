-- ===== src/Expr/Evaluator/Agreement.antt =====
-- The evaluator of src/shared/math/expr/evaluator.ts reads the variables that `collectIdentifiers` names
-- and no other.
use emcp.Prelude.{◌≡◌, refl, ap, [], ◌∷◌, All}
use emcp.Expr.{Text}
use emcp.Expr.Parser.{
  AstNode, literal, identifier, binary, unary, factorial, call, Args, no_args, arg,
}
use emcp.Expr.Evaluator.{
  Numbers, Named, EvalEnv, own, variable, evaluate, evaluate_args, collect_identifiers, and_then,
  apply_binary, apply_unary, or_domain_error, call_named, value,
}
use emcp.Expr.Evaluator.Identifiers.{Everywhere, EverywhereArgs, collect_identifiers-Everywhere}

module _ {F : Type 0} (num : Numbers F) (env : EvalEnv F) (others : Named F) where
  abbrev Agree : Text → Type 0
  Agree name = own env.variables name ≡ own others name

  abbrev env' : EvalEnv F
  env' = record env { variables = others }

  mutual
    unfolding evaluate

    evaluate-Everywhere :
        (node : AstNode F) → Everywhere Agree node → evaluate num env node ≡ evaluate num env' node
    evaluate-Everywhere (literal v) h = refl
    evaluate-Everywhere (identifier name) h = ap (variable num env.constants name) h
    evaluate-Everywhere (binary op left right) (l, r) =
        let el = evaluate-Everywhere left l in
        let er = evaluate-Everywhere right r in
        λ i. and_then (el i) (λ x. and_then (er i) (λ y. apply_binary num op x y))
    evaluate-Everywhere (unary op operand) h =
        ap (λ o. and_then o (λ v. value (apply_unary num op v))) (evaluate-Everywhere operand h)
    evaluate-Everywhere (factorial operand) h =
        ap (λ o. and_then o (λ v. or_domain_error num (num.fact v))) (evaluate-Everywhere operand h)
    evaluate-Everywhere (call name args) h =
        ap (call_named num name (own env.builtins name)) (evaluate_args-Everywhere args h)

    evaluate_args-Everywhere :
        (args : Args F)
        → EverywhereArgs Agree args
        → evaluate_args num env args ≡ evaluate_args num env' args
    evaluate_args-Everywhere no_args h = refl
    evaluate_args-Everywhere (arg a args) (h, hs) =
        let e = evaluate-Everywhere a h in
        let es = evaluate_args-Everywhere args hs in
        λ i. and_then (e i) (λ v. and_then (es i) (λ vs. value (v ∷ vs)))

  -- Two records of variables that agree on the identifiers that are collected evaluate alike.
  pub evaluate-collect_identifiers :
      (node : AstNode F)
      → All Agree (collect_identifiers node [])
      → evaluate num env node ≡ evaluate num env' node
  evaluate-collect_identifiers node h =
      evaluate-Everywhere node (collect_identifiers-Everywhere Agree node [] h).0
