-- ===== src/Expr/Calculator/Scoped.antt =====
-- What the checks of `buildEvalEnv` of src/tools/calculator.ts rule out for the evaluation.
use emcp.Prelude.{
  ◌≡◌, refl, sym, subst, ◌∙◌, inl, inr, true, false, ◌&&◌, ◌||◌, length, Option, none, some, List,
  [], ◌∷◌, All, arith, if_cases, Option-cases, false≢true,
}
use emcp.Expr.{Text, Result, returns, throws}
use emcp.Expr.Parser.{
  AstNode, literal, identifier, binary, unary, factorial, call, Args, no_args, arg, BinaryOp, add,
  sub, mul, div, rem, pow, parse,
}
use emcp.Expr.Evaluator.{
  Numbers, Builtin, Named, EvalEnv, Fault, unknown_identifier, not_finite_variable, Eval, value,
  fault, and_then, own, constant, variable, apply_binary, or_domain_error, apply_builtin,
  arity_fits, call_named, is_inherited, evaluate, evaluate_args,
}
use emcp.Expr.Evaluator.Identifiers.{Everywhere, EverywhereArgs, collect_identifiers-Everywhere}
use emcp.Expr.Calculator.{
  Refusal, Built, built, refused, has_own, is_function_call_name, check_variables,
  check_identifiers, check_names, or_refusal, check_parsed, build_eval_env, env_of,
}

has_own-none :
    {A : Type 0} (members : Named A) (name : Text)
    → own members name ≡ none
    → has_own members name ≡ false
unfolding own
has_own-none [] name h = refl
has_own-none ((key, a) ∷ members) name h = ground (arith, has_own-none members name, h)

-- an unbound identifier is the name of a call, and no variable is infinite
abbrev pub IsScopedFault : {F : Type 0} → AstNode F → Fault → Type 0
IsScopedFault ast (unknown_identifier name) = is_function_call_name ast name ≡ true
IsScopedFault ast (not_finite_variable name) = ⊥
IsScopedFault ast _ = Unit

module _ {F : Type 0} (num : Numbers F) (constants : Named F) (builtins : Named (Builtin F))
    (ast : AstNode F) (variables : Named F) where
  abbrev pub IsScoped : {A : Type 0} → Eval A → Type 0
  IsScoped (value a) = Unit
  IsScoped (fault f) = IsScopedFault ast f

  and_then-IsScoped :
      {A B : Type 0} (o : Eval A) (k : A → Eval B)
      → IsScoped o
      → ((a : A) → IsScoped (k a))
      → IsScoped (and_then o k)
  and_then-IsScoped (value a) k h f = f a
  and_then-IsScoped (fault x) k h f = h

  or_domain_error-IsScoped : (o : Option F) → IsScoped (or_domain_error num o)
  or_domain_error-IsScoped none = tt
  or_domain_error-IsScoped (some v) = tt

  apply_binary-IsScoped : (op : BinaryOp) (l r : F) → IsScoped (apply_binary num op l r)
  unfolding apply_binary
  apply_binary-IsScoped add l r = tt
  apply_binary-IsScoped sub l r = tt
  apply_binary-IsScoped mul l r = tt
  apply_binary-IsScoped div l r = if_cases IsScoped (num.is_zero r) (λ _. tt) (λ _. tt)
  apply_binary-IsScoped rem l r = if_cases IsScoped (num.is_zero r) (λ _. tt) (λ _. tt)
  apply_binary-IsScoped pow l r =
      if_cases IsScoped (num.is_nan (num.power l r) && (num.is_finite l && num.is_finite r))
        (λ _. tt) (λ _. tt)

  call_named-IsScoped :
      (name : Text) (o : Option (Builtin F)) (args : Eval (List F))
      → IsScoped args
      → IsScoped (call_named num name o args)
  unfolding call_named apply_builtin
  call_named-IsScoped name (some def) args h = and_then-IsScoped args _ h (λ vs.
      if_cases IsScoped (arity_fits def.arity (length vs))
        (λ _. or_domain_error-IsScoped (def.impl vs)) (λ _. tt))
  call_named-IsScoped name none args h =
      if_cases IsScoped (is_inherited name) (λ _. and_then-IsScoped args _ h (λ vs. tt)) (λ _. tt)

  -- the reading of an identifier
  abbrev IsRead : Text → Type 0
  IsRead name = IsScoped (variable num constants name (own variables name))

  abbrev env : EvalEnv F
  env = env_of num constants builtins variables

  mutual
    unfolding evaluate

    evaluate-IsScoped :
        (node : AstNode F) → Everywhere IsRead node → IsScoped (evaluate num env node)
    evaluate-IsScoped (literal v) h = tt
    evaluate-IsScoped (identifier name) h = h
    evaluate-IsScoped (binary op left right) (hl, hr) =
        and_then-IsScoped _ _ (evaluate-IsScoped left hl) (λ l.
          and_then-IsScoped _ _ (evaluate-IsScoped right hr) (λ r. apply_binary-IsScoped op l r))
    evaluate-IsScoped (unary op operand) h =
        and_then-IsScoped _ _ (evaluate-IsScoped operand h) (λ v. tt)
    evaluate-IsScoped (factorial operand) h =
        and_then-IsScoped _ _ (evaluate-IsScoped operand h)
          (λ v. or_domain_error-IsScoped (num.fact v))
    evaluate-IsScoped (call name args) h =
        call_named-IsScoped name (own builtins name) _ (evaluate_args-IsScoped args h)

    evaluate_args-IsScoped :
        (args : Args F) → EverywhereArgs IsRead args → IsScoped (evaluate_args num env args)
    evaluate_args-IsScoped no_args h = tt
    evaluate_args-IsScoped (arg a others) (h, hs) =
        and_then-IsScoped _ _ (evaluate-IsScoped a h)
          (λ v. and_then-IsScoped _ _ (evaluate_args-IsScoped others hs) (λ vs. tt))

  own-finite :
      (members : Named F) (name : Text) (v : F)
      → check_variables num constants builtins members ≡ none
      → own members name ≡ some v
      → num.is_finite v ≡ true
  unfolding check_variables own
  own-finite [] name v h e = ground (arith, e)
  own-finite ((key, w) ∷ members) name v h e = ground (arith, own-finite members name v, h, e)

  read_constant :
      (name : Text)
      → (has_own constants name || is_function_call_name ast name) ≡ true
      → (o : Option F) → own constants name ≡ o
      → IsScoped (constant num name o)
  read_constant name h none e = ground (arith, h, has_own-none constants name e)
  read_constant name h (some v) e = tt

  -- what the two checks say of one identifier
  read :
      (name : Text)
      → check_variables num constants builtins variables ≡ none
      → (has_own variables name || (has_own constants name || is_function_call_name ast name))
        ≡ true
      → IsRead name
  unfolding variable
  read name checked h = elim (Option-cases (own variables name)) [
    | inl e ↦
        subst (λ o. IsScoped (variable num constants name o)) (sym e)
          (read_constant name (ground (arith, h, has_own-none variables name e))
            (own constants name) refl)
    | inr (v, e) ↦
        subst (λ o. IsScoped (variable num constants name o)) (sym e)
          (if_cases IsScoped (num.is_finite v) (λ _. tt)
            (λ no. elim (false≢true (sym no ∙ own-finite variables name v checked e)) [ ]))
  ]

  check_identifiers-All :
      (names : List Text)
      → check_variables num constants builtins variables ≡ none
      → check_identifiers num constants builtins ast variables names ≡ none
      → All IsRead names
  unfolding check_identifiers
  check_identifiers-All [] checked h = tt
  check_identifiers-All (name ∷ names) checked h =
      if_cases (λ o. o ≡ none → All IsRead (name ∷ names))
        (has_own variables name || (has_own constants name || is_function_call_name ast name))
        (λ ok later. (read name checked ok, check_identifiers-All names checked later))
        (λ _ stuck. ground (arith, stuck)) h

module _ {F : Type 0} (num : Numbers F) (constants : Named F) (builtins : Named (Builtin F)) where
  abbrev Fits : Built F → Type 0
  Fits (refused r) = Unit
  Fits (built ast variables) =
      IsScoped num constants builtins ast variables
        (evaluate num (env_of num constants builtins variables) ast)

  or_refusal-Fits :
      (o : Option Refusal) (later : Built F)
      → (o ≡ none → Fits later)
      → Fits (or_refusal num constants builtins o later)
  or_refusal-Fits none later h = h refl
  or_refusal-Fits (some r) later h = tt

  check_parsed-Fits :
      (variables : Named F) (r : Result (AstNode F))
      → Fits (check_parsed num constants builtins variables r)
  unfolding check_parsed
  check_parsed-Fits variables (throws e) = tt
  check_parsed-Fits variables (returns ast) = or_refusal-Fits _ _ (λ checked.
      or_refusal-Fits _ _ (λ known.
        or_refusal-Fits (check_names num constants builtins variables) (built ast variables) (λ _.
          evaluate-IsScoped num constants builtins ast variables ast
            (collect_identifiers-Everywhere (IsRead num constants builtins ast variables) ast []
              (check_identifiers-All num constants builtins ast variables _ checked known)).0)))

  build_eval_env-Fits :
      (to_number : Text → Option F) (source : Option Text) (variables : Named F)
      → Fits (build_eval_env num constants builtins to_number source variables)
  unfolding build_eval_env
  build_eval_env-Fits to_number none variables = tt
  build_eval_env-Fits to_number (some source) variables =
      check_parsed-Fits variables (parse to_number source)

  -- If `buildEvalEnv` accepts an expression and its variables, their evaluation fails neither on a
  -- variable that is not finite nor on an unknown identifier, other than one that the expression also
  -- calls as a function.
  pub build_eval_env_scoped :
      (to_number : Text → Option F) (source : Option Text) (given variables : Named F)
      (ast : AstNode F) (f : Fault)
      → build_eval_env num constants builtins to_number source given ≡ built ast variables
      → evaluate num (env_of num constants builtins variables) ast ≡ fault f
      → IsScopedFault ast f
  build_eval_env_scoped to_number source given variables ast f e g =
      subst (IsScoped num constants builtins ast variables) g
        (subst Fits e (build_eval_env-Fits to_number source given))
