-- ===== src/Expr/Evaluator.antt =====
-- src/shared/math/expr/evaluator.ts, and `collectIdentifiers` of src/shared/math/expr/parser.ts. The
-- numbers are IEEE doubles in the source and any type with their operations here; messages are not
-- kept. A property read of a plain object finds its own members and those of Object.prototype.
pub mod Identifiers
pub mod Agreement
use emcp.Prelude.{
  ℕ, suc, Bool, true, false, not, ◌&&◌, ◌||◌, Option, none, some, List, [], ◌∷◌, ◌==◌, ltb, length,
  codes, any, same_text, if◌then◌else◌,
}
use emcp.Expr.{Text}
use emcp.Expr.Parser.{
  BinaryOp, add, sub, mul, div, rem, pow, UnaryOp, positive, negative, AstNode, literal, identifier,
  binary, unary, factorial, call, Args, no_args, arg,
}

-- the operations on numbers; `fact` is none for a domain error
pub record Numbers (F : Type 0) : Type 0 where
  pub plus : F → F → F
  pub minus : F → F → F
  pub times : F → F → F
  pub over : F → F → F
  pub modulo : F → F → F
  pub power : F → F → F
  pub negate : F → F
  pub fact : F → Option F
  pub is_zero : F → Bool
  pub is_finite : F → Bool
  pub is_nan : F → Bool

pub data Arity : Type 0 where
  exactly : ℕ → Arity
  between : ℕ → ℕ → Arity

-- `impl` has the angle unit already, and is none for a domain error
pub record Builtin (F : Type 0) : Type 0 where
  pub arity : Arity
  pub impl : List F → Option F

abbrev pub Named : Type 0 → Type 0
Named A = List (Text × A)

pub record EvalEnv (F : Type 0) : Type 0 where
  pub variables : Named F
  pub constants : Named F
  pub builtins : Named (Builtin F)

-- the errors of the evaluator; `type_error` is no RuntimeError
pub data Fault : Type 0 where
  unknown_identifier not_finite_variable unknown_function wrong_arity : Text → Fault
  division_by_zero modulo_by_zero undefined_power domain_error type_error : Fault

pub data Eval (A : Type 0) : Type 0 where
  value : A → Eval A
  fault : Fault → Eval A

abbrev pub and_then : {A B : Type 0} → Eval A → (A → Eval B) → Eval B
and_then (value a) k = k a
and_then (fault f) k = fault f

-- an own member of a record
unfoldable pub own : {A : Type 0} → Named A → Text → Option A
own [] name = none
own ((key, a) ∷ members) name =
    let later = own members name in if same_text key name then some a else later

-- the members of Object.prototype
abbrev pub inherited : List Text
inherited =
    codes "constructor"
    ∷ codes "toString"
    ∷ codes "toLocaleString"
    ∷ codes "valueOf"
    ∷ codes "hasOwnProperty"
    ∷ codes "isPrototypeOf"
    ∷ codes "propertyIsEnumerable"
    ∷ codes "__proto__"
    ∷ codes "__defineGetter__"
    ∷ codes "__defineSetter__"
    ∷ codes "__lookupGetter__"
    ∷ codes "__lookupSetter__"
    ∷ []

abbrev pub is_inherited : Text → Bool
is_inherited name = any (λ key. same_text key name) inherited

unfoldable pub arity_fits : Arity → ℕ → Bool
arity_fits (exactly n) got = got == n
arity_fits (between least most) got = not (ltb got least) && not (ltb most got)

module _ {F : Type 0} (num : Numbers F) where
  unfoldable pub apply_binary : BinaryOp → F → F → Eval F
  apply_binary add l r = value (num.plus l r)
  apply_binary sub l r = value (num.minus l r)
  apply_binary mul l r = value (num.times l r)
  apply_binary div l r = if num.is_zero r then fault division_by_zero else value (num.over l r)
  apply_binary rem l r = if num.is_zero r then fault modulo_by_zero else value (num.modulo l r)
  apply_binary pow l r =
      let result = num.power l r in
      if num.is_nan result && (num.is_finite l && num.is_finite r)
      then fault undefined_power
      else value result

  abbrev pub apply_unary : UnaryOp → F → F
  apply_unary positive v = v
  apply_unary negative v = num.negate v

  abbrev pub or_domain_error : Option F → Eval F
  or_domain_error none = fault domain_error
  or_domain_error (some v) = value v

  abbrev pub constant : Text → Option F → Eval F
  constant name none = fault (unknown_identifier name)
  constant name (some v) = value v

  unfoldable pub variable : Named F → Text → Option F → Eval F
  variable constants name none = constant name (own constants name)
  variable constants name (some v) =
      if num.is_finite v then value v else fault (not_finite_variable name)

  unfoldable pub apply_builtin : Text → Builtin F → List F → Eval F
  apply_builtin name def args =
      if arity_fits def.arity (length args)
      then or_domain_error (def.impl args)
      else fault (wrong_arity name)

  -- `builtins[name]`, with the arguments evaluated where there is one; an inherited member has no
  -- arity, and the read of its bounds throws a TypeError
  unfoldable pub call_named : Text → Option (Builtin F) → Eval (List F) → Eval F
  call_named name (some def) args = and_then args (λ vs. apply_builtin name def vs)
  call_named name none args =
      if is_inherited name
      then and_then args (λ vs. fault type_error)
      else fault (unknown_function name)

  unfoldable mutual
    pub evaluate : EvalEnv F → AstNode F → Eval F
    evaluate env (literal v) = value v
    evaluate env (identifier name) = variable env.constants name (own env.variables name)
    evaluate env (binary op left right) =
        and_then (evaluate env left) (λ l. and_then (evaluate env right) (λ r. apply_binary op l r))
    evaluate env (unary op operand) =
        and_then (evaluate env operand) (λ v. value (apply_unary op v))
    evaluate env (factorial operand) =
        and_then (evaluate env operand) (λ v. or_domain_error (num.fact v))
    evaluate env (call name args) = call_named name (own env.builtins name) (evaluate_args env args)

    pub evaluate_args : EvalEnv F → Args F → Eval (List F)
    evaluate_args env no_args = value []
    evaluate_args env (arg a others) =
        and_then (evaluate env a) (λ v. and_then (evaluate_args env others) (λ vs. value (v ∷ vs)))

  -- `{ ...baseVars, [variable]: x }`
  unfoldable pub with_variable : Named F → Text → F → Named F
  with_variable [] name x = (name, x) ∷ []
  with_variable ((key, v) ∷ members) name x =
      let later = with_variable members name x in
      if same_text key name then (key, x) ∷ members else (key, v) ∷ later

  unfoldable pub compile_single_variable : AstNode F → Text → EvalEnv F → F → Eval F
  compile_single_variable ast name env x =
      evaluate (record env { variables = with_variable env.variables name x }) ast

-- Set.add, in the order of insertion
unfoldable pub insert : Text → List Text → List Text
insert name [] = name ∷ []
insert name (key ∷ names) =
    let later = insert name names in if same_text key name then key ∷ names else key ∷ later

unfoldable mutual
  pub collect_identifiers : {F : Type 0} → AstNode F → List Text → List Text
  collect_identifiers (literal v) into = into
  collect_identifiers (identifier name) into = insert name into
  collect_identifiers (binary op left right) into =
      collect_identifiers right (collect_identifiers left into)
  collect_identifiers (unary op operand) into = collect_identifiers operand into
  collect_identifiers (factorial operand) into = collect_identifiers operand into
  collect_identifiers (call name args) into = collect_from_args args into

  pub collect_from_args : {F : Type 0} → Args F → List Text → List Text
  collect_from_args no_args into = into
  collect_from_args (arg a others) into = collect_from_args others (collect_identifiers a into)
