-- ===== src/Expr/Evaluator/Identifiers.antt =====
-- The identifiers of a tree of src/shared/math/expr/parser.ts and what `collectIdentifiers` returns.
use emcp.Prelude.{subst, List, [], ◌∷◌, All, same_text, same_text_sound, if_cases}
use emcp.Expr.{Text}
use emcp.Expr.Parser.{
  AstNode, literal, identifier, binary, unary, factorial, call, Args, no_args, arg,
}
use emcp.Expr.Evaluator.{insert, collect_identifiers, collect_from_args}

-- a predicate of each identifier that is read, the names of calls left out
abbrev mutual
  pub Everywhere : {F : Type 0} → (Text → Type 0) → AstNode F → Type 0
  Everywhere P (literal v) = Unit
  Everywhere P (identifier name) = P name
  Everywhere P (binary op left right) = Everywhere P left × Everywhere P right
  Everywhere P (unary op operand) = Everywhere P operand
  Everywhere P (factorial operand) = Everywhere P operand
  Everywhere P (call name args) = EverywhereArgs P args

  pub EverywhereArgs : {F : Type 0} → (Text → Type 0) → Args F → Type 0
  EverywhereArgs P no_args = Unit
  EverywhereArgs P (arg a others) = Everywhere P a × EverywhereArgs P others

module _ (P : Text → Type 0) where
  insert-All : (name : Text) (names : List Text) → All P (insert name names) → P name × All P names
  unfolding insert
  insert-All name [] h = h
  insert-All name (key ∷ names) h =
      if_cases (λ l. All P l → P name × All P (key ∷ names)) (same_text key name)
        (λ same hs. (subst P (same_text_sound key name same) hs.0, hs))
        (λ other hs. let (p, ps) = insert-All name names hs.1 in (p, (hs.0, ps))) h

  mutual
    unfolding collect_identifiers

    -- what holds of all that is collected holds at each identifier, and of all that was there before
    pub collect_identifiers-Everywhere :
        {F : Type 0} (node : AstNode F) (into : List Text)
        → All P (collect_identifiers node into)
        → Everywhere P node × All P into
    collect_identifiers-Everywhere (literal v) into h = (tt, h)
    collect_identifiers-Everywhere (identifier name) into h = insert-All name into h
    collect_identifiers-Everywhere (binary op left right) into h =
        let (r, hs) = collect_identifiers-Everywhere right (collect_identifiers left into) h in
        let (l, before) = collect_identifiers-Everywhere left into hs in ((l, r), before)
    collect_identifiers-Everywhere (unary op operand) into h =
        collect_identifiers-Everywhere operand into h
    collect_identifiers-Everywhere (factorial operand) into h =
        collect_identifiers-Everywhere operand into h
    collect_identifiers-Everywhere (call name args) into h =
        collect_from_args-Everywhere args into h

    pub collect_from_args-Everywhere :
        {F : Type 0} (args : Args F) (into : List Text)
        → All P (collect_from_args args into)
        → EverywhereArgs P args × All P into
    collect_from_args-Everywhere no_args into h = (tt, h)
    collect_from_args-Everywhere (arg a others) into h =
        let (os, hs) = collect_from_args-Everywhere others (collect_identifiers a into) h in
        let (e, before) = collect_identifiers-Everywhere a into hs in ((e, os), before)
