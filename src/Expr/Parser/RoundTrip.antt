-- ===== src/Expr/Parser/RoundTrip.antt =====
-- Printing a tree and parsing it with src/shared/math/expr/parser.ts gives the tree.
use emcp.Prelude.{
  ℕ, zero, suc, ◌≤◌, ◌<◌, ◌≡◌, refl, ap, sym, ◌∙◌, max, Option, some, List, [], ◌∷◌, ◌++◌, length,
  length-append, arith,
}
use emcp.Expr.{Text, number, ident, bang, caret, lparen, rparen, Token, returns, max_parse_depth}
use emcp.Expr.Parser.{
  BinaryOp, add, sub, mul, div, rem, pow, AstNode, literal, identifier, binary, unary, factorial,
  call, Args, no_args, arg, additive_op, multiplicative_op, unary_op, is_kind, eat, expect_rparen,
  parse_args, parse_call, parse_token, parse_atom, parse_additive, below, parse_program,
}
use emcp.Expr.Parser.Printed.{
  token, wrap, level, op_kind, sign_kind, print, print_more, depth, args_depth, wrap_depth,
}
use emcp.Expr.Parser.Steps.{kind_rank, literal_atom, name_atom, after_result}
use emcp.Expr.Parser.Levels.{append_assoc, UnaryAt, ProductAt, SumAt, SumAt-closed, nested_below}
use emcp.Expr.Parser.Opens.{
  Opens, append_Opens, append_Starts, print-Opens, append_nil, no_rparen, count, count_more,
}
use emcp.Expr.Parser.Family.{
  Family, ProductLevels, SumLevels, atom-Levels, sum-Levels, product-Levels, unary-Levels,
  power-Levels, postfix-Levels,
}
use emcp.Expr.Parser.Operators.{sign_case, factorial_case, product_case, sum_case, power_case}

module _ {F : Type 0} (to_number : Text → Option F) (len : ℕ) (text : F → Text)
    (reads : (v : F) → to_number (text v) ≡ some v) where
  call_step :
      (name : Text) (ts R : List Token) (args : Args F) (left : ℕ)
      → Opens ts
      → parse_args to_number len (below to_number len left) (length ts) ts ≡ returns (args, R)
      → parse_atom to_number len
          (below to_number len left)
          (token ident name ∷ token lparen [] ∷ ts)
        ≡ returns (call name args, R)
  unfolding parse_atom parse_token parse_call eat is_kind
  call_step name ts R args left opens h = rw (no_rparen ts opens, parse_call) (after_result _ h)

  empty_call :
      (name : Text) (R : List Token) (left : ℕ)
      → parse_atom to_number len
          (below to_number len left)
          (token ident name ∷ token lparen [] ∷ token rparen [] ∷ R)
        ≡ returns (call name no_args, R)
  unfolding parse_atom parse_token parse_call eat is_kind
  empty_call name R left = refl

  -- the products of three operators, and the sums of two
  module _ (op : BinaryOp) (l r : AstNode F) where
    abbrev left_tokens : ℕ → List Token
    left_tokens least = wrap least (level l) (print text l)

    abbrev right_tokens : ℕ → List Token
    right_tokens least = wrap least (level r) (print text r)

    abbrev left_depth : ℕ → ℕ
    left_depth least = wrap_depth least (level l) (depth l)

    abbrev right_depth : ℕ → ℕ
    right_depth least = wrap_depth least (level r) (depth r)

    products :
        multiplicative_op (op_kind op) ≡ some op
        → kind_rank (op_kind op) ≤ 2
        → ProductAt to_number len l (left_tokens 1) (left_depth 1)
        → UnaryAt to_number len r (right_tokens 2) (right_depth 2)
        → ProductLevels to_number len
            (binary op l r)
            (left_tokens 1 ++ (token (op_kind op) [] ∷ right_tokens 2))
            (max (left_depth 1) (right_depth 2))
    products known rank h h' = product-Levels to_number len (binary op l r) _ _ (
        product_case to_number len op l r (left_tokens 1) (right_tokens 2) (left_depth 1)
          (right_depth 2) known rank h h')

    sums :
        additive_op (op_kind op) ≡ some op
        → kind_rank (op_kind op) ≤ 1
        → SumAt to_number len l (left_tokens 0) (left_depth 0)
        → ProductAt to_number len r (right_tokens 1) (right_depth 1)
        → SumLevels to_number len
            (binary op l r)
            (left_tokens 0 ++ (token (op_kind op) [] ∷ right_tokens 1))
            (max (left_depth 0) (right_depth 1))
    sums known rank h h' = sum-Levels to_number len (binary op l r) _ _ (
        sum_case to_number len op l r (left_tokens 0) (right_tokens 1) (left_depth 0)
          (right_depth 1) known rank h h')

  mutual
    unfolding print depth parse_args eat is_kind expect_rparen count additive_op multiplicative_op
        unary_op

    -- the arguments from one on, which is read as a sum
    args_read :
        (es : Args F) (e : AstNode F) (left rounds : ℕ) (R : List Token)
        → SumAt to_number len e (print text e) (depth e)
        → suc (suc (depth e)) ≤ left
        → args_depth es ≤ left
        → suc (count es) ≤ rounds
        → parse_args to_number len
            (below to_number len left)
            rounds
            (print text e ++ (print_more text es ++ R))
          ≡ returns (arg e es, R)
    args_read es e zero rounds R h deep few turns = elim deep [ ]
    args_read es e (suc zero) rounds R h deep few turns = ground (arith, deep)
    args_read es e (suc (suc left)) zero R h deep few turns = elim turns [ ]
    args_read no_args e (suc (suc left)) (suc rounds) R h deep few turns = after_result _ (
        nested_below to_number len left (print text e ++ (print_more text no_args ++ R))
        ∙ SumAt-closed to_number len e (print text e) (depth e) h left
            (print_more text no_args ++ R) (omega (arith, deep)) (omega arith))
    args_read (arg e' es) e (suc (suc left)) (suc rounds) R h deep few turns =
        after_result _ (
          nested_below to_number len left (print text e ++ (print_more text (arg e' es) ++ R))
          ∙ SumAt-closed to_number len e (print text e) (depth e) h left
              (print_more text (arg e' es) ++ R) (omega (arith, deep)) (omega arith))
        ∙ after_result _ (
            ap (parse_args to_number len (below to_number len (suc (suc left))) rounds)
              (append_assoc (print text e') (print_more text es) R)
            ∙ args_read es e' (suc (suc left)) rounds R (family e').sum (omega (arith, few))
                (omega (arith, few)) (omega (arith, turns)))

    family : (e : AstNode F) → Family to_number len text e
    family (literal v) =
        atom-Levels to_number len (literal v) (token number (text v) ∷ []) 0
          (token number (text v), [], refl, refl)
          (λ left R deep f.
            literal_atom to_number len (below to_number len left) (text v) v R (reads v))
    family (identifier name) =
        atom-Levels to_number len (identifier name) (token ident name ∷ []) 0
          (token ident name, [], refl, refl)
          (λ left R deep f. name_atom to_number len (below to_number len left) name R f)
    family (unary op e) =
        let w = wrap 2 (level e) (print text e) in
        let n = wrap_depth 2 (level e) (depth e) in
        unary-Levels to_number len (unary op e) (token (sign_kind op) [] ∷ w) (suc n)
          (sign_case to_number len op e w n (family e).unary_at)
    family (factorial e) =
        let w = wrap 4 (level e) (print text e) in
        let n = wrap_depth 4 (level e) (depth e) in
        let h = family e in
        postfix-Levels to_number len (factorial e) (w ++ token bang [] ∷ []) n
          (append_Starts w (token bang [] ∷ []) h.starts_postfix)
          (factorial_case to_number len e w n h.postfix)
    family (binary pow l r) =
        let x = wrap 5 (level l) (print text l) in
        let y = wrap 2 (level r) (print text r) in
        let n = wrap_depth 5 (level l) (depth l) in
        let m = wrap_depth 2 (level r) (depth r) in
        let h = family l in
        power-Levels to_number len (binary pow l r) (x ++ (token caret [] ∷ y)) (max n (suc m))
          (append_Starts x (token caret [] ∷ y) h.starts_atom)
          (power_case to_number len l r x y n m h.atom (family r).unary_at)
    family (binary mul l r) =
        products mul l r refl (omega arith) (family l).product (family r).unary_at
    family (binary div l r) =
        products div l r refl (omega arith) (family l).product (family r).unary_at
    family (binary rem l r) =
        products rem l r refl (omega arith) (family l).product (family r).unary_at
    family (binary add l r) = sums add l r refl (omega arith) (family l).sum (family r).product
    family (binary sub l r) = sums sub l r refl (omega arith) (family l).sum (family r).product
    family (call name no_args) =
        atom-Levels to_number len (call name no_args)
          (token ident name ∷ token lparen [] ∷ token rparen [] ∷ []) 0
          (token ident name, token lparen [] ∷ token rparen [] ∷ [], refl, refl)
          (λ left R deep f. empty_call name R left)
    family (call name (arg e es)) =
        let inner = print text e ++ print_more text es in
        atom-Levels to_number len (call name (arg e es))
          (token ident name ∷ token lparen [] ∷ inner) (max (suc (suc (depth e))) (args_depth es))
          (token ident name, token lparen [] ∷ inner, refl, refl)
          (λ left R deep f.
            let more = print_more text es ++ R in
            let ts = print text e ++ more in
            ap
              (λ us.
                parse_atom to_number len (below to_number len left)
                  (token ident name ∷ token lparen [] ∷ us))
              (append_assoc (print text e) (print_more text es) R)
            ∙ call_step name ts R (arg e es) left
                (append_Opens (print text e) more (print-Opens text e))
                (args_read es e left (length ts) R (family e).sum (omega (arith, deep))
                  (omega (arith, deep))
                  (omega (
                    arith,
                    count_more text es,
                    length-append (print text e) more,
                    length-append (print_more text es) R,
                  ))))

  -- If each literal has a text that `Number` reads back, a tree printed with the fewest parentheses,
  -- a factorial of a factorial with two signs, is parsed to the same tree, where its depth is less
  -- than the limit.
  pub parse_program-print :
      (e : AstNode F)
      → depth e < max_parse_depth
      → parse_program to_number len (print text e) ≡ returns e
  unfolding parse_program below
  parse_program-print e shallow = after_result _ (
      ap (parse_additive to_number len (below to_number len 99)) (sym (append_nil (print text e)))
      ∙ SumAt-closed to_number len e (print text e) (depth e) (family e).sum 99 []
          (omega (arith, shallow)) (omega arith))
