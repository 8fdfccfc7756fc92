-- ===== src/Expr/Parser/Operators.antt =====
-- Operators between printed trees, as src/shared/math/expr/parser.ts reads them.
use emcp.Prelude.{
  ℕ, zero, suc, ◌-◌, ◌≤◌, ◌≡◌, ap, ◌∙◌, max, Option, some, List, [], ◌∷◌, ◌++◌, length,
  length-append, arith,
}
use emcp.Expr.{Text, bang, caret, Token}
use emcp.Expr.Parser.{
  BinaryOp, pow, UnaryOp, AstNode, binary, unary, factorial, additive_op, multiplicative_op,
  parse_power, parse_postfix, parse_multiplicative, parse_additive, below,
}
use emcp.Expr.Parser.Printed.{token, op_kind, sign_kind}
use emcp.Expr.Parser.Steps.{
  kind_rank, postfix_step, postfix_end, product_end, power_op, postfix_op, sign_op, product_op,
  sum_op,
}
use emcp.Expr.Parser.Levels.{
  append_assoc, AtomAt, PostfixAt, ClosedAt, UnaryAt, ProductAt, SumAt, unary_below,
}

module _ {F : Type 0} (to_number : Text → Option F) (len : ℕ) where
  -- a sign before an operand
  pub sign_case :
      (op : UnaryOp) (e : AstNode F) (w : List Token) (n : ℕ)
      → UnaryAt to_number len e w n
      → UnaryAt to_number len (unary op e) (token (sign_kind op) [] ∷ w) (suc n)
  sign_case op e w n h zero R deep f = elim deep [ ]
  sign_case op e w n h (suc left) R deep f =
      sign_op to_number len (below to_number len (suc left)) op (w ++ R) R e
        (unary_below to_number len left (w ++ R) ∙ h left R (omega (arith, deep)) f)

  -- a `!` behind an operand
  pub factorial_case :
      (e : AstNode F) (w : List Token) (n : ℕ)
      → PostfixAt to_number len e w n
      → PostfixAt to_number len (factorial e) (w ++ token bang [] ∷ []) n
  factorial_case e w n (s, short, h) = (
    suc s,
    omega (arith, short, length-append w (token bang [] ∷ [])),
    λ left k R deep f all.
        let b = below to_number len left in
        let same = append_assoc w (token bang [] ∷ []) R in
        ap (parse_postfix to_number len b) same
        ∙ h left (suc k) (token bang [] ∷ R) deep (omega arith) (omega (arith, all, ap length same))
        ∙ postfix_op to_number len b k R e,
  )

  module _ (op : BinaryOp) (l r : AstNode F) (x y : List Token) (n m : ℕ) where
    abbrev xs : List Token
    xs = x ++ (token (op_kind op) [] ∷ y)

    -- a product
    pub product_case :
        multiplicative_op (op_kind op) ≡ some op
        → kind_rank (op_kind op) ≤ 2
        → ProductAt to_number len l x n
        → UnaryAt to_number len r y m
        → ProductAt to_number len (binary op l r) xs (max n m)
    product_case known rank (s, short, h) h' = (
      suc s,
      omega (arith, short, length-append x (token (op_kind op) [] ∷ y)),
      λ left k R deep f all.
          let b = below to_number len left in
          let same = append_assoc x (token (op_kind op) [] ∷ y) R in
          ap (parse_multiplicative to_number len b) same
          ∙ h left (suc k) (token (op_kind op) [] ∷ (y ++ R)) (omega (arith, deep)) rank
              (omega (arith, all, ap length same))
          ∙ product_op to_number len b op k (y ++ R) R l r known
              (h' left R (omega (arith, deep)) f),
    )

    -- a sum
    pub sum_case :
        additive_op (op_kind op) ≡ some op
        → kind_rank (op_kind op) ≤ 1
        → SumAt to_number len l x n
        → ProductAt to_number len r y m
        → SumAt to_number len (binary op l r) xs (max n m)
    sum_case known rank (s, short, h) (s', short', h') = (
      suc s,
      omega (arith, short, length-append x (token (op_kind op) [] ∷ y)),
      λ left k R deep f all.
          let b = below to_number len left in
          let same = append_assoc x (token (op_kind op) [] ∷ y) R in
          let turns = length (y ++ R) - s' in
          ap (parse_additive to_number len b) same
          ∙ h left (suc k) (token (op_kind op) [] ∷ (y ++ R)) (omega (arith, deep)) rank
              (omega (arith, all, ap length same))
          ∙ sum_op to_number len b op k (y ++ R) R l r known (
              h' left turns R (omega (arith, deep)) (omega (arith, f))
                (omega (arith, short', length-append y R))
              ∙ product_end to_number len b turns R r f),
    )

  -- a power
  pub power_case :
      (l r : AstNode F) (x y : List Token) (n m : ℕ)
      → AtomAt to_number len l x n
      → UnaryAt to_number len r y m
      → ClosedAt to_number len (binary pow l r) (x ++ (token caret [] ∷ y)) (max n (suc m))
  power_case l r x y n m h h' zero R deep f = ground (arith, deep)
  power_case l r x y n m h h' (suc left) R deep f =
      let b = below to_number len (suc left) in
      let ts = (x ++ (token caret [] ∷ y)) ++ R in
      postfix_step to_number len b ts R (binary pow l r) (
        ap (parse_power to_number len b) (append_assoc x (token caret [] ∷ y) R)
        ∙ power_op to_number len b (x ++ (token caret [] ∷ (y ++ R))) (y ++ R) R l r
            (h (suc left) (token caret [] ∷ (y ++ R)) (omega (arith, deep)) (omega arith))
            (unary_below to_number len left (y ++ R) ∙ h' left R (omega (arith, deep)) f))
      ∙ postfix_end to_number len b (length ts) R (binary pow l r) f
