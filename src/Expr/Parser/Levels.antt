-- ===== src/Expr/Parser/Levels.antt =====
-- From the parser of src/shared/math/expr/parser.ts that reads a printed tree to all the others:
-- the looser ones read it too, and the tighter ones read it in parentheses.
use emcp.Prelude.{
  ℕ, zero, suc, ◌+◌, ◌-◌, ◌≤◌, ◌≡◌, refl, ap, sym, ◌∙◌, Option, none, List, [], ◌∷◌, ◌++◌, length,
  length-append, arith,
}
use emcp.Expr.{Text, lparen, rparen, Token, returns}
use emcp.Expr.Parser.{
  AstNode, unary_op, parse_atom, parse_power, postfix_rest, parse_postfix, parse_unary,
  multiplicative_rest, parse_multiplicative, additive_rest, parse_additive, below,
}
use emcp.Expr.Parser.Printed.{token}
use emcp.Expr.Parser.Steps.{
  follow, power_step, postfix_step, postfix_end, unary_step, product_step, product_end, sum_step,
  sum_end, nested_atom,
}

pub append_assoc : {A : Type 0} (a b c : List A) → (a ++ b) ++ c ≡ a ++ (b ++ c)
append_assoc [] b c = refl
append_assoc (x ∷ a) b c = ap (λ r. x ∷ r) (append_assoc a b c)

-- printed tokens that begin with no sign
abbrev pub Starts : List Token → Type 0
Starts xs = (t : Token) × (ys : List Token) × (xs ≡ t ∷ ys) × (unary_op t.kind ≡ none)

module _ {F : Type 0} (to_number : Text → Option F) (len : ℕ) where
  -- The tokens `xs` are read as `e` where `n` more calls of `enter` are allowed. The loops have
  -- `k` turns left at the end of `xs`.
  abbrev pub AtomAt : AstNode F → List Token → ℕ → Type 0
  AtomAt e xs n =
      (left : ℕ) (R : List Token)
      → n ≤ left
      → follow R ≤ 4
      → parse_atom to_number len (below to_number len left) (xs ++ R) ≡ returns (e, R)

  abbrev pub PowerAt : AstNode F → List Token → ℕ → Type 0
  PowerAt e xs n =
      (left : ℕ) (R : List Token)
      → n ≤ left
      → follow R ≤ 3
      → parse_power to_number len (below to_number len left) (xs ++ R) ≡ returns (e, R)

  abbrev pub PostfixAt : AstNode F → List Token → ℕ → Type 0
  PostfixAt e xs n =
      (s : ℕ) × (s ≤ length xs)
      × ((left k : ℕ) (R : List Token)
          → n ≤ left
          → follow R ≤ 3
          → k + s ≡ length (xs ++ R)
          → parse_postfix to_number len (below to_number len left) (xs ++ R)
            ≡ postfix_rest to_number len (below to_number len left) k e R)

  abbrev pub ClosedAt : AstNode F → List Token → ℕ → Type 0
  ClosedAt e xs n =
      (left : ℕ) (R : List Token)
      → n ≤ left
      → follow R ≤ 2
      → parse_postfix to_number len (below to_number len left) (xs ++ R) ≡ returns (e, R)

  abbrev pub UnaryAt : AstNode F → List Token → ℕ → Type 0
  UnaryAt e xs n =
      (left : ℕ) (R : List Token)
      → n ≤ left
      → follow R ≤ 2
      → parse_unary to_number len (below to_number len left) (xs ++ R) ≡ returns (e, R)

  abbrev pub ProductAt : AstNode F → List Token → ℕ → Type 0
  ProductAt e xs n =
      (s : ℕ) × (s ≤ length xs)
      × ((left k : ℕ) (R : List Token)
          → n ≤ left
          → follow R ≤ 2
          → k + s ≡ length (xs ++ R)
          → parse_multiplicative to_number len (below to_number len left) (xs ++ R)
            ≡ multiplicative_rest to_number len (below to_number len left) k e R)

  abbrev pub SumAt : AstNode F → List Token → ℕ → Type 0
  SumAt e xs n =
      (s : ℕ) × (s ≤ length xs)
      × ((left k : ℕ) (R : List Token)
          → n ≤ left
          → follow R ≤ 1
          → k + s ≡ length (xs ++ R)
          → parse_additive to_number len (below to_number len left) (xs ++ R)
            ≡ additive_rest to_number len (below to_number len left) k e R)

module _ {F : Type 0} (to_number : Text → Option F) (len : ℕ) where
  -- what is two calls of `enter` deeper
  pub nested_below :
      (left : ℕ) (ts : List Token)
      → (below to_number len (suc (suc left))).nested ts
        ≡ parse_additive to_number len (below to_number len left) ts
  unfolding below
  nested_below left ts = refl

  pub unary_below :
      (left : ℕ) (ts : List Token)
      → (below to_number len (suc left)).unary_operand ts
        ≡ parse_unary to_number len (below to_number len left) ts
  unfolding below
  unary_below left ts = refl

module _ {F : Type 0} (to_number : Text → Option F) (len : ℕ) (e : AstNode F) (xs : List Token)
    (n : ℕ) where
  pub AtomAt-power : AtomAt to_number len e xs n → PowerAt to_number len e xs n
  AtomAt-power h left R deep f =
      power_step to_number len (below to_number len left) (xs ++ R) R e
        (h left R deep (omega (arith, f))) f

  pub PowerAt-closed : PowerAt to_number len e xs n → ClosedAt to_number len e xs n
  PowerAt-closed h left R deep f =
      let b = below to_number len left in
      postfix_step to_number len b (xs ++ R) R e (h left R deep (omega (arith, f)))
      ∙ postfix_end to_number len b (length (xs ++ R)) R e f

  pub PowerAt-postfix : PowerAt to_number len e xs n → PostfixAt to_number len e xs n
  PowerAt-postfix h = (
    0,
    omega arith,
    λ left k R deep f all.
        let b = below to_number len left in
        postfix_step to_number len b (xs ++ R) R e (h left R deep f)
        ∙ ap (λ i. postfix_rest to_number len b i e R) (omega (arith, all)),
  )

  pub PostfixAt-closed : PostfixAt to_number len e xs n → ClosedAt to_number len e xs n
  PostfixAt-closed (s, short, h) left R deep f =
      let b = below to_number len left in
      let k = length (xs ++ R) - s in
      h left k R deep (omega (arith, f)) (omega (arith, short, length-append xs R))
      ∙ postfix_end to_number len b k R e f

  pub ClosedAt-unary : Starts xs → ClosedAt to_number len e xs n → UnaryAt to_number len e xs n
  ClosedAt-unary (t, ys, begins, signless) h left R deep f =
      let b = below to_number len left in
      ap (λ zs. parse_unary to_number len b (zs ++ R)) begins
      ∙ unary_step to_number len b t (ys ++ R) signless
      ∙ sym (ap (λ zs. parse_postfix to_number len b (zs ++ R)) begins)
      ∙ h left R deep f

  pub UnaryAt-product : UnaryAt to_number len e xs n → ProductAt to_number len e xs n
  UnaryAt-product h = (
    0,
    omega arith,
    λ left k R deep f all.
        let b = below to_number len left in
        product_step to_number len b (xs ++ R) R e (h left R deep f)
        ∙ ap (λ i. multiplicative_rest to_number len b i e R) (omega (arith, all)),
  )

  pub ProductAt-sum : ProductAt to_number len e xs n → SumAt to_number len e xs n
  ProductAt-sum (s, short, h) = (
    0,
    omega arith,
    λ left k R deep f all.
        let b = below to_number len left in
        let turns = length (xs ++ R) - s in
        sum_step to_number len b (xs ++ R) R e (
          h left turns R deep (omega (arith, f)) (omega (arith, short, length-append xs R))
          ∙ product_end to_number len b turns R e f)
        ∙ ap (λ i. additive_rest to_number len b i e R) (omega (arith, all)),
  )

  -- a sum up to a token that closes it
  pub SumAt-closed :
      SumAt to_number len e xs n
      → (left : ℕ) (R : List Token) → n ≤ left
      → follow R ≤ 0
      → parse_additive to_number len (below to_number len left) (xs ++ R) ≡ returns (e, R)
  SumAt-closed (s, short, h) left R deep f =
      let k = length (xs ++ R) - s in
      h left k R deep (omega (arith, f)) (omega (arith, short, length-append xs R))
      ∙ sum_end to_number len (below to_number len left) k R e f

  -- in parentheses
  pub SumAt-atom :
      SumAt to_number len e xs n
      → AtomAt to_number len e (token lparen [] ∷ (xs ++ token rparen [] ∷ [])) (suc (suc n))
  SumAt-atom h zero R deep f = elim deep [ ]
  SumAt-atom h (suc zero) R deep f = ground (arith, deep)
  SumAt-atom h (suc (suc left)) R deep f =
      nested_atom to_number len (below to_number len (suc (suc left)))
        ((xs ++ token rparen [] ∷ []) ++ R) R e
        (nested_below to_number len left ((xs ++ token rparen [] ∷ []) ++ R)
          ∙ ap (λ ts. parse_additive to_number len (below to_number len left) ts)
              (append_assoc xs (token rparen [] ∷ []) R)
          ∙ SumAt-closed h left (token rparen [] ∷ R) (omega (arith, deep)) (omega arith))
