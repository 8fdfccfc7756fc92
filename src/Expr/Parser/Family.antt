-- ===== src/Expr/Parser/Family.antt =====
-- A printed tree of src/shared/math/expr/parser.ts at all levels of the grammar at once.
use emcp.Prelude.{ℕ, suc, refl, Option, List, [], ◌∷◌, ◌++◌}
use emcp.Expr.{Text, lparen, rparen, Token}
use emcp.Expr.Parser.{AstNode, unary_op}
use emcp.Expr.Parser.Printed.{token, wrap, level, print, wrap_depth, depth}
use emcp.Expr.Parser.Levels.{
  Starts, AtomAt, PostfixAt, ClosedAt, UnaryAt, ProductAt, SumAt, AtomAt-power, PowerAt-closed,
  PowerAt-postfix, PostfixAt-closed, ClosedAt-unary, UnaryAt-product, ProductAt-sum, SumAt-atom,
}

-- All that reads a tree: its tokens and depth at each level.
pub record Levels {F : Type 0} (to_number : Text → Option F) (len : ℕ) (e : AstNode F)
    (x5 x4 x2 x1 x0 : List Token) (n5 n4 n2 n1 n0 : ℕ) : Type 0 where
  pub atom : AtomAt to_number len e x5 n5
  pub starts_atom : Starts x5
  pub postfix : PostfixAt to_number len e x4 n4
  pub starts_postfix : Starts x4
  pub unary_at : UnaryAt to_number len e x2 n2
  pub product : ProductAt to_number len e x1 n1
  pub sum : SumAt to_number len e x0 n0

abbrev pub Family : {F : Type 0} → (Text → Option F) → ℕ → (F → Text) → AstNode F → Type 0
Family to_number len text e =
    let xs = print text e in
    let l = level e in
    let n = depth e in
    Levels to_number len e (wrap 5 l xs) (wrap 4 l xs) (wrap 2 l xs) (wrap 1 l xs) (wrap 0 l xs)
      (wrap_depth 5 l n) (wrap_depth 4 l n) (wrap_depth 2 l n) (wrap_depth 1 l n) (wrap_depth 0 l n)

-- the tokens and the depth in parentheses
abbrev pub closed_in : List Token → List Token
closed_in xs = token lparen [] ∷ (xs ++ token rparen [] ∷ [])

module _ {F : Type 0} (to_number : Text → Option F) (len : ℕ) (e : AstNode F) where
  -- what reads a product, and a sum, in the tokens `xs`
  abbrev pub ProductLevels : List Token → ℕ → Type 0
  ProductLevels xs n =
      let ys = closed_in xs in
      let m = suc (suc n) in Levels to_number len e ys ys ys xs xs m m m n n

  abbrev pub SumLevels : List Token → ℕ → Type 0
  SumLevels xs n =
      let ys = closed_in xs in
      let m = suc (suc n) in Levels to_number len e ys ys ys ys xs m m m m n

  Starts-closed : (xs : List Token) → Starts (closed_in xs)
  unfolding unary_op
  Starts-closed xs = (token lparen [], xs ++ token rparen [] ∷ [], refl, refl)

  pub atom-Levels :
      (xs : List Token) (n : ℕ)
      → Starts xs
      → AtomAt to_number len e xs n
      → Levels to_number len e xs xs xs xs xs n n n n n
  atom-Levels xs n s h =
      let power = AtomAt-power to_number len e xs n h in
      let un = ClosedAt-unary to_number len e xs n s (PowerAt-closed to_number len e xs n power) in
      let prod = UnaryAt-product to_number len e xs n un in
      record {
        atom = h;
        starts_atom = s;
        postfix = PowerAt-postfix to_number len e xs n power;
        starts_postfix = s;
        unary_at = un;
        product = prod;
        sum = ProductAt-sum to_number len e xs n prod;
      }

  module _ (xs : List Token) (n : ℕ) where
    abbrev ys : List Token
    ys = closed_in xs

    abbrev m : ℕ
    m = suc (suc n)

    -- in parentheses, once the tree is read as a sum
    closed-Levels : SumAt to_number len e xs n → Levels to_number len e ys ys ys ys ys m m m m m
    closed-Levels h = atom-Levels ys m (Starts-closed xs) (SumAt-atom to_number len e xs n h)

    pub sum-Levels : SumAt to_number len e xs n → Levels to_number len e ys ys ys ys xs m m m m n
    sum-Levels h =
        let c = closed-Levels h in
        record {
          atom = c.atom;
          starts_atom = c.starts_atom;
          postfix = c.postfix;
          starts_postfix = c.starts_postfix;
          unary_at = c.unary_at;
          product = c.product;
          sum = h;
        }

    pub product-Levels :
        ProductAt to_number len e xs n → Levels to_number len e ys ys ys xs xs m m m n n
    product-Levels h =
        let c = sum-Levels (ProductAt-sum to_number len e xs n h) in
        record {
          atom = c.atom;
          starts_atom = c.starts_atom;
          postfix = c.postfix;
          starts_postfix = c.starts_postfix;
          unary_at = c.unary_at;
          product = h;
          sum = c.sum;
        }

    pub unary-Levels :
        UnaryAt to_number len e xs n → Levels to_number len e ys ys xs xs xs m m n n n
    unary-Levels h =
        let c = product-Levels (UnaryAt-product to_number len e xs n h) in
        record {
          atom = c.atom;
          starts_atom = c.starts_atom;
          postfix = c.postfix;
          starts_postfix = c.starts_postfix;
          unary_at = h;
          product = c.product;
          sum = c.sum;
        }

    pub power-Levels :
        Starts xs → ClosedAt to_number len e xs n → Levels to_number len e ys ys xs xs xs m m n n n
    power-Levels s h = unary-Levels (ClosedAt-unary to_number len e xs n s h)

    pub postfix-Levels :
        Starts xs → PostfixAt to_number len e xs n → Levels to_number len e ys xs xs xs xs m n n n n
    postfix-Levels s h =
        let c =
          unary-Levels
            (ClosedAt-unary to_number len e xs n s (PostfixAt-closed to_number len e xs n h)) in
        record {
          atom = c.atom;
          starts_atom = c.starts_atom;
          postfix = h;
          starts_postfix = s;
          unary_at = c.unary_at;
          product = c.product;
          sum = c.sum;
        }
