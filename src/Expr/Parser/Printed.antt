-- ===== src/Expr/Parser/Printed.antt =====
-- The trees of src/shared/math/expr/parser.ts printed with the fewest parentheses that its grammar
-- asks for, and the depth that the parser then reaches.
use emcp.Prelude.{ℕ, zero, suc, max, List, [], ◌∷◌, ◌++◌, leb, if◌then◌else◌}
use emcp.Expr.{
  Text, TokenKind, number, ident, plus, minus, star, slash, percent, caret, bang, lparen, rparen,
  comma, Token,
}
use emcp.Expr.Parser.{
  BinaryOp, add, sub, mul, div, rem, pow, UnaryOp, positive, negative, AstNode, literal, identifier,
  binary, unary, factorial, call, Args, no_args, arg,
}

-- Positions are read by errors only.
abbrev pub token : TokenKind → Text → Token
token k value = record { kind = k; value = value; start = 0; end = 0 }

abbrev pub op_kind : BinaryOp → TokenKind
op_kind add = plus
op_kind sub = minus
op_kind mul = star
op_kind div = slash
op_kind rem = percent
op_kind pow = caret

abbrev pub sign_kind : UnaryOp → TokenKind
sign_kind positive = plus
sign_kind negative = minus

-- How tightly a tree holds together: sums 0, products 1, signs 2, powers 3, factorials 4, atoms 5;
-- and what an operand must have to stand without parentheses.
abbrev pub op_level : BinaryOp → ℕ
op_level add = 0
op_level sub = 0
op_level pow = 3
op_level _ = 1

abbrev pub left_level : BinaryOp → ℕ
left_level add = 0
left_level sub = 0
left_level pow = 5
left_level _ = 1

abbrev pub right_level : BinaryOp → ℕ
right_level add = 1
right_level sub = 1
right_level _ = 2

-- the calls of `enter` before the right operand
abbrev pub right_depth : BinaryOp → ℕ → ℕ
right_depth pow n = suc n
right_depth _ n = n

module _ {F : Type 0} where
  abbrev pub level : AstNode F → ℕ
  level (binary op l r) = op_level op
  level (unary op e) = 2
  level (factorial e) = 4
  level _ = 5

abbrev pub wrap : ℕ → ℕ → List Token → List Token
wrap zero own ts = ts
wrap (suc least) own ts =
    if leb (suc least) own then ts else token lparen [] ∷ (ts ++ token rparen [] ∷ [])

abbrev pub wrap_depth : ℕ → ℕ → ℕ → ℕ
wrap_depth zero own n = n
wrap_depth (suc least) own n = if leb (suc least) own then n else suc (suc n)

module _ {F : Type 0} (literal_text : F → Text) where
  unfoldable mutual
    pub print : AstNode F → List Token
    print (literal v) = token number (literal_text v) ∷ []
    print (identifier name) = token ident name ∷ []
    print (binary op l r) =
        wrap (left_level op) (level l) (print l)
        ++ (token (op_kind op) [] ∷ wrap (right_level op) (level r) (print r))
    print (unary op e) = token (sign_kind op) [] ∷ wrap 2 (level e) (print e)
    print (factorial e) = wrap 4 (level e) (print e) ++ token bang [] ∷ []
    print (call name no_args) = token ident name ∷ token lparen [] ∷ token rparen [] ∷ []
    print (call name (arg e es)) = token ident name ∷ token lparen [] ∷ (print e ++ print_more es)

    -- the arguments after one, with the parenthesis that closes them
    pub print_more : Args F → List Token
    print_more no_args = token rparen [] ∷ []
    print_more (arg e es) = token comma [] ∷ (print e ++ print_more es)

module _ {F : Type 0} where
  unfoldable mutual
    pub depth : AstNode F → ℕ
    depth (binary op l r) =
        max (wrap_depth (left_level op) (level l) (depth l))
          (right_depth op (wrap_depth (right_level op) (level r) (depth r)))
    depth (unary op e) = suc (wrap_depth 2 (level e) (depth e))
    depth (factorial e) = wrap_depth 4 (level e) (depth e)
    depth (call name es) = args_depth es
    depth _ = 0

    pub args_depth : Args F → ℕ
    args_depth no_args = 0
    args_depth (arg e es) = max (suc (suc (depth e))) (args_depth es)
