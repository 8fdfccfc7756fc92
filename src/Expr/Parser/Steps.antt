-- ===== src/Expr/Parser/Steps.antt =====
-- One step of each parser of src/shared/math/expr/parser.ts, from the next tighter one.
use emcp.Prelude.{
  ℕ, zero, suc, ◌≤◌, ◌≡◌, refl, ap, ◌∙◌, Option, none, some, List, [], ◌∷◌, length, arith,
}
use emcp.Expr.{
  Text, TokenKind, number, ident, plus, minus, star, slash, percent, caret, bang, lparen, rparen,
  comma, Token, Result, returns, ◌>>=◌,
}
use emcp.Expr.Parser.{
  BinaryOp, pow, UnaryOp, positive, negative, AstNode, literal, identifier, binary, unary,
  factorial, additive_op, multiplicative_op, unary_op, is_kind, eat, Below, parse_atom, parse_power,
  parse_token, parse_literal, expect_rparen, postfix_rest, parse_postfix, parse_unary,
  multiplicative_rest, parse_multiplicative, additive_rest, parse_additive,
}
use emcp.Expr.Parser.Printed.{token, op_kind, sign_kind}

-- What may follow a printed tree: closing tokens 0, signs of sums 1 and of products 2, `!` 3, `^` 4.
abbrev pub kind_rank : TokenKind → ℕ
kind_rank rparen = 0
kind_rank comma = 0
kind_rank plus = 1
kind_rank minus = 1
kind_rank star = 2
kind_rank slash = 2
kind_rank percent = 2
kind_rank bang = 3
kind_rank caret = 4
kind_rank _ = 5

abbrev pub follow : List Token → ℕ
follow [] = 0
follow (t ∷ ts) = kind_rank t.kind

no_call : (ts : List Token) → follow ts ≤ 4 → eat lparen ts ≡ none
unfolding eat is_kind
no_call [] h = refl
no_call (t ∷ ts) h = ground (arith, h)

no_caret : (ts : List Token) → follow ts ≤ 3 → eat caret ts ≡ none
unfolding eat is_kind
no_caret [] h = refl
no_caret (t ∷ ts) h = ground (arith, h)

no_bang : (ts : List Token) → follow ts ≤ 2 → eat bang ts ≡ none
unfolding eat is_kind
no_bang [] h = refl
no_bang (t ∷ ts) h = ground (arith, h)

-- a result handed on, where what follows it decides
pub after_result :
    {A B : Type 0} {r : Result A} {a : A} (k : A → Result B) → r ≡ returns a → (r >>= k) ≡ k a
after_result k h = ap (λ r. r >>= k) h

no_product : (k : TokenKind) → kind_rank k ≤ 1 → multiplicative_op k ≡ none
unfolding multiplicative_op
no_product k h = ground (arith, h)

no_sum : (k : TokenKind) → kind_rank k ≤ 0 → additive_op k ≡ none
unfolding additive_op
no_sum k h = ground (arith, h)

module _ {F : Type 0} (to_number : Text → Option F) (len : ℕ) (b : Below F) where
  pub power_step :
      (ts R : List Token) (e : AstNode F)
      → parse_atom to_number len b ts ≡ returns (e, R)
      → follow R ≤ 3
      → parse_power to_number len b ts ≡ returns (e, R)
  unfolding parse_power
  power_step ts R e h f = after_result _ h ∙ rw (no_caret R f) refl

  pub postfix_step :
      (ts R : List Token) (e : AstNode F)
      → parse_power to_number len b ts ≡ returns (e, R)
      → parse_postfix to_number len b ts ≡ postfix_rest to_number len b (length ts) e R
  unfolding parse_postfix
  postfix_step ts R e h = after_result _ h

  pub postfix_end :
      (k : ℕ) (R : List Token) (e : AstNode F)
      → follow R ≤ 2
      → postfix_rest to_number len b k e R ≡ returns (e, R)
  unfolding postfix_rest
  postfix_end zero R e f = refl
  postfix_end (suc k) R e f = rw (no_bang R f, postfix_rest) refl

  pub unary_step :
      (t : Token) (ts : List Token)
      → unary_op t.kind ≡ none
      → parse_unary to_number len b (t ∷ ts) ≡ parse_postfix to_number len b (t ∷ ts)
  unfolding parse_unary
  unary_step t ts h = rw h refl

  pub product_step :
      (ts R : List Token) (e : AstNode F)
      → parse_unary to_number len b ts ≡ returns (e, R)
      → parse_multiplicative to_number len b ts
        ≡ multiplicative_rest to_number len b (length ts) e R
  unfolding parse_multiplicative
  product_step ts R e h = after_result _ h

  pub product_end :
      (k : ℕ) (R : List Token) (e : AstNode F)
      → follow R ≤ 1
      → multiplicative_rest to_number len b k e R ≡ returns (e, R)
  unfolding multiplicative_rest multiplicative_op
  product_end zero R e f = refl
  product_end (suc k) [] e f = refl
  product_end (suc k) (t ∷ R) e f = rw (no_product t.kind f, multiplicative_rest) refl

  pub sum_step :
      (ts R : List Token) (e : AstNode F)
      → parse_multiplicative to_number len b ts ≡ returns (e, R)
      → parse_additive to_number len b ts ≡ additive_rest to_number len b (length ts) e R
  unfolding parse_additive
  sum_step ts R e h = after_result _ h

  pub sum_end :
      (k : ℕ) (R : List Token) (e : AstNode F)
      → follow R ≤ 0
      → additive_rest to_number len b k e R ≡ returns (e, R)
  unfolding additive_rest additive_op
  sum_end zero R e f = refl
  sum_end (suc k) [] e f = refl
  sum_end (suc k) (t ∷ R) e f = rw (no_sum t.kind f, additive_rest) refl

  pub power_op :
      (ts us R : List Token) (l r : AstNode F)
      → parse_atom to_number len b ts ≡ returns (l, token caret [] ∷ us)
      → b.unary_operand us ≡ returns (r, R)
      → parse_power to_number len b ts ≡ returns (binary pow l r, R)
  unfolding parse_power eat is_kind
  power_op ts us R l r h h' = after_result _ h ∙ after_result _ h'

  pub postfix_op :
      (k : ℕ) (R : List Token) (e : AstNode F)
      → postfix_rest to_number len b (suc k) e (token bang [] ∷ R)
        ≡ postfix_rest to_number len b k (factorial e) R
  unfolding postfix_rest eat is_kind
  postfix_op k R e = refl

  pub sign_op :
      (op : UnaryOp) (ts R : List Token) (e : AstNode F)
      → b.unary_operand ts ≡ returns (e, R)
      → parse_unary to_number len b (token (sign_kind op) [] ∷ ts) ≡ returns (unary op e, R)
  unfolding parse_unary unary_op
  sign_op positive ts R e h = after_result _ h
  sign_op negative ts R e h = after_result _ h

  pub product_op :
      (op : BinaryOp) (k : ℕ) (ts R : List Token) (l r : AstNode F)
      → multiplicative_op (op_kind op) ≡ some op
      → parse_unary to_number len b ts ≡ returns (r, R)
      → multiplicative_rest to_number len b (suc k) l (token (op_kind op) [] ∷ ts)
        ≡ multiplicative_rest to_number len b k (binary op l r) R
  unfolding multiplicative_rest
  product_op op k ts R l r known h = rw (known, multiplicative_rest) (after_result _ h)

  pub sum_op :
      (op : BinaryOp) (k : ℕ) (ts R : List Token) (l r : AstNode F)
      → additive_op (op_kind op) ≡ some op
      → parse_multiplicative to_number len b ts ≡ returns (r, R)
      → additive_rest to_number len b (suc k) l (token (op_kind op) [] ∷ ts)
        ≡ additive_rest to_number len b k (binary op l r) R
  unfolding additive_rest
  sum_op op k ts R l r known h = rw (known, additive_rest) (after_result _ h)

  pub nested_atom :
      (ts R : List Token) (e : AstNode F)
      → b.nested ts ≡ returns (e, token rparen [] ∷ R)
      → parse_atom to_number len b (token lparen [] ∷ ts) ≡ returns (e, R)
  unfolding parse_atom parse_token expect_rparen eat is_kind
  nested_atom ts R e h = after_result _ h

  pub literal_atom :
      (text : Text) (v : F) (R : List Token)
      → to_number text ≡ some v
      → parse_atom to_number len b (token number text ∷ R) ≡ returns (literal v, R)
  unfolding parse_atom parse_token parse_literal
  literal_atom text v R h = ap (parse_literal to_number len (token number text) R) h

  pub name_atom :
      (name : Text) (R : List Token)
      → follow R ≤ 4
      → parse_atom to_number len b (token ident name ∷ R) ≡ returns (identifier name, R)
  unfolding parse_atom parse_token
  name_atom name R f = rw (no_call R f, parse_atom, parse_token) refl
