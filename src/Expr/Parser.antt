-- ===== src/Expr/Parser.antt =====
-- The class `Parser` of src/shared/math/expr/parser.ts. The tokens that are left stand for `pos`,
-- and the number of further calls of `enter` that the depth allows for `depth`: a call that is one
-- deeper takes the parsers one level `below`, which are built by recursion on it. The loops over
-- operators are bounded by the number of tokens, as each turn takes one. `Number` and its test
-- `isFinite` are `to_number`.
pub mod Printed
pub mod Steps
pub mod Levels
pub mod Family
pub mod Operators
pub mod Opens
pub mod RoundTrip
use emcp.Prelude.{
  ℕ, zero, suc, Bool, true, false, Option, none, some, List, [], ◌∷◌, if◌then◌else◌, length,
}
use emcp.Expr.{
  max_parse_depth, Text, TokenKind, number, ident, plus, minus, star, slash, percent, caret, bang,
  lparen, rparen, comma, Token, too_deep, expected_rparen, unexpected_end, unexpected_token,
  not_finite, empty_expression, Result, returns, ◌>>=◌, fail,
}
use emcp.Expr.Tokenizer.{tokenize}

pub data BinaryOp : Type 0 where
  add sub mul div rem pow : BinaryOp

pub data UnaryOp : Type 0 where
  positive negative : UnaryOp

mutual
  pub data AstNode (F : Type 0) : Type 0 where
    literal : F → AstNode F
    identifier : Text → AstNode F
    binary : BinaryOp → AstNode F → AstNode F → AstNode F
    unary : UnaryOp → AstNode F → AstNode F
    factorial : AstNode F → AstNode F
    call : Text → Args F → AstNode F

  pub data Args (F : Type 0) : Type 0 where
    no_args : Args F
    arg : AstNode F → Args F → Args F

-- the operators that the loops and `parseUnary` look for
unfoldable pub additive_op : TokenKind → Option BinaryOp
additive_op plus = some add
additive_op minus = some sub
additive_op _ = none

unfoldable pub multiplicative_op : TokenKind → Option BinaryOp
multiplicative_op star = some mul
multiplicative_op slash = some div
multiplicative_op percent = some rem
multiplicative_op _ = none

unfoldable pub unary_op : TokenKind → Option UnaryOp
unary_op plus = some positive
unary_op minus = some negative
unary_op _ = none

unfoldable pub is_kind : TokenKind → TokenKind → Bool
is_kind bang bang = true
is_kind caret caret = true
is_kind lparen lparen = true
is_kind rparen rparen = true
is_kind comma comma = true
is_kind _ _ = false

-- `eat`: the tokens behind one of the kind, if it is there
unfoldable pub eat : TokenKind → List Token → Option (List Token)
eat kind [] = none
eat kind (t ∷ ts) = if is_kind kind t.kind then some ts else none

module _ (source_length : ℕ) where
  -- `this.peek()?.start ?? this.source.length`
  unfoldable pub position_of : List Token → ℕ
  position_of [] = source_length
  position_of (t ∷ ts) = t.start

  unfoldable pub expect_rparen : List Token → Result (List Token)
  expect_rparen ts = elim (eat rparen ts) [
    | none ↦ fail expected_rparen (position_of ts)
    | some rest ↦ returns rest
  ]

module _ (F : Type 0) where
  abbrev pub Parse : Type 0
  Parse = List Token → Result (AstNode F × List Token)

  -- The parsers one call of `enter` deeper; `nested` is `parseExpression` after an `enter`.
  pub record Below : Type 0 where
    pub expression : Parse
    pub unary_operand : Parse
    pub nested : Parse

module _ {F : Type 0} (to_number : Text → Option F) (source_length : ℕ) where
  unfoldable pub parse_literal : Token → List Token → Option F → Result (AstNode F × List Token)
  parse_literal t ts none = fail not_finite t.start
  parse_literal t ts (some v) = returns (literal v, ts)

  module _ (b : Below F) where
    -- the arguments after the first token of a list that is not empty, up to the parenthesis
    unfoldable pub parse_args : ℕ → List Token → Result (Args F × List Token)
    parse_args zero ts = fail expected_rparen (position_of source_length ts)
    parse_args (suc rounds) ts = b.nested ts >>= λ (a, after). elim (eat comma after) [
      | some rest ↦ parse_args rounds rest >>= λ (others, end). returns (arg a others, end)
      | none ↦ expect_rparen source_length after >>= λ end. returns (arg a no_args, end)
    ]

    unfoldable pub parse_call : Text → List Token → Result (AstNode F × List Token)
    parse_call name ts = elim (eat rparen ts) [
      | some rest ↦ returns (call name no_args, rest)
      | none ↦ parse_args (length ts) ts >>= λ (args, rest). returns (call name args, rest)
    ]

    unfoldable pub parse_token : Token → TokenKind → Parse F
    parse_token t number ts = parse_literal t ts (to_number t.value)
    parse_token t lparen ts = b.nested ts >>= λ (inner, after).
        expect_rparen source_length after >>= λ rest. returns (inner, rest)
    parse_token t ident ts = elim (eat lparen ts) [
      | some rest ↦ parse_call t.value rest
      | none ↦ returns (identifier t.value, ts)
    ]
    parse_token t _ ts = fail unexpected_token t.start

    unfoldable pub parse_atom : Parse F
    parse_atom [] = fail unexpected_end source_length
    parse_atom (t ∷ ts) = parse_token t t.kind ts

    unfoldable pub parse_power : Parse F
    parse_power ts = parse_atom ts >>= λ (base, after). elim (eat caret after) [
      | some rest ↦
          b.unary_operand rest >>= λ (exponent, end). returns (binary pow base exponent, end)
      | none ↦ returns (base, after)
    ]

    unfoldable pub postfix_rest : ℕ → AstNode F → Parse F
    postfix_rest zero node ts = returns (node, ts)
    postfix_rest (suc rounds) node ts = elim (eat bang ts) [
      | some rest ↦ postfix_rest rounds (factorial node) rest
      | none ↦ returns (node, ts)
    ]

    unfoldable pub parse_postfix : Parse F
    parse_postfix ts = parse_power ts >>= λ (node, rest). postfix_rest (length ts) node rest

    abbrev pub parse_signed : Token → List Token → Option UnaryOp → Result (AstNode F × List Token)
    parse_signed t ts none = parse_postfix (t ∷ ts)
    parse_signed t ts (some op) =
        b.unary_operand ts >>= λ (operand, rest). returns (unary op operand, rest)

    unfoldable pub parse_unary : Parse F
    parse_unary [] = parse_postfix []
    parse_unary (t ∷ ts) = parse_signed t ts (unary_op t.kind)

    unfoldable pub multiplicative_rest : ℕ → AstNode F → Parse F
    multiplicative_rest zero left ts = returns (left, ts)
    multiplicative_rest (suc rounds) left [] = returns (left, [])
    multiplicative_rest (suc rounds) left (t ∷ ts) = elim (multiplicative_op t.kind) [
      | none ↦ returns (left, t ∷ ts)
      | some op ↦
          parse_unary ts >>= λ (right, rest). multiplicative_rest rounds (binary op left right) rest
    ]

    unfoldable pub parse_multiplicative : Parse F
    parse_multiplicative ts =
        parse_unary ts >>= λ (left, rest). multiplicative_rest (length ts) left rest

    unfoldable pub additive_rest : ℕ → AstNode F → Parse F
    additive_rest zero left ts = returns (left, ts)
    additive_rest (suc rounds) left [] = returns (left, [])
    additive_rest (suc rounds) left (t ∷ ts) = elim (additive_op t.kind) [
      | none ↦ returns (left, t ∷ ts)
      | some op ↦ parse_multiplicative ts >>= λ (right, rest).
          additive_rest rounds (binary op left right) rest
    ]

    unfoldable pub parse_additive : Parse F
    parse_additive ts =
        parse_multiplicative ts >>= λ (left, rest). additive_rest (length ts) left rest

  unfoldable pub too_deep_here : Parse F
  too_deep_here ts = fail too_deep (position_of source_length ts)

  -- the parsers behind one more `enter`, while `left` more are allowed
  unfoldable pub below : ℕ → Below F
  below zero = record {
    expression = too_deep_here;
    unary_operand = too_deep_here;
    nested = too_deep_here;
  }
  below (suc left) =
      let deeper = below left in
      record {
        expression = parse_additive deeper;
        unary_operand = parse_unary deeper;
        nested = deeper.expression;
      }

  abbrev pub at_end : AstNode F → List Token → Result (AstNode F)
  at_end node [] = returns node
  at_end node (t ∷ ts) = fail unexpected_token t.start

  unfoldable pub parse_program : List Token → Result (AstNode F)
  parse_program ts = (below max_parse_depth).expression ts >>= λ (node, rest). at_end node rest

  abbrev pub parse_tokens : List Token → Result (AstNode F)
  parse_tokens [] = fail empty_expression 0
  parse_tokens (t ∷ ts) = parse_program (t ∷ ts)

unfoldable pub parse : {F : Type 0} → (Text → Option F) → Text → Result (AstNode F)
parse to_number source = tokenize source >>= parse_tokens to_number (length source)
