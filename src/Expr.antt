-- ===== src/Expr.antt =====
-- src/shared/math/expr/parser.ts: the data of the expression parser. A source is the list of its
-- UTF-16 code units. The limits are those of the source.
pub mod Tokenizer
pub mod Parser
pub mod Evaluator
pub mod Calculator
mod Tests
use emcp.Prelude.{ℕ, List}

abbrev pub max_expression_length : ℕ
max_expression_length = 2000

abbrev pub max_token_count : ℕ
max_token_count = 1000

abbrev pub max_parse_depth : ℕ
max_parse_depth = 100

abbrev pub Text : Type 0
Text = List ℕ

pub data TokenKind : Type 0 where
  number ident plus minus star slash percent caret bang lparen rparen comma : TokenKind

pub record Token : Type 0 where
  pub kind : TokenKind
  pub value : Text
  pub start : ℕ
  pub end : ℕ

pub data Reason : Type 0 where
  too_long unexpected_character malformed_number too_many_tokens too_deep expected_rparen
        unexpected_end unexpected_token not_finite empty_expression :
      Reason

-- A `ParseError`: its message is told by the reason, its position kept.
pub record ParseError : Type 0 where
  pub reason : Reason
  pub position : ℕ

-- What a call returns or throws.
pub data Result (A : Type 0) : Type 0 where
  returns : A → Result A
  throws : ParseError → Result A

infixl 5 ◌>>=◌
abbrev pub ◌>>=◌ : {A B : Type 0} → Result A → (A → Result B) → Result B
returns a >>= k = k a
throws e >>= k = throws e

abbrev pub fail : {A : Type 0} → Reason → ℕ → Result A
fail reason position = throws (record { reason = reason; position = position })
