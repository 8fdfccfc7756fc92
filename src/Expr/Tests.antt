-- ===== src/Expr/Tests.antt =====
-- The expression parser of src/shared/math/expr/parser.ts on short sources, and witnesses.
use emcp.Prelude.{codes, ◌<◌, arith, ◌≤◌, ◌≡◌, refl, Option, some, List, [], ◌∷◌, length}
use emcp.Expr.{Text, Token, number, ident, caret, returns, fail, malformed_number, expected_rparen}
use emcp.Expr.Tokenizer.{
  is_whitespace, is_digit, is_ident_start, is_ident_cont, single_char_token, scan_while,
  starts_with, scan_fraction, scan_sign, scan_exponent, scan_number, next_token, push_bound,
  tokenize_from, tokenize,
}
use emcp.Expr.Tokenizer.Scan.{visible}
use emcp.Expr.Tokenizer.Covers.{values, Ordered, tokenize-visible}
use emcp.Expr.Parser.{
  AstNode, add, mul, pow, negative, literal, identifier, binary, unary, factorial, call, no_args,
  arg, additive_op, multiplicative_op, unary_op, is_kind, eat, position_of, expect_rparen,
  parse_literal, parse_args, parse_call, parse_token, parse_atom, parse_power, postfix_rest,
  parse_postfix, parse_unary, multiplicative_rest, parse_multiplicative, additive_rest,
  parse_additive, too_deep_here, below, parse_program, parse,
}
use emcp.Expr.Parser.Printed.{print, depth}
use emcp.Expr.Parser.RoundTrip.{parse_program-print}

abbrev keep : Text → Option Text
keep value = some value

all_expr : Unit {0}
unfolding is_whitespace is_digit is_ident_start is_ident_cont single_char_token scan_while
    starts_with scan_fraction scan_sign scan_exponent scan_number next_token push_bound
    tokenize_from tokenize additive_op multiplicative_op unary_op is_kind eat position_of
    expect_rparen parse_literal parse_args parse_call parse_token parse_atom parse_power
    postfix_rest parse_postfix parse_unary multiplicative_rest parse_multiplicative additive_rest
    parse_additive too_deep_here below parse_program parse
all_expr = tt

-- 1+2*3
parses_precedence :
    parse keep (49 ∷ 43 ∷ 50 ∷ 42 ∷ 51 ∷ [])
    ≡ returns (binary add (literal (49 ∷ [])) (binary mul (literal (50 ∷ [])) (literal (51 ∷ []))))
unfolding all_expr
parses_precedence = refl

-- -x^2! is -(x^(2!))
parses_power :
    parse keep (45 ∷ 120 ∷ 94 ∷ 50 ∷ 33 ∷ [])
    ≡ returns (unary negative (binary pow (identifier (120 ∷ [])) (factorial (literal (50 ∷ [])))))
unfolding all_expr
parses_power = refl

-- f(1, x) and its missing parenthesis
parses_call :
    parse keep (102 ∷ 40 ∷ 49 ∷ 44 ∷ 32 ∷ 120 ∷ 41 ∷ [])
    ≡ returns (call (102 ∷ []) (arg (literal (49 ∷ [])) (arg (identifier (120 ∷ [])) no_args)))
unfolding all_expr
parses_call = refl

misses_parenthesis : parse keep (40 ∷ 49 ∷ 43 ∷ 50 ∷ []) ≡ fail expected_rparen 4
unfolding all_expr
misses_parenthesis = refl

-- 1e+
misses_digits : tokenize (49 ∷ 101 ∷ 43 ∷ []) ≡ fail malformed_number 1
unfolding all_expr
misses_digits = refl

-- .5e-1 **x
abbrev tokens_read : List Token
tokens_read =
    record { kind = number; value = 46 ∷ 53 ∷ 101 ∷ 45 ∷ 49 ∷ []; start = 0; end = 5 }
    ∷ record { kind = caret; value = 42 ∷ 42 ∷ []; start = 6; end = 8 }
    ∷ record { kind = ident; value = 120 ∷ []; start = 8; end = 9 }
    ∷ []

abbrev text_read : Text
text_read = 46 ∷ 53 ∷ 101 ∷ 45 ∷ 49 ∷ 32 ∷ 42 ∷ 42 ∷ 120 ∷ []

reads_text : tokenize text_read ≡ returns tokens_read
unfolding all_expr
reads_text = refl

tokenize-visible_example :
    (values tokens_read ≡ visible text_read) × (length tokens_read ≤ 1000) × Ordered 0 tokens_read
tokenize-visible_example = tokenize-visible text_read tokens_read reads_text

-- f(x, 1) ^ -2! * (3 + 4)
abbrev tree : AstNode Text
tree =
    binary mul
      (binary pow
        (call (codes "f") (arg (identifier (codes "x")) (arg (literal (codes "1")) no_args)))
        (unary negative (factorial (literal (codes "2")))))
      (binary add (literal (codes "3")) (literal (codes "4")))

shallow : depth tree < 100
unfolding depth
shallow = omega arith

parse_program-print_example : parse_program keep 9 (print (λ v. v) tree) ≡ returns tree
parse_program-print_example = parse_program-print keep 9 (λ v. v) (λ v. refl) tree shallow
