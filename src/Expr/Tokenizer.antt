-- ===== src/Expr/Tokenizer.antt =====
-- `tokenize` of src/shared/math/expr/parser.ts. The rest of the source stands for the index `i`
-- into it; the loop is bounded by the length of the source, as each turn reads a code unit.
pub mod Scan
pub mod Covers
pub mod Places
use emcp.Prelude.{
  ℕ, zero, suc, ◌+◌, Bool, true, false, ◌||◌, ◌&&◌, not, Option, none, some, List, [], ◌∷◌, ◌++◌,
  ltb, leb, if◌then◌else◌, length, ◌==◌,
}
use emcp.Expr.{
  max_expression_length, max_token_count, Text, TokenKind, number, ident, plus, minus, star, slash,
  percent, caret, bang, lparen, rparen, comma, Token, Reason, too_long, unexpected_character,
  malformed_number, too_many_tokens, Result, returns, throws, ◌>>=◌, fail,
}

unfoldable pub is_whitespace : ℕ → Bool
is_whitespace c = c == 32 || (c == 9 || (c == 10 || c == 13))

unfoldable pub is_digit : ℕ → Bool
is_digit c = leb 48 c && leb c 57

unfoldable pub is_ident_start : ℕ → Bool
is_ident_start c = (leb 65 c && leb c 90) || ((leb 97 c && leb c 122) || c == 95)

unfoldable pub is_ident_cont : ℕ → Bool
is_ident_cont c = is_ident_start c || is_digit c

unfoldable pub single_char_token : ℕ → Option TokenKind
single_char_token c =
    if c == 43
    then some plus
    else if c == 45
    then some minus
    else if c == 42
    then some star
    else if c == 47
    then some slash
    else if c == 37
    then some percent
    else if c == 94
    then some caret
    else if c == 33
    then some bang
    else if c == 40
    then some lparen
    else if c == 41
    then some rparen
    else if c == 44
    then some comma
    else none

-- the loops `while (... is(source.charCodeAt(i))) i += 1`: what they pass over, and the rest
unfoldable pub scan_while : (ℕ → Bool) → Text → Text × Text
scan_while is [] = ([], [])
scan_while is (c ∷ cs) =
    let (passed, rest) = scan_while is cs in if is c then (c ∷ passed, rest) else ([], c ∷ cs)

unfoldable pub starts_with : (ℕ → Bool) → Text → Bool
starts_with is [] = false
starts_with is (c ∷ cs) = is c

-- the fractional part
unfoldable pub scan_fraction : Text → Text × Text
scan_fraction [] = ([], [])
scan_fraction (c ∷ cs) =
    let (digits, rest) = scan_while is_digit cs in
    if c == 46 then (c ∷ digits, rest) else ([], c ∷ cs)

unfoldable pub scan_sign : Text → Text × Text
scan_sign [] = ([], [])
scan_sign (c ∷ cs) = if c == 43 || c == 45 then (c ∷ [], cs) else ([], c ∷ cs)

-- the exponent, which begins at `exp_start`
unfoldable pub scan_exponent : ℕ → Text → Result (Text × Text)
scan_exponent exp_start [] = returns ([], [])
scan_exponent exp_start (c ∷ cs) =
    let (sign, after) = scan_sign cs in
    let (digits, rest) = scan_while is_digit after in
    if c == 101 || c == 69
    then (if starts_with is_digit after
        then returns (c ∷ (sign ++ digits), rest)
        else fail malformed_number exp_start)
    else returns ([], c ∷ cs)

unfoldable pub scan_number : ℕ → Text → Result (Text × Text)
scan_number start source =
    let (whole, after_whole) = scan_while is_digit source in
    let (fraction, after) = scan_fraction after_whole in
    do
      (exponent, rest) ← scan_exponent (start + length whole + length fraction) after
      returns (whole ++ (fraction ++ exponent), rest)

abbrev pub token : TokenKind → ℕ → Text → Text → Token × Text
token k start value rest =
    (record { kind = k; value = value; start = start; end = start + length value }, rest)

-- a single-character token, if the character is one
abbrev pub single : ℕ → ℕ → Text → Option TokenKind → Result (Token × Text)
single start c cs none = fail unexpected_character start
single start c cs (some k) = returns (token k start (c ∷ []) cs)

abbrev pub rest_of : Text → Text
rest_of [] = []
rest_of (c ∷ cs) = cs

-- One turn of the loop at a code unit that is no white space: the token and what follows it.
unfoldable pub next_token : ℕ → ℕ → Text → Result (Token × Text)
next_token start c cs =
    if is_digit c || (c == 46 && starts_with is_digit cs)
    then (do (value, rest) ← scan_number start (c ∷ cs); returns (token number start value rest))
    else if is_ident_start c
    then (let (name, rest) = scan_while is_ident_cont cs in
        returns (token ident start (c ∷ name) rest))
    else if c == 42 && starts_with (λ d. d == 42) cs
    then returns (token caret start (42 ∷ 42 ∷ []) (rest_of cs))
    else single start c cs (single_char_token c)

-- `pushBound` after a push, where `count` tokens stood before
unfoldable pub push_bound : ℕ → ℕ → Result (List Token) → Result (List Token)
push_bound position count later =
    if ltb max_token_count (suc count) then fail too_many_tokens position else later

unfoldable pub tokenize_from : ℕ → ℕ → ℕ → Text → Result (List Token)
tokenize_from zero i count cs = returns []
tokenize_from (suc turns) i count [] = returns []
tokenize_from (suc turns) i count (c ∷ cs) =
    let skipped = tokenize_from turns (suc i) count cs in
    let pushed = next_token i c cs >>= λ (t, rest).
    push_bound i count (tokenize_from turns t.end (suc count) rest) >>= λ later.
    returns (t ∷ later) in
    if is_whitespace c then skipped else pushed

unfoldable pub tokenize : Text → Result (List Token)
tokenize source =
    if ltb max_expression_length (length source)
    then fail too_long max_expression_length
    else tokenize_from (length source) 0 0 source
