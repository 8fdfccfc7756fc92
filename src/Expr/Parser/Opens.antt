-- ===== src/Expr/Parser/Opens.antt =====
-- How the printed trees of src/shared/math/expr/parser.ts begin.
use emcp.Prelude.{
  ℕ, zero, suc, ◌≤◌, ◌≡◌, refl, ap, ◌∙◌, false, none, List, [], ◌∷◌, ◌++◌, length, length-append,
  leb, arith, if_cases,
}
use emcp.Expr.{Text, number, ident, lparen, rparen, Token}
use emcp.Expr.Parser.{
  UnaryOp, AstNode, literal, identifier, binary, unary, factorial, call, Args, no_args, arg,
  is_kind, eat,
}
use emcp.Expr.Parser.Printed.{token, wrap, level, left_level, sign_kind, print, print_more}
use emcp.Expr.Parser.Steps.{follow}
use emcp.Expr.Parser.Levels.{Starts}

-- tokens that begin, and not with a closing parenthesis
abbrev pub Opens : List Token → Type 0
Opens xs = (t : Token) × (ys : List Token) × (xs ≡ t ∷ ys) × (is_kind rparen t.kind ≡ false)

pub append_Opens : (xs ys : List Token) → Opens xs → Opens (xs ++ ys)
append_Opens xs ys (t, zs, e, h) = (t, zs ++ ys, ap (λ x. x ++ ys) e, h)

pub append_Starts : (xs ys : List Token) → Starts xs → Starts (xs ++ ys)
append_Starts xs ys (t, zs, e, h) = (t, zs ++ ys, ap (λ x. x ++ ys) e, h)

wrap-Opens : (least own : ℕ) (xs : List Token) → Opens xs → Opens (wrap least own xs)
unfolding is_kind
wrap-Opens zero own xs h = h
wrap-Opens (suc least) own xs h =
    if_cases Opens (leb (suc least) own) (λ _. h)
      (λ _. (token lparen [], xs ++ token rparen [] ∷ [], refl, refl))

sign_opens : (op : UnaryOp) → is_kind rparen (sign_kind op) ≡ false
unfolding is_kind
sign_opens op = ground arith

pub print-Opens : {F : Type 0} (text : F → Text) (e : AstNode F) → Opens (print text e)
unfolding print is_kind
print-Opens text (literal v) = (token number (text v), [], refl, refl)
print-Opens text (identifier name) = (token ident name, [], refl, refl)
print-Opens text (binary op l r) =
    append_Opens (wrap (left_level op) (level l) (print text l)) _
      (wrap-Opens (left_level op) (level l) (print text l) (print-Opens text l))
print-Opens text (unary op e) = (token (sign_kind op) [], _, refl, sign_opens op)
print-Opens text (factorial e) =
    append_Opens (wrap 4 (level e) (print text e)) _
      (wrap-Opens 4 (level e) (print text e) (print-Opens text e))
print-Opens text (call name no_args) = (token ident name, _, refl, refl)
print-Opens text (call name (arg e es)) = (token ident name, _, refl, refl)

pub append_nil : {A : Type 0} (xs : List A) → xs ++ [] ≡ xs
append_nil [] = refl
append_nil (x ∷ xs) = ap (λ r. x ∷ r) (append_nil xs)

pub no_rparen : (ts : List Token) → Opens ts → eat rparen ts ≡ none
unfolding eat
no_rparen ts (t, ys, e, h) = ap (eat rparen) e ∙ ground (arith, h)

pub more_follow :
    {F : Type 0} (text : F → Text) (es : Args F) (R : List Token)
    → follow (print_more text es ++ R) ≤ 0
unfolding print_more
more_follow text no_args R = omega arith
more_follow text (arg e es) R = omega arith

unfoldable pub count : {F : Type 0} → Args F → ℕ
count no_args = 0
count (arg e es) = suc (count es)

pub count_more :
    {F : Type 0} (text : F → Text) (es : Args F) → suc (count es) ≤ length (print_more text es)
unfolding print_more count
count_more text no_args = omega arith
count_more text (arg e es) =
    omega (arith, count_more text es, length-append (print text e) (print_more text es))
