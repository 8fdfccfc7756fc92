-- ===== src/Expr/Tokenizer/Scan.antt =====
-- What the scanning loops of `tokenize` in src/shared/math/expr/parser.ts pass over.
use emcp.Prelude.{
  ℕ, ◌+◌, ◌≡◌, refl, ap, sym, ◌∙◌, Bool, true, false, ◌||◌, ◌&&◌, Option, none, some, [], ◌∷◌, ◌++◌,
  if◌then◌else◌, length, ◌==◌, arith, if_cases, length-append, false≢true, ◌<◌,
}
use emcp.Expr.{Text, TokenKind, number, Token, Result, returns, throws, ◌>>=◌}
use emcp.Expr.Tokenizer.{
  is_whitespace, is_digit, is_ident_start, is_ident_cont, single_char_token, scan_while,
  starts_with, scan_fraction, scan_sign, scan_exponent, scan_number, token, single, rest_of,
  next_token,
}

-- A predicate that holds of what a call returns.
abbrev pub OnReturn : {A : Type 0} → (A → Type 0) → Result A → Type 0
OnReturn P (returns a) = P a
OnReturn P (throws e) = Unit

pub OnReturn-bind :
    {A B : Type 0} {P : A → Type 0} (Q : B → Type 0) (r : Result A) (k : A → Result B)
    → OnReturn P r
    → ((a : A) → P a → OnReturn Q (k a))
    → OnReturn Q (r >>= k)
OnReturn-bind Q (returns a) k h f = f a h
OnReturn-bind Q (throws e) k h f = tt

-- the source without its white space
unfoldable pub visible : Text → Text
visible [] = []
visible (c ∷ cs) = let rest = visible cs in if is_whitespace c then rest else c ∷ rest

-- a text without white space
abbrev pub Solid : Text → Type 0
Solid a = (r : Text) → visible (a ++ r) ≡ a ++ visible r

Solid-nil : Solid []
Solid-nil r = refl

pub Solid-cons : (c : ℕ) (a : Text) → is_whitespace c ≡ false → Solid a → Solid (c ∷ a)
unfolding visible
Solid-cons c a h s r = ground (arith, s r)

pub append_assoc : (a b c : Text) → (a ++ b) ++ c ≡ a ++ (b ++ c)
append_assoc [] b c = refl
append_assoc (x ∷ a) b c = ap (λ r. x ∷ r) (append_assoc a b c)

Solid-append : (a b : Text) → Solid a → Solid b → Solid (a ++ b)
Solid-append a b s t r =
    ap visible (append_assoc a b r)
    ∙ s (b ++ r)
    ∙ ap (λ x. a ++ x) (t r)
    ∙ sym (append_assoc a b (visible r))

-- what was scanned, and the rest, are the text
abbrev pub Splits : Text → Text × Text → Type 0
Splits cs (a, b) = (a ++ b ≡ cs) × Solid a

scan_while-Splits :
    (is : ℕ → Bool)
    → ((c : ℕ) → is c ≡ true → is_whitespace c ≡ false)
    → (cs : Text) → Splits cs (scan_while is cs)
unfolding scan_while
scan_while-Splits is solid [] = (refl, Solid-nil)
scan_while-Splits is solid (c ∷ cs) =
    let (same, s) = scan_while-Splits is solid cs in
    if_cases (Splits (c ∷ cs)) (is c)
      (λ h. (ap (λ r. c ∷ r) same, Solid-cons c (scan_while is cs).0 (solid c h) s))
      (λ _. (refl, Solid-nil))

digit_solid : (c : ℕ) → is_digit c ≡ true → is_whitespace c ≡ false
unfolding is_digit is_whitespace
digit_solid c h = ground arith

ident_solid : (c : ℕ) → is_ident_cont c ≡ true → is_whitespace c ≡ false
unfolding is_digit is_ident_start is_ident_cont is_whitespace
ident_solid c h = ground arith

point_solid : (c : ℕ) → c == 46 ≡ true → is_whitespace c ≡ false
unfolding is_whitespace
point_solid c h = ground arith

sign_solid : (c : ℕ) → c == 43 || c == 45 ≡ true → is_whitespace c ≡ false
unfolding is_whitespace
sign_solid c h = ground arith

exponent_solid : (c : ℕ) → c == 101 || c == 69 ≡ true → is_whitespace c ≡ false
unfolding is_whitespace
exponent_solid c h = ground arith

scan_fraction-Splits : (cs : Text) → Splits cs (scan_fraction cs)
unfolding scan_fraction
scan_fraction-Splits [] = (refl, Solid-nil)
scan_fraction-Splits (c ∷ cs) =
    let (same, s) = scan_while-Splits is_digit digit_solid cs in
    if_cases (Splits (c ∷ cs)) (c == 46)
      (λ h. (ap (λ r. c ∷ r) same, Solid-cons c (scan_while is_digit cs).0 (point_solid c h) s))
      (λ _. (refl, Solid-nil))

scan_sign-Splits : (cs : Text) → Splits cs (scan_sign cs)
unfolding scan_sign
scan_sign-Splits [] = (refl, Solid-nil)
scan_sign-Splits (c ∷ cs) =
    if_cases (Splits (c ∷ cs)) (c == 43 || c == 45)
      (λ h. (refl, Solid-cons c [] (sign_solid c h) Solid-nil)) (λ _. (refl, Solid-nil))

scan_exponent-Splits : (i : ℕ) (cs : Text) → OnReturn (Splits cs) (scan_exponent i cs)
unfolding scan_exponent
scan_exponent-Splits i [] = (refl, Solid-nil)
scan_exponent-Splits i (c ∷ cs) =
    let (same, s) = scan_sign-Splits cs in
    let sign = (scan_sign cs).0 in
    let after = (scan_sign cs).1 in
    let (same', s') = scan_while-Splits is_digit digit_solid after in
    let digits = (scan_while is_digit after).0 in
    let rest = (scan_while is_digit after).1 in
    if_cases (OnReturn (Splits (c ∷ cs))) (c == 101 || c == 69)
      (λ h.
        if_cases (OnReturn (Splits (c ∷ cs))) (starts_with is_digit after)
          (λ _. (
            ap (λ r. c ∷ r) (append_assoc sign digits rest ∙ ap (λ r. sign ++ r) same' ∙ same),
            Solid-cons c (sign ++ digits) (exponent_solid c h) (Solid-append sign digits s s'),
          ))
          (λ _. tt))
      (λ _. (refl, Solid-nil))

scan_number-Splits : (i : ℕ) (cs : Text) → OnReturn (Splits cs) (scan_number i cs)
unfolding scan_number
scan_number-Splits i cs =
    let (same, s) = scan_while-Splits is_digit digit_solid cs in
    let whole = (scan_while is_digit cs).0 in
    let after_whole = (scan_while is_digit cs).1 in
    let (same', s') = scan_fraction-Splits after_whole in
    let fraction = (scan_fraction after_whole).0 in
    let after = (scan_fraction after_whole).1 in
    OnReturn-bind (Splits cs) (scan_exponent (i + length whole + length fraction) after)
      (λ (exponent, rest). returns (whole ++ (fraction ++ exponent), rest))
      (scan_exponent-Splits (i + length whole + length fraction) after)
      (λ (exponent, rest) (same'', s''). (
        append_assoc whole (fraction ++ exponent) rest
            ∙ ap (λ r. whole ++ r)
                (append_assoc fraction exponent rest ∙ ap (λ r. fraction ++ r) same'' ∙ same')
            ∙ same,
        Solid-append whole (fraction ++ exponent) s (Solid-append fraction exponent s' s''),
      ))

-- a number has a character
abbrev Begins : Text × Text → Type 0
Begins (whole, after) = 0 < length whole + length (scan_fraction after).0

whole-Begins :
    (c : ℕ) (cs : Text)
    → is_digit c || (c == 46 && starts_with is_digit cs) ≡ true
    → Begins (scan_while is_digit (c ∷ cs))
unfolding scan_while scan_fraction
whole-Begins c cs h =
    if_cases Begins (is_digit c) (λ _. omega arith)
      (λ other.
        if_cases (λ (p : Text × Text). 0 < 0 + length p.0) (c == 46) (λ _. omega arith)
          (λ no_point. elim (false≢true (ground (arith, h, other, no_point))) [ ]))

scan_number-nonempty :
    (i : ℕ) (cs : Text)
    → Begins (scan_while is_digit cs)
    → OnReturn (λ (value, rest). 0 < length value) (scan_number i cs)
unfolding scan_number
scan_number-nonempty i cs begins =
    let whole = (scan_while is_digit cs).0 in
    let fraction = (scan_fraction (scan_while is_digit cs).1).0 in
    let after = (scan_fraction (scan_while is_digit cs).1).1 in
    OnReturn-bind (λ (value, rest). 0 < length value)
      (scan_exponent (i + length whole + length fraction) after)
      (λ (exponent, rest). returns (whole ++ (fraction ++ exponent), rest))
      (scan_exponent-Splits (i + length whole + length fraction) after)
      (λ (exponent, rest) _. omega (
        arith,
        begins,
        length-append whole (fraction ++ exponent),
        length-append fraction exponent,
      ))

OnReturn-both :
    {A : Type 0} (P Q : A → Type 0) (r : Result A)
    → OnReturn P r
    → OnReturn Q r
    → OnReturn (λ a. P a × Q a) r
OnReturn-both P Q (returns a) p q = (p, q)
OnReturn-both P Q (throws e) p q = tt

-- what a turn reads: a token at its place without white space, not empty, and what follows it
abbrev pub Reads : ℕ → Text → Token × Text → Type 0
Reads start cs (t, rest) =
    (t.value ++ rest ≡ cs)
    × Solid t.value
    × (0 < length t.value)
    × (t.start ≡ start)
    × (t.end ≡ start + length t.value)

star_solid : is_whitespace 42 ≡ false
unfolding is_whitespace
star_solid = refl

second_star : (cs : Text) → starts_with (λ d. d == 42) cs ≡ true → 42 ∷ rest_of cs ≡ cs
unfolding starts_with
second_star [] h = elim (false≢true h) [ ]
second_star (c ∷ cs) h = ground arith

single-Reads :
    (start c : ℕ) (cs : Text) (k : Option TokenKind)
    → is_whitespace c ≡ false
    → OnReturn (Reads start (c ∷ cs)) (single start c cs k)
single-Reads start c cs none h = tt
single-Reads start c cs (some k) h = (refl, Solid-cons c [] h Solid-nil, omega arith, refl, refl)

pub next_token-Reads :
    (start c : ℕ) (cs : Text)
    → is_whitespace c ≡ false
    → OnReturn (Reads start (c ∷ cs)) (next_token start c cs)
unfolding next_token
next_token-Reads start c cs h =
    let P = OnReturn (Reads start (c ∷ cs)) in
    let (same, s) = scan_while-Splits is_ident_cont ident_solid cs in
    let name = (scan_while is_ident_cont cs).0 in
    if_cases P (is_digit c || (c == 46 && starts_with is_digit cs))
      (λ digit.
        OnReturn-bind (Reads start (c ∷ cs)) (scan_number start (c ∷ cs))
          (λ (value, rest). returns (token number start value rest))
          (OnReturn-both _ _ (scan_number start (c ∷ cs)) (scan_number-Splits start (c ∷ cs))
            (scan_number-nonempty start (c ∷ cs) (whole-Begins c cs digit)))
          (λ (value, rest) (splits, full). (splits.0, splits.1, full, refl, refl)))
      (λ _.
        if_cases P (is_ident_start c)
          (λ _. (ap (λ r. c ∷ r) same, Solid-cons c name h s, omega arith, refl, refl))
          (λ _.
            if_cases P (c == 42 && starts_with (λ d. d == 42) cs)
              (λ stars. (
                ap (λ r. 42 ∷ r) (second_star cs (ground (arith, stars)))
                    ∙ ap (λ d. d ∷ cs) (ground (arith, stars)),
                Solid-cons 42 (42 ∷ []) star_solid (Solid-cons 42 [] star_solid Solid-nil),
                omega arith,
                refl,
                refl,
              ))
              (λ _. single-Reads start c cs (single_char_token c) h)))
