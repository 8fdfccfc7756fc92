-- ===== src/Expr/Tokenizer/Covers.antt =====
-- The tokens that `tokenize` of src/shared/math/expr/parser.ts returns, against its source.
use emcp.Prelude.{
  ℕ, zero, suc, ◌+◌, ◌≤◌, ◌<◌, ◌≡◌, refl, ap, sym, subst, ◌∙◌, List, [], ◌∷◌, ◌++◌, ltb, length,
  length-append, arith, if_cases,
}
use emcp.Expr.{max_expression_length, max_token_count, Text, Token, Result, returns, throws, ◌>>=◌}
use emcp.Expr.Tokenizer.{is_whitespace, next_token, push_bound, tokenize_from, tokenize}
use emcp.Expr.Tokenizer.Scan.{OnReturn, OnReturn-bind, visible, next_token-Reads}

pub values : List Token → Text
values [] = []
values (t ∷ ts) = t.value ++ values ts

-- the tokens stand one behind the other, from an index on
abbrev pub Ordered : ℕ → List Token → Type 0
Ordered i [] = Unit
Ordered i (t ∷ ts) =
    (i ≤ t.start) × (t.end ≡ t.start + length t.value) × (0 < length t.value) × Ordered t.end ts

abbrev Covers : ℕ → ℕ → Text → List Token → Type 0
Covers i count cs ts =
    (values ts ≡ visible cs)
    × (count ≤ max_token_count → count + length ts ≤ max_token_count)
    × Ordered i ts

Ordered-lower : (i j : ℕ) (ts : List Token) → i ≤ j → Ordered j ts → Ordered i ts
Ordered-lower i j [] h o = tt
Ordered-lower i j (t ∷ ts) h (after, ends, full, o) = (omega (arith, after), ends, full, o)

pub OnReturn-mono :
    {A : Type 0} (P Q : A → Type 0) (r : Result A)
    → OnReturn P r
    → ((a : A) → P a → Q a)
    → OnReturn Q r
OnReturn-mono P Q (returns a) h f = f a h
OnReturn-mono P Q (throws e) h f = tt

pub push_bound-OnReturn :
    (P : List Token → Type 0) (i count : ℕ) (r : Result (List Token))
    → OnReturn P r
    → OnReturn (λ ts. P ts × (suc count ≤ max_token_count)) (push_bound i count r)
unfolding push_bound
push_bound-OnReturn P i count r h =
    if_cases (OnReturn (λ ts. P ts × (suc count ≤ max_token_count)))
      (ltb max_token_count (suc count)) (λ _. tt)
      (λ room. OnReturn-mono P _ r h (λ ts p. (p, ground (arith, room))))

pub shorter :
    (value rest cs : Text) (turns : ℕ)
    → value ++ rest ≡ cs
    → 0 < length value
    → length cs ≤ suc turns
    → length rest ≤ turns
shorter value rest cs turns same full h =
    omega (arith, length-append value rest, ap length same, full, h)

tokenize_from-Covers :
    (turns i count : ℕ) (cs : Text)
    → length cs ≤ turns
    → OnReturn (Covers i count cs) (tokenize_from turns i count cs)
unfolding tokenize_from values visible push_bound
tokenize_from-Covers zero i count [] h = (refl, omega arith, tt)
tokenize_from-Covers zero i count (c ∷ cs) h = elim h [ ]
tokenize_from-Covers (suc turns) i count [] h = (refl, omega arith, tt)
tokenize_from-Covers (suc turns) i count (c ∷ cs) h =
    if_cases (OnReturn (Covers i count (c ∷ cs))) (is_whitespace c)
      (λ space.
        OnReturn-mono (Covers (suc i) count cs) (Covers i count (c ∷ cs))
          (tokenize_from turns (suc i) count cs)
          (tokenize_from-Covers turns (suc i) count cs (omega (arith, h)))
          (λ ts (same, few, placed).
            (ground (arith, same, space), few, Ordered-lower i (suc i) ts (omega arith) placed)))
      (λ dark.
        OnReturn-bind (Covers i count (c ∷ cs)) (next_token i c cs)
          (λ (t, rest). push_bound i count (tokenize_from turns t.end (suc count) rest) >>= λ later.
            returns (t ∷ later))
          (next_token-Reads i c cs dark)
          (λ (t, rest) (same, solid, full, starts, ends).
            OnReturn-bind (Covers i count (c ∷ cs))
              (push_bound i count (tokenize_from turns t.end (suc count) rest))
              (λ later. returns (t ∷ later))
              (push_bound-OnReturn (Covers t.end (suc count) rest) i count
                (tokenize_from turns t.end (suc count) rest)
                (tokenize_from-Covers turns t.end (suc count) rest
                  (shorter t.value rest (c ∷ cs) turns same full h)))
              (λ later ((same', few, placed), room). (
                ap (λ r. t.value ++ r) same' ∙ sym (solid rest) ∙ ap visible same,
                omega (arith, few, room),
                (omega (arith, starts), omega (arith, starts, ends), full, placed),
              ))))

abbrev TokensOf : Text → List Token → Type 0
TokensOf source ts = (values ts ≡ visible source) × (length ts ≤ max_token_count) × Ordered 0 ts

tokenize-TokensOf : (source : Text) → OnReturn (TokensOf source) (tokenize source)
unfolding tokenize
tokenize-TokensOf source =
    if_cases (OnReturn (TokensOf source)) (ltb max_expression_length (length source)) (λ _. tt)
      (λ _.
        OnReturn-mono (Covers 0 0 source) (TokensOf source)
          (tokenize_from (length source) 0 0 source)
          (tokenize_from-Covers (length source) 0 0 source (omega arith))
          (λ ts (same, few, placed). (same, omega (arith, few (omega arith)), placed)))

-- If `tokenize` returns tokens, they are at most `max_token_count`, they stand in order, none is
-- empty and none reaches into the next, and their values one behind the other are the source
-- without its white space.
pub tokenize-visible :
    (source : Text) (ts : List Token)
    → tokenize source ≡ returns ts
    → (values ts ≡ visible source) × (length ts ≤ max_token_count) × Ordered 0 ts
tokenize-visible source ts h = subst (OnReturn (TokensOf source)) h (tokenize-TokensOf source)
