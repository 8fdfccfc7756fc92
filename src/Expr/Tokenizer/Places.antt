-- ===== src/Expr/Tokenizer/Places.antt =====
-- Where the tokens of `tokenize` in src/shared/math/expr/parser.ts stand in its source.
use emcp.Prelude.{
  ℕ, zero, suc, ◌≤◌, ◌≡◌, refl, ap, sym, subst, ◌∙◌, List, [], ◌∷◌, ◌++◌, ltb, length,
  length-append, arith, All, if_cases,
}
use emcp.Expr.{max_expression_length, Text, Token, returns, ◌>>=◌}
use emcp.Expr.Tokenizer.{is_whitespace, next_token, push_bound, tokenize_from, tokenize}
use emcp.Expr.Tokenizer.Scan.{OnReturn, OnReturn-bind, append_assoc, next_token-Reads}
use emcp.Expr.Tokenizer.Covers.{push_bound-OnReturn, shorter}

-- The value is the slice of the source from `start` to `end`.
pub record Placed (source : Text) (t : Token) : Type 0 where
  pub before : Text
  pub after : Text
  pub slice : source ≡ before ++ (t.value ++ after)
  pub starts : length before ≡ t.start
  pub ends : length (before ++ t.value) ≡ t.end

tokenize_from-Placed :
    (turns i count : ℕ) (before cs source : Text)
    → length cs ≤ turns
    → source ≡ before ++ cs
    → length before ≡ i
    → OnReturn (All (Placed source)) (tokenize_from turns i count cs)
unfolding tokenize_from
tokenize_from-Placed zero i count before cs source h e at = tt
tokenize_from-Placed (suc turns) i count before [] source h e at = tt
tokenize_from-Placed (suc turns) i count before (c ∷ cs) source h e at =
    if_cases (OnReturn (All (Placed source))) (is_whitespace c)
      (λ space.
        tokenize_from-Placed turns (suc i) count (before ++ c ∷ []) cs source (omega (arith, h))
          (e ∙ sym (append_assoc before (c ∷ []) cs))
          (omega (arith, at, length-append before (c ∷ []))))
      (λ dark.
        OnReturn-bind (All (Placed source)) (next_token i c cs)
          (λ (t, rest). push_bound i count (tokenize_from turns t.end (suc count) rest) >>= λ later.
            returns (t ∷ later))
          (next_token-Reads i c cs dark)
          (λ (t, rest) (same, solid, full, starts, ends).
            let there = e ∙ ap (λ r. before ++ r) (sym same) in
            OnReturn-bind (All (Placed source))
              (push_bound i count (tokenize_from turns t.end (suc count) rest))
              (λ later. returns (t ∷ later))
              (push_bound-OnReturn (All (Placed source)) i count
                (tokenize_from turns t.end (suc count) rest)
                (tokenize_from-Placed turns t.end (suc count) (before ++ t.value) rest source
                  (shorter t.value rest (c ∷ cs) turns same full h)
                  (there ∙ sym (append_assoc before t.value rest))
                  (omega (arith, at, ends, length-append before t.value))))
              (λ later (placed, room). (
                record {
                  before = before;
                  after = rest;
                  slice = there;
                  starts = omega (arith, at, starts);
                  ends = omega (arith, at, starts, ends, length-append before t.value);
                },
                placed,
              ))))

places : (source : Text) → OnReturn (All (Placed source)) (tokenize source)
unfolding tokenize
places source =
    if_cases (OnReturn (All (Placed source))) (ltb max_expression_length (length source)) (λ _. tt)
      (λ _. tokenize_from-Placed (length source) 0 0 [] source source (omega arith) refl refl)

-- If `tokenize` returns tokens, the value of each is the slice of the source from its `start` to
-- its `end`.
pub tokenize-Placed :
    (source : Text) (ts : List Token) → tokenize source ≡ returns ts → All (Placed source) ts
tokenize-Placed source ts h = subst (OnReturn (All (Placed source))) h (places source)
