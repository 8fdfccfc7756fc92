-- ===== src/Fetch/Capped.antt =====
-- The capped read of src/shared/net/http.ts against its specification.
use emcp.Prelude.{
  ℕ, zero, suc, ◌+◌, ◌-◌, ◌≤◌, ◌≡◌, refl, ap, ◌∙◌, sym, Bool, some, List, [], ◌∷◌, ◌++◌, arith, ltb,
  length, length-append, concat, if_cases,
}
use emcp.Address.Private.{take}
use emcp.Fetch.{Stream, read_from, read_capped_body}

take-append_short :
    (n : ℕ) (xs ys : List ℕ) → length xs ≤ n → take n (xs ++ ys) ≡ xs ++ take (n - length xs) ys
take-append_short n [] ys h = ap (λ m. take m ys) (omega arith)
take-append_short zero (x ∷ xs) ys h = ground (arith, h)
take-append_short (suc n) (x ∷ xs) ys h =
    ap (λ t. x ∷ t)
      (take-append_short n xs ys (ground (arith, h)) ∙ ap (λ m. xs ++ take m ys) (omega arith))

take-append_long : (n : ℕ) (xs ys : List ℕ) → n ≤ length xs → take n (xs ++ ys) ≡ take n xs
take-append_long zero xs ys h = refl
take-append_long (suc n) [] ys h = ground (arith, h)
take-append_long (suc n) (x ∷ xs) ys h =
    ap (λ t. x ∷ t) (take-append_long n xs ys (ground (arith, h)))

take_empty : (n : ℕ) → take n [] ≡ []
take_empty zero = refl
take_empty (suc n) = refl

-- The bytes read on from `total`, and whether there are more, are those that the cap says.
read_from-take :
    (max_bytes total : ℕ) (chunks : List (List ℕ))
    → total ≤ max_bytes
    → ((read_from max_bytes total chunks).0 ≡ take (max_bytes - total) (concat chunks))
      × ((read_from max_bytes total chunks).1 ≡ ltb max_bytes (total + length (concat chunks)))
unfolding read_from
read_from-take max_bytes total [] h = (sym (take_empty (max_bytes - total)), ground (arith, h))
read_from-take max_bytes total (value ∷ chunks) h =
    let left = max_bytes - total in
    let all = value ++ concat chunks in
    if_cases
      (λ (o : List ℕ × Bool). (o.0 ≡ take left all) × (o.1 ≡ ltb max_bytes (total + length all)))
      (ltb max_bytes (total + length value))
      (λ over. (
        ap (λ n. take n value) (ground (arith, h, over))
            ∙ sym (take-append_long left value (concat chunks) (ground (arith, h, over))),
        ground (arith, length-append value (concat chunks), over),
      ))
      (λ within.
        let (kept, more) =
          read_from-take max_bytes (total + length value) chunks (ground (arith, within)) in
        (
          ap (λ t. value ++ t) (kept ∙ ap (λ n. take n (concat chunks)) (ground (arith, h, within)))
              ∙ sym (take-append_short left value (concat chunks) (ground (arith, h, within))),
          more ∙ ap (λ n. ltb max_bytes n) (ground (arith, length-append value (concat chunks))),
        ))

-- The body that is returned is the first `maxBytes` bytes of all chunks, and it is marked truncated
-- exactly if there are more.
pub read_capped_body-take :
    (max_bytes : ℕ) (stream : Stream)
    → ((read_capped_body (some stream) max_bytes).0.0 ≡ take max_bytes (concat stream.chunks))
      × ((read_capped_body (some stream) max_bytes).0.1
          ≡ ltb max_bytes (length (concat stream.chunks)))
unfolding read_capped_body
read_capped_body-take max_bytes stream =
    let (kept, more) = read_from-take max_bytes 0 stream.chunks (omega arith) in
    (
      kept ∙ ap (λ n. take n (concat stream.chunks)) (omega arith),
      more ∙ ap (λ n. ltb max_bytes n) (omega arith),
    )
