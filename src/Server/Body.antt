-- ===== src/Server/Body.antt =====
-- `readBody` of src/server.ts against its specification.
use emcp.Prelude.{
  ℕ, ◌+◌, ◌≤◌, ◌≡◌, ap, ◌∙◌, true, none, some, List, [], ◌∷◌, arith, leb, length, length-append,
  concat, if◌then◌else◌,
}
use emcp.Server.Gate.{read_body}

read_body_from :
    (max_bytes size : ℕ) (chunks : List (List ℕ))
    → size ≤ max_bytes
    → read_body max_bytes size chunks true
      ≡ (if leb (size + length (concat chunks)) max_bytes then some (concat chunks) else none)
unfolding read_body
read_body_from max_bytes size [] h = ground (arith, h)
read_body_from max_bytes size (chunk ∷ chunks) h = ground (
  arith,
  read_body_from max_bytes (size + length chunk) chunks,
  length-append chunk (concat chunks),
  h,
)

-- A body that ends is read as all of its chunks, if they are within the limit together, and is refused
-- otherwise.
pub read_body-concat :
    (max_bytes : ℕ) (chunks : List (List ℕ))
    → read_body max_bytes 0 chunks true
      ≡ (if leb (length (concat chunks)) max_bytes then some (concat chunks) else none)
read_body-concat max_bytes chunks =
    read_body_from max_bytes 0 chunks (omega arith)
    ∙ ap (λ n. if leb n max_bytes then some (concat chunks) else none) (omega arith)
