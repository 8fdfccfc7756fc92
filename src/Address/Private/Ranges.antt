-- ===== src/Address/Private/Ranges.antt =====
-- `isPrivateIPv4` of src/shared/net/ssrf.ts against CIDR blocks as src/core/client-ip.ts reads them.
use emcp.Prelude.{ℕ, ◌≡◌, ◌≤◌, Bool, List, [], ◌∷◌, any, arith}
use emcp.Address.{same_bytes, bytes_match}
use emcp.Address.Private.{is_private_ipv4}

-- The blocks, as the comments of the source name them, but for 192.0.0.0, which is a /16.
abbrev pub private_blocks : List (List ℕ × ℕ)
private_blocks =
    (0 ∷ 0 ∷ 0 ∷ 0 ∷ [], 8)
    ∷ (10 ∷ 0 ∷ 0 ∷ 0 ∷ [], 8)
    ∷ (100 ∷ 64 ∷ 0 ∷ 0 ∷ [], 10)
    ∷ (127 ∷ 0 ∷ 0 ∷ 0 ∷ [], 8)
    ∷ (169 ∷ 254 ∷ 0 ∷ 0 ∷ [], 16)
    ∷ (172 ∷ 16 ∷ 0 ∷ 0 ∷ [], 12)
    ∷ (192 ∷ 0 ∷ 0 ∷ 0 ∷ [], 16)
    ∷ (192 ∷ 168 ∷ 0 ∷ 0 ∷ [], 16)
    ∷ (198 ∷ 18 ∷ 0 ∷ 0 ∷ [], 15)
    ∷ (224 ∷ 0 ∷ 0 ∷ 0 ∷ [], 4)
    ∷ (240 ∷ 0 ∷ 0 ∷ 0 ∷ [], 4)
    ∷ []

abbrev pub in_blocks : List ℕ → Bool
in_blocks octets = any (λ block. bytes_match octets block.0 block.1) private_blocks

-- An address of four octets counts as private exactly if it lies in one of these blocks.
pub is_private_ipv4-blocks :
    (a b c d : ℕ)
    → a ≤ 255
    → b ≤ 255
    → c ≤ 255
    → d ≤ 255
    → is_private_ipv4 (a ∷ b ∷ c ∷ d ∷ []) ≡ in_blocks (a ∷ b ∷ c ∷ d ∷ [])
unfolding is_private_ipv4 bytes_match same_bytes
is_private_ipv4-blocks a b c d ha hb hc hd = ground arith
