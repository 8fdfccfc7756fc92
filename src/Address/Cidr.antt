-- ===== src/Address/Cidr.antt =====
-- `parseCidrList` of src/core/client-ip.ts; `none` is a thrown error.
use emcp.Prelude.{
  ℕ, Bool, false, Option, none, some, List, [], ◌∷◌, ltb, leb, ◌==◌, if◌then◌else◌, length, all,
  split, is_decimal, decimal_from, ◌>>=◌, ◌&&◌,
}
use emcp.Address.{
  Family, v4, v6, ParsedCidr, matches_ipv4, parse_ipv4, parse_ipv6, trim_start, trim_end,
}

-- `indexOf('/')` and the two slices
unfoldable pub at_slash : List ℕ → Option (List ℕ × List ℕ)
at_slash [] = none
at_slash (c ∷ s) =
    let later = at_slash s >>= λ (addr, prefix). some (c ∷ addr, prefix) in
    if c == b'/' then some ([], s) else later

-- a text that `parseInt` reads and `String` writes the same: decimal, without leading zeros
unfoldable pub is_canonical : List ℕ → Bool
is_canonical [] = false
is_canonical (c ∷ []) = is_decimal c
is_canonical (c ∷ s) = is_decimal c && (ltb b'0' c && all is_decimal s)

-- a block of parsed bytes, if the prefix is not too long
abbrev pub block : Family → ℕ → ℕ → Option (List ℕ) → Option ParsedCidr
block family most bits none = none
block family most bits (some bytes) =
    if leb bits most
    then some (record { family = family; bytes = bytes; prefix_bits = bits })
    else none

abbrev pub block_of : List ℕ → ℕ → Option ParsedCidr
block_of addr bits =
    if matches_ipv4 addr
    then block v4 32 bits (parse_ipv4 addr)
    else block v6 128 bits (parse_ipv6 addr)

unfoldable pub parse_cidr : List ℕ → Option ParsedCidr
parse_cidr cidr = at_slash cidr >>= λ (addr, prefix).
    if is_canonical prefix then block_of addr (decimal_from 0 prefix) else none

-- the parts that are not blank
unfoldable pub parse_parts : List (List ℕ) → Option (List ParsedCidr)
parse_parts [] = some []
parse_parts (part ∷ parts) =
    let trimmed = trim_end (trim_start part) in
    let others = parse_parts parts in
    let parsed = parse_cidr trimmed >>= λ cidr. others >>= λ cidrs. some (cidr ∷ cidrs) in
    if length trimmed == 0 then others else parsed

abbrev pub not_empty : List ParsedCidr → Option (List ParsedCidr)
not_empty [] = none
not_empty (cidr ∷ cidrs) = some (cidr ∷ cidrs)

unfoldable pub parse_cidr_list : List ℕ → Option (List ParsedCidr)
parse_cidr_list raw = parse_parts (split b',' raw) >>= not_empty
