-- ===== src/Address/Private.antt =====
-- src/shared/net/ssrf.ts: the addresses that a fetch from outside may not reach. The octets of a
-- dotted quad are its parts as numbers; the ones of `extractIPv4FromHex` are printed and read back
-- by the source, which gives the same numbers.
pub mod Ranges
use emcp.Prelude.{
  ℕ, zero, suc, ◌+◌, ◌-◌, Bool, true, false, not, ◌&&◌, ◌||◌, Option, none, some, List, [], ◌∷◌,
  ◌++◌, map, ltb, leb, ◌==◌, if◌then◌else◌, length, codes, strip_prefix, all, any, split,
  decimal_from, is_lower_hex, hex_from, to_lower, ◌>>=◌,
}
use emcp.Address.{matches_ipv4, v4_mapped, cut, groups_of, repeat, is_some}

abbrev pub is_private_octets : ℕ → ℕ → Bool
is_private_octets a b =
    a == 0
    || (a == 10
        || ((a == 100 && (leb 64 b && leb b 127))
            || (a == 127
                || ((a == 169 && b == 254)
                    || ((a == 172 && (leb 16 b && leb b 31))
                        || ((a == 192 && b == 0)
                            || ((a == 192 && b == 168)
                                || ((a == 198 && (b == 18 || b == 19)) || leb 224 a))))))))

unfoldable pub is_private_ipv4 : List ℕ → Bool
is_private_ipv4 (a ∷ b ∷ c ∷ d ∷ []) =
    not (leb a 255 && (leb b 255 && (leb c 255 && leb d 255))) || is_private_octets a b
is_private_ipv4 _ = true

-- `padStart(4, '0')`
unfoldable pub pad : List ℕ → List ℕ
pad g = repeat (4 - length g) b'0' ++ g

unfoldable pub join : List (List ℕ) → List ℕ
join [] = []
join (g ∷ gs) = g ++ join gs

abbrev pub if_hex : List ℕ → Option (List ℕ)
if_hex full = if length full == 32 && all is_lower_hex full then some full else none

-- Without a `::` there are eight groups; with one, as many as the filling gives.
unfoldable pub normalize_ipv6 : List ℕ → Option (List ℕ)
normalize_ipv6 addr = groups_of (codes "0000") (to_lower addr) (cut (to_lower addr)) >>= λ groups.
    if is_some (cut (to_lower addr)) || length groups == 8
    then if_hex (join (map pad groups))
    else none

abbrev pub starts : List ℕ → List ℕ → Bool
starts prefix s = is_some (strip_prefix prefix s)

unfoldable pub extract_ipv4 : List ℕ → List ℕ
extract_ipv4 (a ∷ b ∷ s) = hex_from 0 (a ∷ b ∷ []) ∷ extract_ipv4 s
extract_ipv4 _ = []

abbrev pub drop : ℕ → List ℕ → List ℕ
drop zero s = s
drop (suc n) [] = []
drop (suc n) (c ∷ s) = drop n s

abbrev pub take : ℕ → List ℕ → List ℕ
take zero s = []
take (suc n) [] = []
take (suc n) (c ∷ s) = c ∷ take n s

unfoldable pub is_private_hex : List ℕ → Bool
is_private_hex normalized =
    if starts (codes "00000000000000000000000000000001") normalized
    then true
    else if starts (codes "00000000000000000000000000000000") normalized
    then true
    else if starts (codes "00000000000000000000ffff") normalized
    then is_private_ipv4 (extract_ipv4 (drop 24 normalized))
    else if starts (codes "0000000000000000ffff0000") normalized
    then is_private_ipv4 (extract_ipv4 (drop 24 normalized))
    else if starts (codes "0064ff9b0000000000000000") normalized
    then is_private_ipv4 (extract_ipv4 (drop 24 normalized))
    else if starts (codes "2002") normalized
    then is_private_ipv4 (extract_ipv4 (take 8 (drop 4 normalized)))
    else any (λ prefix. starts prefix normalized)
        (codes "20010db8"
          ∷ codes "fe8"
          ∷ codes "fe9"
          ∷ codes "fea"
          ∷ codes "feb"
          ∷ codes "fc"
          ∷ codes "fd"
          ∷ codes "fec"
          ∷ codes "fed"
          ∷ codes "fee"
          ∷ codes "fef"
          ∷ codes "ff"
          ∷ [])

-- a malformed address counts as private
abbrev pub is_private_or_malformed : Option (List ℕ) → Bool
is_private_or_malformed none = true
is_private_or_malformed (some normalized) = is_private_hex normalized

unfoldable pub is_private_ipv6 : List ℕ → Bool
is_private_ipv6 addr = is_private_or_malformed (normalize_ipv6 addr)

abbrev pub octets : List ℕ → List ℕ
octets addr = map (decimal_from 0) (split b'.' addr)

abbrev pub is_private_plain : List ℕ → Bool
is_private_plain addr =
    if matches_ipv4 addr then is_private_ipv4 (octets addr) else is_private_ipv6 addr

abbrev pub is_private_mapped : List ℕ → Option (List ℕ) → Bool
is_private_mapped addr none = is_private_plain addr
is_private_mapped addr (some quad) = is_private_ipv4 (octets quad)

unfoldable pub is_private_address : List ℕ → Bool
is_private_address addr = is_private_mapped addr (v4_mapped addr)

-- `assertPublicHostname` on what the name resolves to: true when it does not throw
unfoldable pub assert_public_hostname : List (List ℕ) → Bool
assert_public_hostname [] = true
assert_public_hostname (address ∷ records) =
    if is_private_address address then false else assert_public_hostname records
