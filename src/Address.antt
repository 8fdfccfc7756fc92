-- ===== src/Address.antt =====
-- src/core/client-ip.ts: addresses as texts, CIDR blocks, and the address that the limiter before
-- the authentication counts a request on. A byte is a number below 256.
pub mod Cidr
pub mod Private
pub mod Mapped
mod Tests
use emcp.Prelude.{
  ℕ, zero, suc, ◌+◌, ◌-◌, ◌*◌, ◌/◌, ◌%◌, ◌^◌, Bool, true, false, not, ◌&&◌, ◌||◌, Option, none,
  some, List, [], ◌∷◌, ◌++◌, map, ltb, leb, ◌==◌, if◌then◌else◌, length, codes, strip_prefix, all,
  any, split, is_decimal, decimal_from, is_lower_hex, hex_from, to_lower, ◌>>=◌,
}

pub data Family : Type 0 where
  v4 v6 : Family

pub record ParsedCidr : Type 0 where
  pub family : Family
  pub bytes : List ℕ
  pub prefix_bits : ℕ

-- \d{1,3}
abbrev pub is_octet : List ℕ → Bool
is_octet part = leb 1 (length part) && (leb (length part) 3 && all is_decimal part)

abbrev pub are_octets : List (List ℕ) → Bool
are_octets (a ∷ b ∷ c ∷ d ∷ []) = is_octet a && (is_octet b && (is_octet c && is_octet d))
are_octets _ = false

-- IPV4_REGEX
unfoldable pub matches_ipv4 : List ℕ → Bool
matches_ipv4 addr = are_octets (split b'.' addr)

unfoldable pub parse_ipv4 : List ℕ → Option (List ℕ)
parse_ipv4 addr =
    let parts = map (decimal_from 0) (split b'.' addr) in
    if matches_ipv4 addr && all (λ p. leb p 255) parts then some parts else none

abbrev pub dotted : Option (List ℕ) → Option (List ℕ)
dotted none = none
dotted (some addr) = if matches_ipv4 addr then some addr else none

-- V4_MAPPED_REGEX, which is blind to case: the dotted quad behind `::ffff:`
unfoldable pub v4_mapped : List ℕ → Option (List ℕ)
v4_mapped ip = dotted (strip_prefix (codes "::ffff:") (to_lower ip))

-- the text before the first `::` and the text behind it
unfoldable pub cut : List ℕ → Option (List ℕ × List ℕ)
cut [] = none
cut (c ∷ s) = elim (strip_prefix (codes "::") (c ∷ s)) [
  | some right ↦ some ([], right)
  | none ↦ cut s >>= λ (left, right). some (c ∷ left, right)
]

-- `const [left, right] = s.split('::')`, when there is one
abbrev pub until_cut : List ℕ → Option (List ℕ × List ℕ) → List ℕ
until_cut s none = s
until_cut s (some (before, after)) = before

abbrev pub parts_of : List ℕ → List (List ℕ)
parts_of [] = []
parts_of (c ∷ s) = split b':' (c ∷ s)

unfoldable pub repeat : {A : Type 0} → ℕ → A → List A
repeat zero x = []
repeat (suc n) x = x ∷ repeat n x

-- the groups, `::` filled up to eight with the text of a zero
unfoldable pub groups_of : List ℕ → List ℕ → Option (List ℕ × List ℕ) → Option (List (List ℕ))
groups_of fill s none = some (split b':' s)
groups_of fill s (some (left, rest)) =
    let left_parts = parts_of left in
    let right_parts = parts_of (until_cut rest (cut rest)) in
    if ltb 8 (length left_parts + length right_parts)
    then none
    else some
        (left_parts ++ (repeat (8 - length left_parts - length right_parts) fill ++ right_parts))

-- /^[0-9a-f]{1,4}$/
abbrev pub is_group : List ℕ → Bool
is_group g = leb 1 (length g) && (leb (length g) 4 && all is_lower_hex g)

abbrev pub all_groups : List (List ℕ) → Bool
all_groups [] = true
all_groups (g ∷ gs) = is_group g && all_groups gs

unfoldable pub bytes_of : List (List ℕ) → List ℕ
bytes_of [] = []
bytes_of (g ∷ gs) = let n = hex_from 0 g in (n / 256) % 256 ∷ n % 256 ∷ bytes_of gs

unfoldable pub parse_ipv6 : List ℕ → Option (List ℕ)
parse_ipv6 addr = groups_of (codes "0") (to_lower addr) (cut (to_lower addr)) >>= λ groups.
    if length groups == 8 && all_groups groups then some (bytes_of groups) else none

-- the loop over the whole bytes: `undefined` equals `undefined` only
unfoldable pub same_bytes : ℕ → List ℕ → List ℕ → Bool
same_bytes zero actual expected = true
same_bytes (suc full) [] [] = true
same_bytes (suc full) (a ∷ actual) (e ∷ expected) = a == e && same_bytes full actual expected
same_bytes (suc full) _ _ = false

abbrev pub byte_at : ℕ → List ℕ → ℕ
byte_at i [] = 0
byte_at zero (b ∷ bs) = b
byte_at (suc i) (b ∷ bs) = byte_at i bs

-- `byte & mask`, where the mask clears the low bits of a byte
abbrev pub masked : ℕ → ℕ → ℕ
masked low byte = byte / 2 ^ low * 2 ^ low

unfoldable pub bytes_match : List ℕ → List ℕ → ℕ → Bool
bytes_match actual expected prefix_bits =
    let full = prefix_bits / 8 in
    let low = 8 - prefix_bits % 8 in
    same_bytes full actual expected
    && (prefix_bits % 8 == 0
        || masked low (byte_at full actual) == masked low (byte_at full expected))

abbrev pub is_v4 : Family → Bool
is_v4 v4 = true
is_v4 v6 = false

abbrev pub matches_bytes : ParsedCidr → Option (List ℕ) → Bool
matches_bytes cidr none = false
matches_bytes cidr (some bytes) = bytes_match bytes cidr.bytes cidr.prefix_bits

abbrev pub or_text : Option (List ℕ) → List ℕ → List ℕ
or_text none s = s
or_text (some t) s = t

abbrev pub is_some : {A : Type 0} → Option A → Bool
is_some none = false
is_some (some x) = true

unfoldable pub is_in_cidr : List ℕ → ParsedCidr → Bool
is_in_cidr ip cidr =
    if matches_ipv4 ip || is_some (v4_mapped ip)
    then is_v4 cidr.family && matches_bytes cidr (parse_ipv4 (or_text (v4_mapped ip) ip))
    else not (is_v4 cidr.family) && matches_bytes cidr (parse_ipv6 ip)

unfoldable pub is_trusted : List ℕ → List ParsedCidr → Bool
is_trusted ip trusted = any (is_in_cidr ip) trusted

-- what Node gives for `x-forwarded-for`
pub data Header : Type 0 where
  absent : Header
  one : List ℕ → Header
  many : List (List ℕ) → Header

-- the code units that `trim` takes off
abbrev pub is_blank : ℕ → Bool
is_blank c =
    (leb 9 c && leb c 13)
    || (c == 32
        || (c == 160
            || (c == 5760
                || ((leb 8192 c && leb c 8202)
                    || (c == 8232
                        || (c == 8233
                            || (c == 8239 || (c == 8287 || (c == 12288 || c == 65279)))))))))

unfoldable pub trim_start : List ℕ → List ℕ
trim_start [] = []
trim_start (c ∷ s) = let rest = trim_start s in if is_blank c then rest else c ∷ s

unfoldable pub trim_end : List ℕ → List ℕ
trim_end [] = []
trim_end (c ∷ s) = let rest = trim_end s in if length rest == 0 && is_blank c then [] else c ∷ rest

abbrev pub first_part : List (List ℕ) → List ℕ
first_part [] = []
first_part (part ∷ parts) = part

abbrev pub header_text : Header → List ℕ
header_text absent = []
header_text (one s) = s
header_text (many ss) = first_part ss

-- `s || other`
abbrev pub or_else : List ℕ → List ℕ → List ℕ
or_else [] other = other
or_else (c ∷ s) other = c ∷ s

-- the leftmost entry of the header; an empty header gives an empty one
abbrev pub leftmost : Header → List ℕ
leftmost header = trim_end (trim_start (first_part (split b',' (header_text header))))

-- `remote` is empty for a socket without an address
unfoldable pub get_client_ip : List ℕ → Header → List ParsedCidr → List ℕ
get_client_ip remote header trusted =
    if is_trusted remote trusted
    then or_else (leftmost header) remote
    else or_else remote (codes "unknown")
