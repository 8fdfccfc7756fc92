-- ===== src/Address/Mapped.antt =====
-- The two notations of an IPv4 address, plain and mapped into IPv6, in src/core/client-ip.ts and
-- src/shared/net/ssrf.ts.
use emcp.Prelude.{
  ℕ, ◌≡◌, refl, ap, sym, ◌∙◌, Bool, true, false, ◌&&◌, ◌||◌, none, some, List, [], ◌∷◌, ◌++◌, ◌==◌,
  codes, strip_prefix, all, split, is_decimal, to_lower, arith, All, Bool-cases, onto_first,
  if_true, inl, inr,
}
use emcp.Address.{
  ParsedCidr, matches_ipv4, are_octets, v4_mapped, dotted, parse_ipv4, is_in_cidr, is_v4,
  matches_bytes, or_text, is_some,
}
use emcp.Address.Private.{is_private_mapped, is_private_address}

-- the notation of Node for a dotted quad on a dual-stack socket
abbrev pub mapped : List ℕ → List ℕ
mapped addr = codes "::ffff:" ++ addr

all_decimal : List (List ℕ) → Bool
all_decimal [] = true
all_decimal (part ∷ parts) = all is_decimal part && all_decimal parts

quad_decimal : (parts : List (List ℕ)) → are_octets parts ≡ true → all_decimal parts ≡ true
unfolding all_decimal
quad_decimal (a ∷ b ∷ c ∷ d ∷ []) h = ground arith
quad_decimal [] h = refl
quad_decimal (a ∷ []) h = ground arith
quad_decimal (a ∷ b ∷ []) h = ground arith
quad_decimal (a ∷ b ∷ c ∷ []) h = ground arith
quad_decimal (a ∷ b ∷ c ∷ d ∷ e ∷ parts) h = ground arith

abbrev Plain : ℕ → Type 0
Plain c = (c == b'.') || is_decimal c ≡ true

onto_first_decimal :
    (c : ℕ) (parts : List (List ℕ))
    → all_decimal (onto_first c parts) ≡ true
    → (is_decimal c ≡ true) × (all_decimal parts ≡ true)
unfolding all_decimal
onto_first_decimal c [] h = (ground arith, refl)
onto_first_decimal c (part ∷ parts) h = (ground arith, ground arith)

split-Plain : (s : List ℕ) → all_decimal (split b'.' s) ≡ true → All Plain s
unfolding split all_decimal
split-Plain [] h = tt
split-Plain (c ∷ s) h = elim (Bool-cases (c == b'.')) [
  | inl dot ↦ (ground (arith, dot), split-Plain s (ground (arith, h, dot)))
  | inr other ↦
      let (digit, rest) = onto_first_decimal c (split b'.' s) (ground (arith, h, other)) in
      (ground (arith, digit), split-Plain s rest)
]

to_lower-Plain : (s : List ℕ) → All Plain s → to_lower s ≡ s
unfolding to_lower is_decimal
to_lower-Plain [] h = refl
to_lower-Plain (c ∷ s) (p, h) = ground (arith, p, to_lower-Plain s h)

matches_ipv4-Plain : (addr : List ℕ) → matches_ipv4 addr ≡ true → All Plain addr
unfolding matches_ipv4
matches_ipv4-Plain addr h = split-Plain addr (quad_decimal (split b'.' addr) h)

-- no plain text begins with a colon
Plain-unmapped : (s : List ℕ) → All Plain s → strip_prefix (codes "::ffff:") s ≡ none
unfolding strip_prefix is_decimal
Plain-unmapped [] h = refl
Plain-unmapped (c ∷ s) (p, h) = ground (arith, p)

v4_mapped-Plain : (addr : List ℕ) → matches_ipv4 addr ≡ true → v4_mapped addr ≡ none
unfolding v4_mapped
v4_mapped-Plain addr h =
    let plain = matches_ipv4-Plain addr h in
    ap (λ s. dotted (strip_prefix (codes "::ffff:") s)) (to_lower-Plain addr plain)
    ∙ ap dotted (Plain-unmapped addr plain)

v4_mapped-mapped : (addr : List ℕ) → matches_ipv4 addr ≡ true → v4_mapped (mapped addr) ≡ some addr
unfolding v4_mapped strip_prefix to_lower
v4_mapped-mapped addr h =
    ap (λ s. dotted (some s)) (to_lower-Plain addr (matches_ipv4-Plain addr h)) ∙ if_true _ h

or_true : (b : Bool) → b || true ≡ true
or_true true = refl
or_true false = refl

-- the block test of a text that is one of the notations
is_in_cidr_v4 :
    (ip quad : List ℕ) (cidr : ParsedCidr)
    → matches_ipv4 ip || is_some (v4_mapped ip) ≡ true
    → or_text (v4_mapped ip) ip ≡ quad
    → is_in_cidr ip cidr ≡ is_v4 cidr.family && matches_bytes cidr (parse_ipv4 quad)
unfolding is_in_cidr
is_in_cidr_v4 ip quad cidr h e =
    if_true _ h ∙ ap (λ q. is_v4 cidr.family && matches_bytes cidr (parse_ipv4 q)) e

-- A dotted quad lies in the same blocks in both notations.
pub is_in_cidr-mapped :
    (addr : List ℕ) (cidr : ParsedCidr)
    → matches_ipv4 addr ≡ true
    → is_in_cidr (mapped addr) cidr ≡ is_in_cidr addr cidr
is_in_cidr-mapped addr cidr h =
    let hidden = v4_mapped-mapped addr h in
    let plain = v4_mapped-Plain addr h in
    is_in_cidr_v4 (mapped addr) addr cidr
      (ap (λ o. matches_ipv4 (mapped addr) || is_some o) hidden
        ∙ or_true (matches_ipv4 (mapped addr)))
      (ap (λ o. or_text o (mapped addr)) hidden)
    ∙ sym (
        is_in_cidr_v4 addr addr cidr (ap (λ b. b || is_some (v4_mapped addr)) h)
          (ap (λ o. or_text o addr) plain))

-- A dotted quad is as private in both notations.
pub is_private_address-mapped :
    (addr : List ℕ)
    → matches_ipv4 addr ≡ true
    → is_private_address (mapped addr) ≡ is_private_address addr
unfolding is_private_address
is_private_address-mapped addr h =
    ap (is_private_mapped (mapped addr)) (v4_mapped-mapped addr h)
    ∙ sym (ap (is_private_mapped addr) (v4_mapped-Plain addr h) ∙ if_true _ h)

-- the blocks that an address is in none of, and those with one that it is in
abbrev pub InNone : List ℕ → List ParsedCidr → Type 0
InNone addr = All (λ cidr. is_in_cidr addr cidr ≡ false)

abbrev pub InSome : List ℕ → List ParsedCidr → Type 0
InSome addr trusted =
    (before : List ParsedCidr) × (cidr : ParsedCidr) × (after : List ParsedCidr) × (trusted
      ≡ before ++ cidr ∷ after)
    × (is_in_cidr addr cidr ≡ true)
