-- ===== src/Address/Tests.antt =====
-- Addresses of src/core/client-ip.ts and src/shared/net/ssrf.ts, and witnesses.
use emcp.Prelude.{
  ◌≡◌, refl, true, false, none, some, [], ◌∷◌, arith, codes, strip_prefix, split, is_decimal,
  decimal_from, is_lower_hex, hex_digit, hex_from, to_lower, map,
}
use emcp.Address.{
  v4, v6, ParsedCidr, matches_ipv4, parse_ipv4, v4_mapped, cut, repeat, groups_of, bytes_of,
  parse_ipv6, same_bytes, bytes_match, is_in_cidr, is_trusted, one, trim_start, trim_end,
  get_client_ip,
}
use emcp.Address.Cidr.{at_slash, is_canonical, parse_cidr, parse_parts, parse_cidr_list}
use emcp.Address.Private.{
  is_private_ipv4, pad, join, normalize_ipv6, extract_ipv4, is_private_hex, is_private_ipv6,
  is_private_address, assert_public_hostname,
}
use emcp.Address.Private.Ranges.{in_blocks, is_private_ipv4-blocks}
use emcp.Address.Mapped.{mapped, is_private_address-mapped}

all_address : Unit {0}
unfolding strip_prefix split is_decimal decimal_from is_lower_hex hex_digit hex_from to_lower
    matches_ipv4 parse_ipv4 v4_mapped cut repeat groups_of bytes_of parse_ipv6 same_bytes
    bytes_match is_in_cidr is_trusted trim_start trim_end get_client_ip at_slash is_canonical
    parse_cidr parse_parts parse_cidr_list is_private_ipv4 pad join normalize_ipv6 extract_ipv4
    is_private_hex is_private_ipv6 is_private_address assert_public_hostname
all_address = tt

abbrev ten : ParsedCidr
ten = record { family = v4; bytes = 10 ∷ 0 ∷ 0 ∷ 0 ∷ []; prefix_bits = 8 }

parses_list :
    parse_cidr_list (codes " 10.0.0.0/8,, ::1/128")
    ≡ some (
        ten
        ∷ record {
          family = v6;
          bytes = 0 ∷ 0 ∷ 0 ∷ 0 ∷ 0 ∷ 0 ∷ 0 ∷ 0 ∷ 0 ∷ 0 ∷ 0 ∷ 0 ∷ 0 ∷ 0 ∷ 0 ∷ 1 ∷ [];
          prefix_bits = 128;
        }
        ∷ [])
unfolding all_address
parses_list = refl

refuses_prefix : parse_cidr_list (codes "10.0.0.0/08") ≡ none
unfolding all_address
refuses_prefix = refl

takes_leftmost :
    get_client_ip (codes "::FFFF:10.1.2.3") (one (codes " 8.8.8.8 , 10.0.0.1")) (ten ∷ [])
    ≡ codes "8.8.8.8"
unfolding all_address
takes_leftmost = refl

-- 127.0.0.1 in four notations, and a public address
private_notations :
    map is_private_address (
      codes "127.0.0.1"
      ∷ codes "::FFFF:127.0.0.1"
      ∷ codes "::ffff:7f00:1"
      ∷ codes "2002:7f00:1::"
      ∷ codes "2606:4700::1111"
      ∷ [])
    ≡ true ∷ true ∷ true ∷ true ∷ false ∷ []
unfolding all_address
private_notations = refl

resolves : assert_public_hostname (codes "8.8.8.8" ∷ codes "64:ff9b::a00:1" ∷ []) ≡ false
unfolding all_address
resolves = refl

peer_quad : matches_ipv4 (codes "10.1.2.3") ≡ true
unfolding all_address
peer_quad = refl

is_private_address-mapped_example :
    is_private_address (mapped (codes "10.1.2.3")) ≡ is_private_address (codes "10.1.2.3")
is_private_address-mapped_example = is_private_address-mapped (codes "10.1.2.3") peer_quad

is_private_ipv4-blocks_example :
    is_private_ipv4 (172 ∷ 31 ∷ 0 ∷ 9 ∷ []) ≡ in_blocks (172 ∷ 31 ∷ 0 ∷ 9 ∷ [])
is_private_ipv4-blocks_example =
    is_private_ipv4-blocks 172 31 0 9 (omega arith) (omega arith) (omega arith) (omega arith)
