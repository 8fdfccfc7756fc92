-- ===== src/Headers/Tests.antt =====
-- Requests that `validateHeaders` of src/core/headers.ts accepts and refuses, and a witness.
use emcp.Prelude.{◌≡◌, refl, ◌↔◌, true, some, [], ◌∷◌, codes, to_lower, map, same_text}
use emcp.Headers.{
  single, several, Headers, ok, host_mismatch, origin_required, Options, get_header, after_first,
  before_colon, colons, strip_port, one_value, validate_headers,
}
use emcp.Headers.Accepts.{HostFits, OriginOf, validate_headers-ok_iff}

all_headers : Unit {0}
unfolding to_lower same_text get_header after_first before_colon colons strip_port one_value
    validate_headers
all_headers = tt

abbrev gateway : Options
gateway = record {
  expected_host = codes "emcp.example";
  allowed_origins = codes "https://app.example" ∷ [];
  require_origin = true;
}

abbrev from_app : Headers
from_app =
    (codes "Host", some (single (codes "emcp.example:8443")))
    ∷ (codes "origin", some (single (codes "https://app.example")))
    ∷ []

accepts_port : validate_headers from_app gateway ≡ ok (some (codes "https://app.example"))
unfolding all_headers
accepts_port = refl

refuses_two_hosts :
    validate_headers
      ((codes "host", some (several (codes "emcp.example" ∷ codes "evil.example" ∷ []))) ∷ [])
      gateway
    ≡ host_mismatch
unfolding all_headers
refuses_two_hosts = refl

refuses_no_origin :
    validate_headers ((codes "host", some (single (codes "emcp.example"))) ∷ []) gateway
    ≡ origin_required
unfolding all_headers
refuses_no_origin = refl

strips_ports :
    map strip_port (codes "[::1]:8443" ∷ codes "[::1]" ∷ codes "a:80" ∷ codes "a:b:80" ∷ [])
    ≡ codes "[::1]" ∷ codes "[::1]" ∷ codes "a" ∷ codes "a:b:80" ∷ []
unfolding all_headers
strips_ports = refl

validate_headers-ok_iff_example :
    (validate_headers from_app gateway ≡ ok (some (codes "https://app.example")))
    ↔ (HostFits from_app gateway × OriginOf from_app gateway (some (codes "https://app.example")))
validate_headers-ok_iff_example =
    validate_headers-ok_iff from_app gateway (some (codes "https://app.example"))
