-- ===== src/Proxy/Redact/Tests.antt =====
-- src/shared/net/proxy/redact.ts on short URLs, and an instance.
use emcp.Prelude.{
  ℕ, ◌≡◌, refl, Bool, true, Option, some, List, ◌++◌, codes, split, strip_prefix, same_text,
}
use emcp.Address.{trim_start, trim_end}
use emcp.Proxy.Redact.{
  is_letter, is_scheme_char, is_end, scan_scheme, after_userinfo, match_userinfo, mask_proxy_url,
  mask_proxy_url_list,
}
use emcp.Proxy.Redact.Masked.{with_userinfo, mask_proxy_url_hides}

all_redact : Unit {0}
unfolding split strip_prefix same_text trim_start trim_end is_letter is_scheme_char is_end
    scan_scheme after_userinfo match_userinfo mask_proxy_url mask_proxy_url_list
all_redact = tt

-- a parser of the URLs below
abbrev has_credentials : List ℕ → Option Bool
has_credentials raw = some true

masks_list :
    mask_proxy_url_list has_credentials (codes " http://u:p@a:1 ,,HTTP://b@c")
    ≡ codes "http://***@a:1,HTTP://***@c"
unfolding all_redact
masks_list = refl

-- an `@` in the password ends the mask too early
shows_behind_at :
    mask_proxy_url has_credentials (codes "http://u:p@ss@host") ≡ codes "http://***@ss@host"
unfolding all_redact
shows_behind_at = refl

-- without the slashes nothing is masked
shows_without_slashes :
    mask_proxy_url has_credentials (codes "http:u:p@host") ≡ codes "http:u:p@host"
unfolding all_redact
shows_without_slashes = refl

mask_proxy_url_hides_example :
    mask_proxy_url has_credentials (with_userinfo (codes "http") (codes "u:p") (codes "host"))
    ≡ codes "http" ++ (codes "://***@" ++ codes "host")
unfolding all_redact
mask_proxy_url_hides_example =
    mask_proxy_url_hides has_credentials (codes "http") (codes "u:p") (codes "host") refl refl refl
      refl
