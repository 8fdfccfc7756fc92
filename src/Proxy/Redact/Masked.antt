-- ===== src/Proxy/Redact/Masked.antt =====
-- What src/shared/net/proxy/redact.ts leaves of a URL with credentials.
use emcp.Prelude.{
  ℕ, ◌≡◌, refl, ap, ◌∙◌, Bool, true, Option, some, List, [], ◌∷◌, ◌++◌, arith, all, codes, not,
  strip_prefix, if_true, ◌>>=◌,
}
use emcp.Proxy.Redact.{
  is_letter, is_scheme_char, is_end, scan_scheme, after_userinfo, starts_with_letter, after_scheme,
  match_userinfo, replaced, masked, mask_proxy_url,
}

scan_scheme-append :
    (scheme rest : List ℕ)
    → all is_scheme_char scheme ≡ true
    → scan_scheme (scheme ++ b':' ∷ rest) ≡ (scheme, b':' ∷ rest)
unfolding scan_scheme is_scheme_char is_letter
scan_scheme-append [] rest h = refl
scan_scheme-append (c ∷ scheme) rest h =
    if_true {b = is_scheme_char c} _ (ground (arith, h))
    ∙ ap (λ (o : List ℕ × List ℕ). (c ∷ o.0, o.1))
        (scan_scheme-append scheme rest (ground (arith, h)))

after_userinfo-append :
    (userinfo host : List ℕ)
    → all (λ c. not (is_end c)) userinfo ≡ true
    → after_userinfo (userinfo ++ b'@' ∷ host) ≡ some host
unfolding after_userinfo is_end
after_userinfo-append [] host h = refl
after_userinfo-append (c ∷ userinfo) host h = ground (arith, h, after_userinfo-append userinfo host)

-- a URL with credentials
abbrev pub with_userinfo : List ℕ → List ℕ → List ℕ → List ℕ
with_userinfo scheme userinfo host = scheme ++ (codes "://" ++ (userinfo ++ (b'@' ∷ host)))

match_userinfo-append :
    (scheme userinfo host : List ℕ)
    → starts_with_letter scheme ≡ true
    → all is_scheme_char scheme ≡ true
    → all (λ c. not (is_end c)) userinfo ≡ true
    → match_userinfo (with_userinfo scheme userinfo host) ≡ some (scheme, host)
unfolding match_userinfo strip_prefix
match_userinfo-append scheme userinfo host l hs hu =
    ap after_scheme (scan_scheme-append scheme (b'/' ∷ b'/' ∷ (userinfo ++ b'@' ∷ host)) hs)
    ∙ if_true _ l
    ∙ ap (λ o. o >>= (λ (h : List ℕ). some (scheme, h))) (after_userinfo-append userinfo host hu)

-- A URL with a scheme and with credentials that hold none of `@`, `/`, `?` and `#` is shown with `***` in
-- their place, whatever they are.
pub mask_proxy_url_hides :
    (has_credentials : List ℕ → Option Bool) (scheme userinfo host : List ℕ)
    → starts_with_letter scheme ≡ true
    → all is_scheme_char scheme ≡ true
    → all (λ c. not (is_end c)) userinfo ≡ true
    → has_credentials (with_userinfo scheme userinfo host) ≡ some true
    → mask_proxy_url has_credentials (with_userinfo scheme userinfo host)
      ≡ scheme ++ (codes "://***@" ++ host)
unfolding mask_proxy_url
mask_proxy_url_hides has_credentials [] userinfo host l hs hu h = ground (arith, l)
mask_proxy_url_hides has_credentials (c ∷ scheme) userinfo host l hs hu h =
    let raw = with_userinfo (c ∷ scheme) userinfo host in
    ap (masked raw) h ∙ ap (replaced raw) (match_userinfo-append (c ∷ scheme) userinfo host l hs hu)
