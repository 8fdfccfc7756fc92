-- ===== src/Proxy/Redact.antt =====
-- src/shared/net/proxy/redact.ts: proxy URLs without their credentials. What the URL parser finds is the
-- parameter `has_credentials`, none for a text that it does not parse.
pub mod Masked
mod Tests
use emcp.Prelude.{
  ℕ, Bool, true, false, not, ◌&&◌, ◌||◌, Option, none, some, List, [], ◌∷◌, ◌++◌, ◌>>=◌, ◌==◌, leb,
  all, codes, split, strip_prefix, map, length, if◌then◌else◌,
}
use emcp.Address.{trim_start, trim_end}

-- [a-z], whatever the case
unfoldable pub is_letter : ℕ → Bool
is_letter c = leb b'a' c && leb c b'z' || leb b'A' c && leb c b'Z'

-- [a-z0-9+.-], whatever the case
unfoldable pub is_scheme_char : ℕ → Bool
is_scheme_char c =
    is_letter c || (leb b'0' c && leb c b'9' || (c == b'+' || (c == b'.' || c == b'-')))

-- [@/?#], which ends the user information
unfoldable pub is_end : ℕ → Bool
is_end c = c == b'@' || (c == b'/' || (c == b'?' || c == b'#'))

-- the longest front of scheme characters, and what is behind it
unfoldable pub scan_scheme : List ℕ → List ℕ × List ℕ
scan_scheme [] = ([], [])
scan_scheme (c ∷ s) =
    let (scheme, rest) = scan_scheme s in
    if is_scheme_char c then (c ∷ scheme, rest) else ([], c ∷ s)

-- what is behind the `@` of the user information
unfoldable pub after_userinfo : List ℕ → Option (List ℕ)
after_userinfo [] = none
after_userinfo (c ∷ s) =
    let rest = after_userinfo s in if is_end c then (if c == b'@' then some s else none) else rest

abbrev pub starts_with_letter : List ℕ → Bool
starts_with_letter [] = false
starts_with_letter (c ∷ s) = is_letter c

abbrev pub after_scheme : List ℕ × List ℕ → Option (List ℕ × List ℕ)
after_scheme (scheme, rest) =
    if starts_with_letter scheme
    then ((strip_prefix (codes "://") rest >>= after_userinfo) >>= (λ host. some (scheme, host)))
    else none

-- the scheme and what is behind the `@`, where USERINFO_RE matches
unfoldable pub match_userinfo : List ℕ → Option (List ℕ × List ℕ)
match_userinfo raw = after_scheme (scan_scheme raw)

abbrev pub replaced : List ℕ → Option (List ℕ × List ℕ) → List ℕ
replaced raw none = raw
replaced raw (some (scheme, host)) = scheme ++ (codes "://***@" ++ host)

abbrev pub masked : List ℕ → Option Bool → List ℕ
masked raw none = codes "[unparseable-url]"
masked raw (some found) = if found then replaced raw (match_userinfo raw) else raw

abbrev pub join : List (List ℕ) → List ℕ
join [] = []
join (s ∷ []) = s
join (s ∷ t ∷ rest) = s ++ b',' ∷ join (t ∷ rest)

-- `filter(Boolean)` on texts
abbrev pub not_empty : List (List ℕ) → List (List ℕ)
not_empty [] = []
not_empty ([] ∷ rest) = not_empty rest
not_empty ((c ∷ s) ∷ rest) = (c ∷ s) ∷ not_empty rest

module _ (has_credentials : List ℕ → Option Bool) where
  unfoldable pub mask_proxy_url : List ℕ → List ℕ
  mask_proxy_url [] = []
  mask_proxy_url (c ∷ s) = masked (c ∷ s) (has_credentials (c ∷ s))

  unfoldable pub mask_proxy_url_list : List ℕ → List ℕ
  mask_proxy_url_list csv =
      join (map mask_proxy_url (not_empty (map (λ s. trim_end (trim_start s)) (split b',' csv))))
