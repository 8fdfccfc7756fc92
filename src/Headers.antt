-- ===== src/Headers.antt =====
-- src/core/headers.ts: the checks of the Host and Origin headers. Names and values are lists of
-- UTF-16 code units; the headers stand in the order of `Object.keys`.
pub mod Hosts
pub mod Fields
pub mod Accepts
mod Tests
use emcp.Prelude.{
  ℕ, suc, Bool, true, false, not, ◌&&◌, ◌||◌, Option, none, some, List, [], ◌∷◌, ◌==◌,
  if◌then◌else◌, same_text, all, any, codes, to_lower, strip_prefix, ◌>>=◌, length,
}

pub data HeaderValue : Type 0 where
  single : List ℕ → HeaderValue
  several : List (List ℕ) → HeaderValue

abbrev pub Headers : Type 0
Headers = List (List ℕ × Option HeaderValue)

pub data HeaderValidationResult : Type 0 where
  ok : Option (List ℕ) → HeaderValidationResult
  host_mismatch origin_not_allowed origin_required : HeaderValidationResult

pub record Options : Type 0 where
  pub expected_host : List ℕ
  pub allowed_origins : List (List ℕ)
  pub require_origin : Bool

unfoldable pub get_header : Headers → List ℕ → Option HeaderValue
get_header [] name = none
get_header ((key, value) ∷ headers) name =
    let later = get_header headers name in
    if same_text (to_lower key) (to_lower name) then value else later

-- the text up to and with the first code unit `c`, and what is behind it
unfoldable pub after_first : ℕ → List ℕ → Option (List ℕ × List ℕ)
after_first c [] = none
after_first c (d ∷ s) =
    let later = after_first c s >>= λ (before, behind). some (d ∷ before, behind) in
    if d == c then some (d ∷ [], s) else later

abbrev pub is_colon : List ℕ → Bool
is_colon [] = false
is_colon (c ∷ s) = c == b':'

-- the text before the first `:`
unfoldable pub before_colon : List ℕ → List ℕ
before_colon [] = []
before_colon (c ∷ s) = let rest = before_colon s in if c == b':' then [] else c ∷ rest

unfoldable pub colons : List ℕ → ℕ
colons [] = 0
colons (c ∷ s) = let rest = colons s in if c == b':' then suc rest else rest

abbrev pub strip_bracket : List ℕ → Option (List ℕ × List ℕ) → List ℕ
strip_bracket host none = host
strip_bracket host (some (literal, tail)) = if is_colon tail then literal else host

abbrev pub is_bracket : List ℕ → Bool
is_bracket [] = false
is_bracket (c ∷ s) = c == b'['

unfoldable pub strip_port : List ℕ → List ℕ
strip_port host =
    if is_bracket host
    then strip_bracket host (after_first b']' host)
    else if colons host == 1
    then before_colon host
    else host

abbrev pub all_same : List ℕ → List (List ℕ) → Bool
all_same s [] = true
all_same s (t ∷ ts) = same_text t s && all_same s ts

-- the one value of a header: of several, all must be the same
unfoldable pub one_value : HeaderValue → Option (List ℕ)
one_value (single s) = some s
one_value (several []) = none
one_value (several (s ∷ ss)) = if all_same s ss then some s else none

abbrev pub first_value : HeaderValue → Option (List ℕ)
first_value (single s) = some s
first_value (several []) = none
first_value (several (s ∷ ss)) = some s

abbrev pub host_matches : List ℕ → Option (List ℕ) → Bool
host_matches expected none = false
host_matches expected (some host) = same_text (strip_port host) (strip_port expected)

abbrev pub allowed : List (List ℕ) → Option (List ℕ) → HeaderValidationResult
allowed origins none = origin_not_allowed
allowed origins (some origin) =
    if any (λ o. same_text o origin) origins then ok (some origin) else origin_not_allowed

abbrev pub check_origin : Options → Option HeaderValue → HeaderValidationResult
check_origin options none = if options.require_origin then origin_required else ok none
check_origin options (some value) = allowed options.allowed_origins (first_value value)

unfoldable pub validate_headers : Headers → Options → HeaderValidationResult
validate_headers headers options =
    if host_matches options.expected_host (get_header headers (codes "host") >>= one_value)
    then check_origin options (get_header headers (codes "origin"))
    else host_mismatch
