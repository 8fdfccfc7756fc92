-- ===== src/Headers/Accepts.antt =====
-- Which headers `validateHeaders` of src/core/headers.ts accepts.
use emcp.Prelude.{
  ℕ, ◌≡◌, refl, ap, sym, ◌∙◌, inl, inr, ◌↔◌, true, false, Option, none, some, List, [], ◌∷◌, ◌++◌,
  any, codes, same_text, same_text_sound, same_text_refl, ◌>>=◌, arith, Bool-cases, if_true,
  false≢true, subst,
}
use emcp.Headers.{
  HeaderValue, Headers, ok, Options, get_header, strip_port, one_value, first_value, host_matches,
  allowed, check_origin, validate_headers,
}
use emcp.Headers.Hosts.{IsNameOf, strip_port-IsNameOf, IsNameOf-strip_port}
use emcp.Headers.Fields.{
  FieldIs, OnlyValue, FirstValue, get_header_iff, one_value_iff, first_value_iff,
}

-- an entry of a list
abbrev pub Entry : List ℕ → List (List ℕ) → Type 0
Entry s ss = (before : List (List ℕ)) × (after : List (List ℕ)) × (ss ≡ before ++ (s ∷ after))

any-Entry : (s : List ℕ) (ss : List (List ℕ)) → any (λ o. same_text o s) ss ≡ true → Entry s ss
any-Entry s [] h = elim (false≢true h) [ ]
any-Entry s (o ∷ ss) h = elim (Bool-cases (same_text o s)) [
  | inl same ↦ ([], ss, ap (λ x. x ∷ ss) (same_text_sound o s same))
  | inr other ↦
      let (before, after, e) = any-Entry s ss (ground (arith, h, other)) in
      (o ∷ before, after, ap (λ r. o ∷ r) e)
]

Entry-any :
    (s : List ℕ) (before after : List (List ℕ))
    → any (λ o. same_text o s) (before ++ (s ∷ after)) ≡ true
Entry-any s [] after = ground (arith, same_text_refl s)
Entry-any s (o ∷ before) after = ground (arith, Entry-any s before after)

-- One host, however often it stands, whose name is the expected one's.
abbrev pub HostFits : Headers → Options → Type 0
HostFits headers options =
    (v : HeaderValue) × (host : List ℕ) × (name : List ℕ) × FieldIs headers (codes "host") (some v)
    × OnlyValue v host
    × IsNameOf host name
    × IsNameOf options.expected_host name

-- an allowed origin, or none where none is required
abbrev pub OriginFits : Options → Option HeaderValue → Option (List ℕ) → Type 0
OriginFits options none o = (options.require_origin ≡ false) × (o ≡ none)
OriginFits options (some value) o =
    (origin : List ℕ) × FirstValue value origin
    × Entry origin options.allowed_origins
    × (o ≡ some origin)

abbrev pub OriginOf : Headers → Options → Option (List ℕ) → Type 0
OriginOf headers options o =
    (v : Option HeaderValue) × FieldIs headers (codes "origin") v × OriginFits options v o

host_matches-HostFits :
    (headers : Headers) (options : Options) (v : Option HeaderValue)
    → get_header headers (codes "host") ≡ v
    → host_matches options.expected_host (v >>= one_value) ≡ true
    → HostFits headers options
host_matches-HostFits headers options none e h = elim (false≢true h) [ ]
host_matches-HostFits headers options (some v) e h = host_value (one_value v) refl h
  where
    host_value :
        (o : Option (List ℕ))
        → one_value v ≡ o
        → host_matches options.expected_host o ≡ true
        → HostFits headers options
    host_value none e' h' = elim (false≢true h') [ ]
    host_value (some host) e' h' = (
      v,
      host,
      strip_port host,
      (get_header_iff headers (codes "host") (some v)).0 e,
      (one_value_iff v host).0 e',
      strip_port-IsNameOf host,
      subst (IsNameOf options.expected_host)
          (sym (same_text_sound (strip_port host) (strip_port options.expected_host) h'))
          (strip_port-IsNameOf options.expected_host),
    )

HostFits-host_matches :
    (headers : Headers) (options : Options)
    → HostFits headers options
    → host_matches options.expected_host (get_header headers (codes "host") >>= one_value) ≡ true
HostFits-host_matches headers options (v, host, name, field, only, named, expected) =
    let same =
      IsNameOf-strip_port host name named
      ∙ sym (IsNameOf-strip_port options.expected_host name expected) in
    ap (λ o. host_matches options.expected_host (o >>= one_value))
      ((get_header_iff headers (codes "host") (some v)).1 field)
    ∙ ap (host_matches options.expected_host) ((one_value_iff v host).1 only)
    ∙ ap (λ s. same_text s (strip_port options.expected_host)) same
    ∙ same_text_refl (strip_port options.expected_host)

allowed_sound :
    (origins : List (List ℕ)) (v o : Option (List ℕ))
    → allowed origins v ≡ ok o
    → (origin : List ℕ) × (v ≡ some origin) × Entry origin origins × (o ≡ some origin)
allowed_sound origins none o h = elim (false≢true (ground (arith, h))) [ ]
allowed_sound origins (some x) o h = elim (Bool-cases (any (λ y. same_text y x) origins)) [
  | inl there ↦ (x, refl, any-Entry x origins there, ground (arith, h, there))
  | inr missing ↦ elim (false≢true (ground (arith, h, missing))) [ ]
]

check_origin_sound :
    (options : Options) (v : Option HeaderValue) (o : Option (List ℕ))
    → check_origin options v ≡ ok o
    → OriginFits options v o
check_origin_sound options none o h = (ground (arith, h), ground (arith, h))
check_origin_sound options (some value) o h =
    let (origin, first, entry, e) = allowed_sound options.allowed_origins (first_value value) o h in
    (origin, (first_value_iff value origin).0 first, entry, e)

check_origin_complete :
    (options : Options) (v : Option HeaderValue) (o : Option (List ℕ))
    → OriginFits options v o
    → check_origin options v ≡ ok o
check_origin_complete options none o (free, e) = ground (arith, free, e)
check_origin_complete options (some value) o (origin, first, (before, after, e), e') =
    ap (allowed options.allowed_origins) ((first_value_iff value origin).1 first)
    ∙ if_true _ (ap (λ ss. any (λ x. same_text x origin) ss) e ∙ Entry-any origin before after)
    ∙ ap (λ x. ok x) (sym e')

validate_headers_sound :
    (headers : Headers) (options : Options) (o : Option (List ℕ))
    → validate_headers headers options ≡ ok o
    → HostFits headers options × OriginOf headers options o
unfolding validate_headers
validate_headers_sound headers options o h =
    let host = get_header headers (codes "host") >>= one_value in
    elim (Bool-cases (host_matches options.expected_host host)) [
      | inl fits ↦ (
        host_matches-HostFits headers options (get_header headers (codes "host")) refl fits,
        (
          get_header headers (codes "origin"),
          (get_header_iff headers (codes "origin") _).0 refl,
          check_origin_sound options (get_header headers (codes "origin")) o
              (sym (if_true _ fits) ∙ h),
        ),
      )
      | inr other ↦ elim (false≢true (ground (arith, h, other))) [ ]
    ]

-- `validateHeaders` accepts exactly if the first header named `host`, in any case, has one value, which
-- may stand several times, and its name, without a port, is that of the expected host; and if the
-- first header named `origin` has an allowed origin as its first value, or there is none and none is
-- required. It then returns that origin.
pub validate_headers-ok_iff :
    (headers : Headers) (options : Options) (o : Option (List ℕ))
    → (validate_headers headers options ≡ ok o)
      ↔ (HostFits headers options × OriginOf headers options o)
unfolding validate_headers
validate_headers-ok_iff headers options o = (
  validate_headers_sound headers options o,
  λ (host, (v, field, origin)).
      if_true _ (HostFits-host_matches headers options host)
      ∙ ap (check_origin options) ((get_header_iff headers (codes "origin") v).1 field)
      ∙ check_origin_complete options v o origin,
)
