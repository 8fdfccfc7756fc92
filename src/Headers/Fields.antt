-- ===== src/Headers/Fields.antt =====
-- `getHeader` of src/core/headers.ts and the values of a header.
use emcp.Prelude.{
  ℕ, ◌≡◌, ◌≢◌, refl, ap, sym, ◌∙◌, ◌⊎◌, inl, inr, true, false, Option, none, some, List, [], ◌∷◌,
  ◌++◌, arith, All, Bool-cases, if_true, if_false, same_text, same_text_sound, same_text_refl,
  to_lower, false≢true, subst, ◌↔◌, length, All-mono, some_same, none-some,
}
use emcp.Headers.{
  HeaderValue, single, several, Headers, get_header, all_same, one_value, first_value,
}

abbrev pub OtherName : List ℕ → List ℕ × Option HeaderValue → Type 0
OtherName name h = to_lower h.0 ≢ to_lower name

-- the first entry of a name, whatever its case
abbrev pub Holds : Headers → List ℕ → Option HeaderValue → Type 0
Holds headers name v =
    (before : Headers) × (key : List ℕ) × (after : Headers) × (headers ≡ before ++ (key, v) ∷ after)
    × (to_lower key ≡ to_lower name)
    × All (OtherName name) before

-- the value of a header, none if no entry has its name
abbrev pub FieldIs : Headers → List ℕ → Option HeaderValue → Type 0
FieldIs headers name v = Holds headers name v ⊎ (All (OtherName name) headers × (v ≡ none))

get_header-FieldIs :
    (headers : Headers) (name : List ℕ) → FieldIs headers name (get_header headers name)
unfolding get_header
get_header-FieldIs [] name = inr (tt, refl)
get_header-FieldIs ((key, v) ∷ headers) name =
    elim (Bool-cases (same_text (to_lower key) (to_lower name))) [
      | inl same ↦
          rw same
            (inl ([], key, headers, refl, same_text_sound (to_lower key) (to_lower name) same, tt))
      | inr other ↦ rw other (elim (get_header-FieldIs headers name) [
        | inl (before, k, after, e, named, free) ↦
            inl (
              (key, v) ∷ before,
              k,
              after,
              ap (λ hs. (key, v) ∷ hs) e,
              named,
              (differs other, free),
            )
        | inr (free, e) ↦ inr ((differs other, free), e)
      ])
    ]
  where
    differs : same_text (to_lower key) (to_lower name) ≡ false → to_lower key ≢ to_lower name
    differs other e =
        false≢true
          (sym other ∙ ap (λ s. same_text s (to_lower name)) e ∙ same_text_refl (to_lower name))

skips :
    (name : List ℕ) (before rest : Headers)
    → All (OtherName name) before
    → get_header (before ++ rest) name ≡ get_header rest name
unfolding get_header
skips name [] rest h = refl
skips name ((key, v) ∷ before) rest (other, h) =
    elim (Bool-cases (same_text (to_lower key) (to_lower name))) [
      | inl same ↦ elim (other (same_text_sound (to_lower key) (to_lower name) same)) [ ]
      | inr differs ↦ if_false _ differs ∙ skips name before rest h
    ]

missing-get_header :
    (headers : Headers) (name : List ℕ)
    → All (OtherName name) headers
    → get_header headers name ≡ none
unfolding get_header
missing-get_header [] name h = refl
missing-get_header ((key, v) ∷ headers) name (other, h) =
    elim (Bool-cases (same_text (to_lower key) (to_lower name))) [
      | inl same ↦ elim (other (same_text_sound (to_lower key) (to_lower name) same)) [ ]
      | inr differs ↦ if_false _ differs ∙ missing-get_header headers name h
    ]

found-get_header :
    (name key : List ℕ) (v : Option HeaderValue) (after : Headers)
    → to_lower key ≡ to_lower name
    → get_header ((key, v) ∷ after) name ≡ v
unfolding get_header
found-get_header name key v after e =
    if_true _ (ap (λ s. same_text s (to_lower name)) e ∙ same_text_refl (to_lower name))

-- `getHeader` returns the value of the header.
pub get_header_iff :
    (headers : Headers) (name : List ℕ) (v : Option HeaderValue)
    → (get_header headers name ≡ v) ↔ FieldIs headers name v
get_header_iff headers name v = (
  λ e. subst (FieldIs headers name) e (get_header-FieldIs headers name),
  λ field. elim field [
    | inl (before, key, after, e, named, free) ↦
        ap (λ hs. get_header hs name) e
        ∙ skips name before ((key, v) ∷ after) free
        ∙ found-get_header name key v after named
    | inr (free, e) ↦ missing-get_header headers name free ∙ sym e
  ],
)

-- the one value of a header, which may stand several times
abbrev pub OnlyValue : HeaderValue → List ℕ → Type 0
OnlyValue (single s) value = s ≡ value
OnlyValue (several ss) value =
    (rest : List (List ℕ)) × (ss ≡ value ∷ rest) × All (λ s. s ≡ value) rest

abbrev pub FirstValue : HeaderValue → List ℕ → Type 0
FirstValue (single s) value = s ≡ value
FirstValue (several ss) value = (rest : List (List ℕ)) × (ss ≡ value ∷ rest)

all_same-All : (s : List ℕ) (ts : List (List ℕ)) → all_same s ts ≡ true → All (λ t. t ≡ s) ts
all_same-All s [] h = tt
all_same-All s (t ∷ ts) h =
    (same_text_sound t s (ground (arith, h)), all_same-All s ts (ground (arith, h)))

All-all_same : (s : List ℕ) (ts : List (List ℕ)) → All (λ t. t ≡ s) ts → all_same s ts ≡ true
All-all_same s [] h = refl
All-all_same s (t ∷ ts) (e, h) =
    let same : same_text t s ≡ true = ap (λ x. same_text x s) e ∙ same_text_refl s in
    ground (arith, same, All-all_same s ts h)

pub one_value_iff : (v : HeaderValue) (s : List ℕ) → (one_value v ≡ some s) ↔ OnlyValue v s
unfolding one_value
one_value_iff (single t) s = (λ e. some_same e, λ e. ap (λ x. some x) e)
one_value_iff (several []) s = (λ e. elim (none-some e) [ ], λ (rest, e, h). elim (no_cons e) [ ])
  where
    no_cons : {rest : List (List ℕ)} → [] ≡ s ∷ rest → ⊥
    no_cons e = ground (arith, ap length e)
one_value_iff (several (t ∷ ts)) s = (
  λ e. elim (Bool-cases (all_same t ts)) [
    | inl same ↦
        let e' = some_same (sym (if_true _ same) ∙ e) in
        (ts, ap (λ x. x ∷ ts) e', All-mono (λ x h. h ∙ e') ts (all_same-All t ts same))
    | inr differ ↦ elim (none-some (sym (if_false _ differ) ∙ e)) [ ]
  ],
  λ (rest, e, h).
      let e' = head_of e in
      if_true _ (
        All-all_same t ts
          (subst (All (λ x. x ≡ t)) (sym (tail_of e)) (All-mono (λ x h'. h' ∙ sym e') rest h)))
      ∙ ap (λ x. some x) e',
)
  where
    head_of : {rest : List (List ℕ)} → t ∷ ts ≡ s ∷ rest → t ≡ s
    head_of e = ap (λ (l : List (List ℕ)). elim l [ [] ↦ [] | x ∷ xs ↦ x ]) e

    tail_of : {rest : List (List ℕ)} → t ∷ ts ≡ s ∷ rest → ts ≡ rest
    tail_of e = ap (λ (l : List (List ℕ)). elim l [ [] ↦ [] | x ∷ xs ↦ xs ]) e

pub first_value_iff : (v : HeaderValue) (s : List ℕ) → (first_value v ≡ some s) ↔ FirstValue v s
first_value_iff (single t) s = (λ e. some_same e, λ e. ap (λ x. some x) e)
first_value_iff (several []) s = (λ e. elim (none-some e) [ ], λ (rest, e). elim (no_cons e) [ ])
  where
    no_cons : {rest : List (List ℕ)} → [] ≡ s ∷ rest → ⊥
    no_cons e = ground (arith, ap length e)
first_value_iff (several (t ∷ ts)) s = (
  λ e. (ts, ap (λ x. x ∷ ts) (some_same e)),
  λ (rest, e). ap (λ x. some x) (ap (λ (l : List (List ℕ)). elim l [ [] ↦ [] | x ∷ xs ↦ x ]) e),
)
