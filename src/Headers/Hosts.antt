-- ===== src/Headers/Hosts.antt =====
-- `stripPort` of src/core/headers.ts against the forms of a host with a port.
use emcp.Prelude.{
  ℕ, suc, ◌≡◌, ◌≢◌, refl, ap, sym, ◌∙◌, subst, ◌⊎◌, inl, inr, Bool, true, false, Option, none, some,
  List, [], ◌∷◌, ◌++◌, ◌==◌, ==_iff, arith, All, Bool-cases, if_true, if_false, ◌>>=◌, length,
  length-append, false≢true,
}
use emcp.Headers.{after_first, before_colon, colons, strip_bracket, is_bracket, strip_port}

abbrev pub Lacks : ℕ → List ℕ → Type 0
Lacks c = All (λ d. (d == c) ≡ false)

-- a literal in brackets, with a port
abbrev pub IsLiteral : List ℕ → List ℕ → Type 0
IsLiteral host name =
    (literal : List ℕ) × (port : List ℕ) × Lacks b']' literal
    × (host ≡ b'[' ∷ (literal ++ b']' ∷ b':' ∷ port))
    × (name ≡ b'[' ∷ (literal ++ b']' ∷ []))

-- any other name, with the only colon before its port
abbrev pub IsNamed : List ℕ → List ℕ → Type 0
IsNamed host name =
    (port : List ℕ) × Lacks b':' name
    × Lacks b':' port
    × ((rest : List ℕ) → name ≢ b'[' ∷ rest)
    × (host ≡ name ++ b':' ∷ port)

abbrev pub HasPort : List ℕ → List ℕ → Type 0
HasPort host name = IsLiteral host name ⊎ IsNamed host name

-- the name of a host: what stands before its port, or the whole if it has none
abbrev pub IsNameOf : List ℕ → List ℕ → Type 0
IsNameOf host name = HasPort host name ⊎ ((name ≡ host) × ((n : List ℕ) → ¬ HasPort host n))

after_first-Lacks :
    (c : ℕ) (s t : List ℕ) → Lacks c s → after_first c (s ++ c ∷ t) ≡ some (s ++ c ∷ [], t)
unfolding after_first
after_first-Lacks c [] t h = if_true _ ((==_iff c c).1 refl)
after_first-Lacks c (d ∷ s) t (other, h) = rw (other, after_first-Lacks c s t h) refl

before_colon-Lacks : (s t : List ℕ) → Lacks b':' s → before_colon (s ++ b':' ∷ t) ≡ s
unfolding before_colon
before_colon-Lacks [] t h = refl
before_colon-Lacks (c ∷ s) t (other, h) =
    if_false _ other ∙ ap (λ r. c ∷ r) (before_colon-Lacks s t h)

colons-Lacks : (s : List ℕ) → Lacks b':' s → colons s ≡ 0
unfolding colons
colons-Lacks [] h = refl
colons-Lacks (c ∷ s) (other, h) = if_false _ other ∙ colons-Lacks s h

colons-one : (s t : List ℕ) → Lacks b':' s → Lacks b':' t → colons (s ++ b':' ∷ t) ≡ 1
unfolding colons
colons-one [] t h h' = ap (λ n. suc n) (colons-Lacks t h')
colons-one (c ∷ s) t (other, h) h' = if_false _ other ∙ colons-one s t h h'

Lacks-colons : (s : List ℕ) → colons s ≡ 0 → Lacks b':' s
unfolding colons
Lacks-colons [] h = tt
Lacks-colons (c ∷ s) h = elim (Bool-cases (c == b':')) [
  | inl colon ↦ elim (false≢true (ground (arith, h, colon))) [ ]
  | inr other ↦ (other, Lacks-colons s (sym (if_false _ other) ∙ h))
]

-- no bracket at the front
unbracketed :
    (s t : List ℕ) → ((rest : List ℕ) → s ≢ b'[' ∷ rest) → is_bracket (s ++ b':' ∷ t) ≡ false
unbracketed [] t h = refl
unbracketed (c ∷ s) t h = elim (Bool-cases (c == b'[')) [
  | inl bracket ↦ elim (h s (ap (λ d. d ∷ s) ((==_iff c b'[').0 bracket))) [ ]
  | inr other ↦ other
]

-- A host with a port is stripped of it.
pub HasPort-strip_port : (host name : List ℕ) → HasPort host name → strip_port host ≡ name
unfolding strip_port
HasPort-strip_port host name (inl (literal, port, lacks, e, e')) =
    ap strip_port e
    ∙ ap (λ o. strip_bracket (b'[' ∷ (literal ++ b']' ∷ b':' ∷ port)) o)
        (after_first-Lacks b']' (b'[' ∷ literal) (b':' ∷ port) (refl, lacks))
    ∙ sym e'
HasPort-strip_port host name (inr (port, lacks, lacks', front, e)) =
    ap strip_port e
    ∙ if_false _ (unbracketed name port front)
    ∙ if_true _ (ap (λ n. n == 1) (colons-one name port lacks lacks'))
    ∙ before_colon-Lacks name port lacks

-- the port is not empty text
HasPort-shorter : (host name : List ℕ) → HasPort host name → name ≢ host
HasPort-shorter host name (inl (literal, port, lacks, e, e')) same =
    let lengths = ap length (sym e' ∙ same ∙ e) in
    absurd (
      omega (
        arith,
        lengths,
        length-append literal (b']' ∷ []),
        length-append literal (b']' ∷ b':' ∷ port),
      ))
HasPort-shorter host name (inr (port, lacks, lacks', front, e)) same =
    let lengths = ap length (same ∙ e) in
    absurd (omega (arith, lengths, length-append name (b':' ∷ port)))

abbrev Parts : Type 0
Parts = List ℕ × List ℕ

abbrev first_of : List ℕ → ℕ
first_of [] = 0
first_of (c ∷ s) = c

abbrev found : Option Parts → Bool
found none = false
found (some p) = true

abbrev parts_of : Option Parts → Parts
parts_of none = ([], [])
parts_of (some p) = p

-- how a text splits at its first `c`
abbrev Splits : ℕ → List ℕ → Parts → Type 0
Splits c s p = (front : List ℕ) × Lacks c front × (p.0 ≡ front ++ c ∷ []) × (s ≡ front ++ c ∷ p.1)

after_first-Splits : (c : ℕ) (s : List ℕ) (p : Parts) → after_first c s ≡ some p → Splits c s p
unfolding after_first
after_first-Splits c [] p h = elim (false≢true (ap found h)) [ ]
after_first-Splits c (d ∷ s) p h = elim (Bool-cases (d == c)) [
  | inl here ↦
      let e = ap parts_of (sym (if_true _ here) ∙ h) in
      let same = (==_iff d c).0 here in
      (
        [],
        tt,
        ap (λ (q : Parts). q.0) (sym e) ∙ ap (λ x. x ∷ []) same,
        ap (λ x. x ∷ s) same ∙ ap (λ (q : Parts). c ∷ q.1) e,
      )
  | inr other ↦
      later other (after_first c s) (λ q. after_first-Splits c s q) (sym (if_false _ other) ∙ h)
]
  where
    later :
        (d == c) ≡ false
        → (o : Option Parts) → ((q : Parts) → o ≡ some q → Splits c s q)
        → (o >>= λ (before, behind). some (d ∷ before, behind)) ≡ some p
        → Splits c (d ∷ s) p
    later other none again h' = elim (false≢true (ap found h')) [ ]
    later other (some q) again h' =
        let (front, lacks, e', e'') = again q refl in
        let e3 = ap parts_of h' in
        (
          d ∷ front,
          (other, lacks),
          ap (λ (r : Parts). r.0) (sym e3) ∙ ap (λ r. d ∷ r) e',
          ap (λ r. d ∷ r) e'' ∙ ap (λ (r : Parts). d ∷ (front ++ c ∷ r.1)) e3,
        )

one_colon :
    (s : List ℕ)
    → colons s ≡ 1
    → (port : List ℕ) × Lacks b':' (before_colon s)
      × Lacks b':' port
      × (s ≡ before_colon s ++ b':' ∷ port)
unfolding colons before_colon
one_colon [] h = elim (false≢true (ground (arith, h))) [ ]
one_colon (c ∷ s) h = elim (Bool-cases (c == b':')) [
  | inl colon ↦
      rw colon (
        s,
        tt,
        Lacks-colons s (ground (arith, h, colon)),
        ap (λ d. d ∷ s) ((==_iff c b':').0 colon),
      )
  | inr other ↦
      let (port, lacks, lacks', e) = one_colon s (sym (if_false _ other) ∙ h) in
      rw other (port, (other, lacks), lacks', ap (λ r. c ∷ r) e)
]

strip_nil : strip_port [] ≡ []
unfolding strip_port colons
strip_nil = refl

-- what is stripped is a port
strip_port-cases : (host : List ℕ) → HasPort host (strip_port host) ⊎ (strip_port host ≡ host)
unfolding strip_port
strip_port-cases [] = inr strip_nil
strip_port-cases (c ∷ s) = elim (Bool-cases (c == b'[')) [
  | inl bracket ↦
      let e = (==_iff c b'[').0 bracket in
      subst (λ d. HasPort (d ∷ s) (strip_port (d ∷ s)) ⊎ (strip_port (d ∷ s) ≡ d ∷ s)) (sym e)
        (bracketed (after_first b']' (b'[' ∷ s)) refl)
  | inr other ↦ elim (Bool-cases (colons (c ∷ s) == 1)) [
    | inl one ↦
        rw (other, one)
          (let (port, lacks, lacks', e) = one_colon (c ∷ s) ((==_iff (colons (c ∷ s)) 1).0 one) in
            inl (inr (port, lacks, lacks', front other port e, e)))
    | inr more ↦ rw (other, more) (inr refl)
  ]
]
  where
    front :
        (c == b'[') ≡ false
        → (port : List ℕ) → c ∷ s ≡ before_colon (c ∷ s) ++ b':' ∷ port
        → (rest : List ℕ) → before_colon (c ∷ s) ≢ b'[' ∷ rest
    front other port e rest same =
        false≢true (sym other ∙ ap is_bracket (e ∙ ap (λ n. n ++ b':' ∷ port) same))

    tail_cases :
        (literal behind : List ℕ)
        → Splits b']' (b'[' ∷ s) (literal, behind)
        → HasPort (b'[' ∷ s) (strip_bracket (b'[' ∷ s) (some (literal, behind)))
          ⊎ (strip_bracket (b'[' ∷ s) (some (literal, behind)) ≡ b'[' ∷ s)
    tail_cases literal [] splits = inr refl
    tail_cases literal (d ∷ port) ([], lacks, e, e') =
        elim (false≢true (ap is_bracket (sym e'))) [ ]
    tail_cases literal (d ∷ port) (x ∷ front', lacks, e, e') = elim (Bool-cases (d == b':')) [
      | inl colon ↦ rw colon (
          inl (
            inl (
              front',
              port,
              lacks.1,
              e'
                  ∙ ap (λ y. y ∷ (front' ++ b']' ∷ d ∷ port)) (head_of e')
                  ∙ ap (λ y. b'[' ∷ (front' ++ b']' ∷ y ∷ port)) ((==_iff d b':').0 colon),
              e ∙ ap (λ y. y ∷ (front' ++ b']' ∷ [])) (head_of e'),
            )))
      | inr other ↦ rw other (inr refl)
    ]
      where
        head_of : b'[' ∷ s ≡ x ∷ (front' ++ b']' ∷ d ∷ port) → x ≡ b'['
        head_of eq = sym (ap first_of eq)

    bracketed :
        (o : Option Parts)
        → after_first b']' (b'[' ∷ s) ≡ o
        → HasPort (b'[' ∷ s) (strip_port (b'[' ∷ s)) ⊎ (strip_port (b'[' ∷ s) ≡ b'[' ∷ s)
    bracketed none e = inr (ap (strip_bracket (b'[' ∷ s)) e)
    bracketed (some (literal, behind)) e =
        subst
          (λ o.
            HasPort (b'[' ∷ s) (strip_bracket (b'[' ∷ s) o)
            ⊎ (strip_bracket (b'[' ∷ s) o ≡ b'[' ∷ s))
          (sym e)
          (tail_cases literal behind (after_first-Splits b']' (b'[' ∷ s) (literal, behind) e))

-- `stripPort` gives the name of its host, and no other text is the name of it.
pub strip_port-IsNameOf : (host : List ℕ) → IsNameOf host (strip_port host)
strip_port-IsNameOf host = elim (strip_port-cases host) [
  | inl port ↦ inl port
  | inr whole ↦
      inr (
        whole,
        λ n port. HasPort-shorter host n port (sym (HasPort-strip_port host n port) ∙ whole),
      )
]

pub IsNameOf-strip_port : (host name : List ℕ) → IsNameOf host name → strip_port host ≡ name
IsNameOf-strip_port host name (inl port) = HasPort-strip_port host name port
IsNameOf-strip_port host name (inr (e, none_other)) = elim (strip_port-cases host) [
  | inl port ↦ elim (none_other (strip_port host) port) [ ]
  | inr whole ↦ whole ∙ sym e
]
