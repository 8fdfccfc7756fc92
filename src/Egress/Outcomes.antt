-- ===== src/Egress/Outcomes.antt =====
-- `classifyError` of src/shared/net/egress.ts: what is an abort, and what a failure of the proxy.
use emcp.Prelude.{
  String, ◌≡◌, refl, ap, sym, ◌∙◌, ◌⊎◌, inl, inr, Bool, true, false, Option, none, some, arith,
  eq_iff, str_eq, Bool-cases, if_true, if_false, false≢true, none-some,
}
use emcp.Proxy.Pool.{ProxyOutcome, connect_failure, upstream_failure, aborted}
use emcp.Egress.{
  Thrown, classify_error, is_abort_like, extract_code, is_known, member, known_connect_error_codes,
  is_aborted,
}

-- an abort: of the caller's signal, or of the fetch by its name
abbrev pub IsAbort : Thrown → Bool → Type 0
IsAbort err signal_aborted =
    (signal_aborted ≡ true)
    ⊎ ((err.is_error ≡ true) × ((err.name ≡ "AbortError") ⊎ (err.name ≡ "TimeoutError")))

-- the code of an error: its own, or else that of its cause
abbrev pub HasCode : Thrown → String → Type 0
HasCode err c =
    (err.is_object ≡ true) × ((err.code ≡ some c) ⊎ ((err.code ≡ none) × (err.cause_code ≡ some c)))

abbrev pub IsConnectError : Thrown → Type 0
IsConnectError err = (c : String) × HasCode err c × (member c known_connect_error_codes ≡ true)

-- an error that is no abort, and the outcome that it is
abbrev pub IsFailure : Thrown → Bool → ProxyOutcome → Type 0
IsFailure err signal_aborted outcome =
    ¬ IsAbort err signal_aborted
    × (((outcome ≡ connect_failure) × IsConnectError err)
        ⊎ ((outcome ≡ upstream_failure) × ¬ IsConnectError err))

pub not_aborted :
    (err : Thrown) (signal_aborted : Bool) (outcome : ProxyOutcome)
    → IsFailure err signal_aborted outcome
    → is_aborted outcome ≡ false
not_aborted err signal_aborted outcome (going, inl (e, known)) = ap is_aborted e
not_aborted err signal_aborted outcome (going, inr (e, unknown)) = ap is_aborted e

abort_like_iff :
    (err : Thrown)
    → is_abort_like err ≡ true
    → (err.is_error ≡ true) × ((err.name ≡ "AbortError") ⊎ (err.name ≡ "TimeoutError"))
unfolding is_abort_like
abort_like_iff err h = elim (Bool-cases err.is_error) [
  | inl is_err ↦ elim (Bool-cases (str_eq err.name "AbortError")) [
    | inl same ↦ (is_err, inl ((eq_iff err.name "AbortError").0 same))
    | inr other ↦
        (is_err, inr ((eq_iff err.name "TimeoutError").0 (ground (arith, h, is_err, other))))
  ]
  | inr not_it ↦ elim (false≢true (ground (arith, h, not_it))) [ ]
]

abort_like :
    (err : Thrown)
    → (err.is_error ≡ true) × ((err.name ≡ "AbortError") ⊎ (err.name ≡ "TimeoutError"))
    → is_abort_like err ≡ true
unfolding is_abort_like
abort_like err (is_err, inl e) = ground (arith, is_err, (eq_iff err.name "AbortError").1 e)
abort_like err (is_err, inr e) = ground (arith, is_err, (eq_iff err.name "TimeoutError").1 e)

extract_code-HasCode : (err : Thrown) (c : String) → extract_code err ≡ some c → HasCode err c
unfolding extract_code
extract_code-HasCode err c h = elim (Bool-cases err.is_object) [
  | inl obj ↦ (obj, of_codes err.code err.cause_code (sym (if_true _ obj) ∙ h))
  | inr not_it ↦ elim (none-some (sym (if_false _ not_it) ∙ h)) [ ]
]
  where
    of_codes :
        (own cause : Option String)
        → elim own [ some d ↦ some d | none ↦ cause ] ≡ some c
        → (own ≡ some c) ⊎ ((own ≡ none) × (cause ≡ some c))
    of_codes none cause e = inr (refl, e)
    of_codes (some d) cause e = inl e

HasCode-extract_code : (err : Thrown) (c : String) → HasCode err c → extract_code err ≡ some c
unfolding extract_code
HasCode-extract_code err c (obj, inl e) = rw (obj, e) refl
HasCode-extract_code err c (obj, inr (e, e')) = rw (obj, e, e') refl

known-IsConnectError : (err : Thrown) → is_known (extract_code err) ≡ true → IsConnectError err
unfolding is_known
known-IsConnectError err = of_code (extract_code err) refl
  where
    of_code : (o : Option String) → extract_code err ≡ o → is_known o ≡ true → IsConnectError err
    of_code none e h = elim (false≢true h) [ ]
    of_code (some c) e h = (c, extract_code-HasCode err c e, h)

IsConnectError-known : (err : Thrown) → IsConnectError err → is_known (extract_code err) ≡ true
unfolding is_known
IsConnectError-known err (c, has, known) = ap is_known (HasCode-extract_code err c has) ∙ known

-- `classifyError` tells aborts from failures, and connect from upstream failures.
pub classify_error-cases :
    (err : Thrown) (signal_aborted : Bool)
    → ((classify_error err signal_aborted ≡ aborted) × IsAbort err signal_aborted)
      ⊎ IsFailure err signal_aborted (classify_error err signal_aborted)
unfolding classify_error
classify_error-cases err true = inl (refl, inl refl)
classify_error-cases err false = elim (Bool-cases (is_abort_like err)) [
  | inl like ↦ inl (if_true _ like, inr (abort_like_iff err like))
  | inr unlike ↦ inr (
    go unlike,
    elim (Bool-cases (is_known (extract_code err))) [
      | inl known ↦ inl (if_false _ unlike ∙ if_true _ known, known-IsConnectError err known)
      | inr unknown ↦ inr (
        if_false _ unlike ∙ if_false _ unknown,
        λ c. false≢true (sym unknown ∙ IsConnectError-known err c),
      )
    ],
  )
]
  where
    go : is_abort_like err ≡ false → ¬ IsAbort err false
    go unlike (inl e) = false≢true e
    go unlike (inr like) = false≢true (sym unlike ∙ abort_like err like)
