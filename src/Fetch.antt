-- ===== src/Fetch.antt =====
-- src/shared/net/http.ts: `fetchSafe`, its redirects, its routes to the network and the capped read of a
-- body. What the network does is a `Net`; the hop, which is the number of redirects so far, is an
-- argument, so that a name may resolve differently at each. The guard is the default one
-- on every route. Messages of errors are not kept.
pub mod Loop
pub mod Capped
pub mod Ends
pub mod Guarded
mod Tests
use emcp.Prelude.{
  ℕ, zero, suc, ◌+◌, ◌-◌, Bool, true, false, not, ◌&&◌, ◌||◌, Option, none, some, List, [], ◌∷◌,
  ◌++◌, map, ltb, leb, ◌==◌, length, codes, same_text, any, if◌then◌else◌,
}
use emcp.Address.Private.{take, is_private_address, assert_public_hostname}

pub record Url : Type 0 where
  pub protocol : List ℕ
  pub hostname : List ℕ
  pub href : List ℕ

-- the classes of errors that are told apart, with `code` and `cause.code`
pub data ErrorKind : Type 0 where
  validation transient timeout abort other : ErrorKind

pub record FetchError : Type 0 where
  pub kind : ErrorKind
  pub code : Option (List ℕ)
  pub cause_code : Option (List ℕ)

-- a body: its chunks, and the error behind them, if it breaks off
pub record Stream : Type 0 where
  pub chunks : List (List ℕ)
  pub breaks : Option FetchError

pub record HttpResponse : Type 0 where
  pub status : ℕ
  pub location : Option (List ℕ)
  pub content_type : Option (List ℕ)
  pub body : Option Stream

pub data Reply : Type 0 where
  responds : HttpResponse → Reply
  fails : FetchError → Reply

pub data Resolution : Type 0 where
  found : List (List ℕ) → Resolution
  unresolved : FetchError → Resolution

-- The addresses of a name; the connection to one address of it, at its place; the injected fetcher or
-- the one over the proxies; whether the combined signal is aborted; and the parser of URLs, plain and
-- relative to one.
pub record Net : Type 0 where
  pub resolve : ℕ → List ℕ → Resolution
  pub connect : ℕ → ℕ → Url → List ℕ → Reply
  pub send : ℕ → Url → Reply
  pub is_aborted : ℕ → Bool
  pub parse_url : List ℕ → Option Url
  pub parse_relative : List ℕ → Url → Option Url

-- what was asked: an address, for a URL, or whom `send` asks
pub data Contact : Type 0 where
  address : Url → List ℕ → Contact
  sent : Url → Contact

pub data Failure : Type 0 where
  invalid_url aborted unsupported_protocol timed_out network_error : Failure
  no_location too_many_redirects invalid_location : Failure
  bubbles : FetchError → Failure

pub record FetchSafeResult : Type 0 where
  pub final_url : List ℕ
  pub status : ℕ
  pub content_type : Option (List ℕ)
  pub body : List ℕ
  pub wire_truncated : Bool

pub data Outcome : Type 0 where
  returns : FetchSafeResult → Outcome
  throws : Failure → Outcome

pub data Mode : Type 0 where
  injected proxied pinned : Mode

-- `pool`: the size of the pool in use, if there is one
unfoldable pub mode_of : Bool → Bool → Option ℕ → Mode
mode_of has_fetcher proxy_off pool =
    if has_fetcher
    then injected
    else if proxy_off
    then pinned
    else elim pool [ none ↦ pinned | some size ↦ if ltb 0 size then proxied else pinned ]

pub record FetchSafeOptions : Type 0 where
  pub mode : Mode
  pub max_bytes : ℕ
  pub max_redirects : ℕ

abbrev pub is_connect_code : Option (List ℕ) → Bool
is_connect_code none = false
is_connect_code (some code) =
    any (λ c. same_text code c)
      (codes "ECONNREFUSED" ∷ codes "EHOSTUNREACH" ∷ codes "ENETUNREACH" ∷ [])

-- `rec.code ?? rec.cause?.code`
abbrev pub code_of : FetchError → Option (List ℕ)
code_of e = elim e.code [ none ↦ e.cause_code | some code ↦ some code ]

unfoldable pub is_connect_error : FetchError → Bool
is_connect_error e = is_connect_code (code_of e)

abbrev pub mapped : ErrorKind → Failure
mapped timeout = timed_out
mapped abort = aborted
mapped _ = network_error

unfoldable pub map_fetch_error : FetchError → Failure
map_fetch_error e = mapped e.kind

abbrev pub validation_error : FetchError
validation_error = record { kind = validation; code = none; cause_code = none }

abbrev pub no_connection : FetchError
no_connection = record { kind = other; code = none; cause_code = none }

-- The bytes that are kept, and whether more came. `total` bytes are there already.
unfoldable pub read_from : ℕ → ℕ → List (List ℕ) → List ℕ × Bool
read_from max_bytes total [] = ([], false)
read_from max_bytes total (value ∷ chunks) =
    let (rest, truncated) = read_from max_bytes (total + length value) chunks in
    if ltb max_bytes (total + length value)
    then (take (length value - (total + length value - max_bytes)) value, true)
    else (value ++ rest, truncated)

-- a stream that breaks off is not read to its break once the cap is passed
unfoldable pub read_capped_body : Option Stream → ℕ → (List ℕ × Bool) × Option FetchError
read_capped_body none max_bytes = (([], false), none)
read_capped_body (some stream) max_bytes =
    let (buffer, truncated) = read_from max_bytes 0 stream.chunks in
    ((buffer, truncated), if truncated then none else stream.breaks)

abbrev pub is_redirect : ℕ → Bool
is_redirect status = leb 300 status && ltb status 400 && not (status == 304)

abbrev pub is_http : Url → Bool
is_http url = same_text url.protocol (codes "http:") || same_text url.protocol (codes "https:")

-- what one hop gives: a response, or the failure that ends the fetch
pub data Tried : Type 0 where
  got : HttpResponse → Tried
  failed : Failure → Tried
