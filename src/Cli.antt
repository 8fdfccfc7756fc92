-- ===== src/Cli.antt =====
-- src/cli/common.ts, src/cli/keys.ts and the commands of src/cli/keys: the administration of keys over the
-- repository of module Keys. Names and arguments are texts; what `parseArgs` of node:util makes of the
-- arguments is an input, none where it throws. Output, audit and log are left out. A write
-- that throws has not been made.
pub mod Commands
pub mod Effects
pub mod Exits
mod Tests
use Prim.Native.String
use emcp.Prelude.{
  ℕ, zero, suc, Bool, true, false, not, ◌&&◌, ◌||◌, String, Option, none, some, List, [], ◌∷◌,
  ◌>>=◌, ltb, leb, ◌==◌, length, codes, all, any, split, same_text, str_eq, to_lower, is_decimal,
  decimal_from, is_lower_hex, strip_prefix, if◌then◌else◌,
}
use emcp.Keys.{
  ApiKeyRecord, ApiKeyStatus, is_active, is_blacklisted, is_deleted, Db, CreateApiKeyInput, Unique,
  missing, one, ambiguous, find_by_id, find_by_prefix_unique, create, blacklist, unblacklist,
  soft_delete, set_rate_limit, select,
}
use emcp.Address.{trim_start, trim_end}
use emcp.Address.Cidr.{is_canonical}

-- EXIT_OK, EXIT_NOT_FOUND, EXIT_VALIDATION, EXIT_CONFIG
abbrev pub exit_ok : ℕ
exit_ok = 0

abbrev pub exit_not_found : ℕ
exit_not_found = 1

abbrev pub exit_validation : ℕ
exit_validation = 2

abbrev pub exit_config : ℕ
exit_config = 3

-- What the arguments of a command are after `parseArgs`. A name option is a text and its string.
pub record Arguments : Type 0 where
  pub positionals : List String
  pub yes : Bool
  pub name : Option String
  pub rate_limit : Option String
  pub allow_no_origin : Bool
  pub status : Option String

-- What a command meets: whether the database answers reads and writes, the line on standard input, the
-- time, and the id, the prefix and the hash of a key that would be created.
pub record Surroundings : Type 0 where
  pub reads : Bool
  pub writes : Bool
  pub answer : List ℕ
  pub now : ℕ
  pub new_id : String
  pub new_prefix : String
  pub new_hash : String
  pub default_limit : ℕ

-- a command returns its exit code, or throws
pub data Ran : Type 0 where
  exits : ℕ → Db → Ran
  raises : Ran

abbrev pub has_length : ℕ → List ℕ → Bool
has_length n part = length part == n && all is_lower_hex part

-- the parts between the dashes, in lower case
unfoldable pub are_uuid_parts : List (List ℕ) → Bool
are_uuid_parts (a ∷ b ∷ c ∷ d ∷ e ∷ []) =
    has_length 8 a && (has_length 4 b && (has_length 4 c && (has_length 4 d && has_length 12 e)))
are_uuid_parts _ = false

-- UUID_RE
unfoldable pub is_uuid : List ℕ → Bool
is_uuid value = are_uuid_parts (split b'-' (to_lower value))

pub data FindKeyResult : Type 0 where
  found : ApiKeyRecord → FindKeyResult
  not_found ambiguous_prefix : FindKeyResult

abbrev pub of_option : Option ApiKeyRecord → FindKeyResult
of_option none = not_found
of_option (some r) = found r

abbrev pub of_unique : Unique → FindKeyResult
of_unique missing = not_found
of_unique (one r) = found r
of_unique (ambiguous n) = ambiguous_prefix

-- `canonical` is what Postgres reads a UUID as
unfoldable pub find_key : (String → String) → Db → String → FindKeyResult
find_key canonical db id_or_prefix =
    if is_uuid (codes id_or_prefix)
    then of_option (find_by_id db (canonical id_or_prefix))
    else of_unique (find_by_prefix_unique db id_or_prefix)

-- /^y(es)?$/i
unfoldable pub confirm : List ℕ → Bool
confirm answer =
    let word = to_lower (trim_end (trim_start answer)) in
    same_text word (codes "y") || same_text word (codes "yes")

-- the digits at the front of a text
unfoldable pub digits_of : List ℕ → List ℕ
digits_of [] = []
digits_of (c ∷ s) = let rest = digits_of s in if is_decimal c then c ∷ rest else []

abbrev pub positive : List ℕ → Option ℕ
positive digits = let n = decimal_from 0 digits in if ltb n 1 then none else some n

abbrev pub without_plus : List ℕ → List ℕ
without_plus s = elim (strip_prefix (codes "+") s) [ none ↦ s | some rest ↦ rest ]

-- `Number.parseInt(s, 10)`, none unless it is at least 1; numbers are exact here
unfoldable pub parse_positive : List ℕ → Option ℕ
parse_positive s = positive (digits_of (without_plus (trim_start s)))

-- the check of `set-rate-limit`, which also wants the text that `String` gives back
unfoldable pub parse_canonical : List ℕ → Option ℕ
parse_canonical s = if is_canonical s then positive s else none

abbrev pub is_empty : String → Bool
is_empty s = str_eq s ""

-- the first positional, if it is not empty
abbrev pub target_of : List String → Option String
target_of [] = none
target_of (s ∷ rest) = if is_empty s then none else some s
