-- ===== src/Loader.antt =====
-- src/shared/tools/loader.ts and src/shared/workers/loader.ts, which load definitions from the files of a
-- directory in the same way, and src/shared/tools/redact.ts. What `import` gives of a file, and whether zod
-- or croner accepts what stands in a definition, are inputs. Logging is left out.
pub mod Registry
mod Tests
use emcp.Prelude.{
  ℕ, Bool, true, false, not, ◌&&◌, ◌||◌, Option, none, some, List, [], ◌∷◌, ◌++◌, ◌==◌, leb, all,
  any, codes, split, strip_prefix, same_text, if◌then◌else◌,
}

-- a definition: its name, whether it would be accepted, and the limit per minute of a tool
pub record Definition : Type 0 where
  pub name : List ℕ
  pub accepted : Bool
  pub per_minute : Option ℕ

pub data Imported : Type 0 where
  throws no_default incomplete : Imported
  exports : Definition → Imported

-- `entry` is the path from the directory
pub record File : Type 0 where
  pub entry : List ℕ
  pub imported : Imported

pub data Problem : Type 0 where
  import_failed no_default_export missing_fields invalid_name duplicate_name malformed : Problem

abbrev pub Table : Type 0
Table = List (List ℕ × Definition)

pub data Loaded : Type 0 where
  loaded : Table → Loaded
  refused : Problem → List ℕ → Loaded

-- `s.endsWith(suffix)`
unfoldable pub ends_with : List ℕ → List ℕ → Bool
ends_with suffix [] = same_text suffix []
ends_with suffix (c ∷ s) = same_text suffix (c ∷ s) || ends_with suffix s

abbrev pub last_part : List (List ℕ) → List ℕ
last_part [] = []
last_part (part ∷ []) = part
last_part (part ∷ next ∷ parts) = last_part (next ∷ parts)

abbrev pub starts_with : List ℕ → List ℕ → Bool
starts_with prefix s = elim (strip_prefix prefix s) [ none ↦ false | some rest ↦ true ]

-- EXCLUDED_FILENAMES of the two loaders
abbrev pub tool_files : List (List ℕ)
tool_files = codes "types.ts" ∷ codes "types.js" ∷ codes "loader.ts" ∷ codes "loader.js" ∷ []

abbrev pub worker_files : List (List ℕ)
worker_files =
    codes "types.ts"
    ∷ codes "types.js"
    ∷ codes "loader.ts"
    ∷ codes "loader.js"
    ∷ codes "scheduler.ts"
    ∷ codes "scheduler.js"
    ∷ codes "index.ts"
    ∷ codes "index.js"
    ∷ []

unfoldable pub is_excluded : List (List ℕ) → List ℕ → Bool
is_excluded excluded filename =
    any (λ name. same_text name filename) excluded
    || (ends_with (codes ".test.ts") filename
        || (ends_with (codes ".test.js") filename || starts_with (codes "_") filename))

-- a file that is looked at
unfoldable pub is_candidate : List (List ℕ) → List ℕ → Bool
is_candidate excluded entry =
    (ends_with (codes ".ts") entry || ends_with (codes ".js") entry)
    && not (is_excluded excluded (last_part (split b'/' entry)))

unfoldable pub is_lower : ℕ → Bool
is_lower c = leb b'a' c && leb c b'z'

unfoldable pub is_name_char : ℕ → Bool
is_name_char c = is_lower c || (leb b'0' c && leb c b'9' || c == b'-')

-- /^[a-z][a-z0-9-]*$/
unfoldable pub is_valid_name : List ℕ → Bool
is_valid_name [] = false
is_valid_name (c ∷ s) = is_lower c && all is_name_char s

-- Map.get
unfoldable pub get : Table → List ℕ → Option Definition
get [] name = none
get ((key, def) ∷ table) name =
    let later = get table name in if same_text key name then some def else later

-- the checks of one definition; `rest` goes on with the table
unfoldable pub add_definition :
    Table → List ℕ → Definition → Option Definition → (Table → Loaded) → Loaded
add_definition table entry def (some earlier) rest =
    if is_valid_name def.name then refused duplicate_name entry else refused invalid_name entry
add_definition table entry def none rest =
    if not (is_valid_name def.name)
    then refused invalid_name entry
    else if not def.accepted
    then refused malformed entry
    else rest (table ++ (def.name, def) ∷ [])

unfoldable pub add_imported : Table → List ℕ → Imported → (Table → Loaded) → Loaded
add_imported table entry throws rest = refused import_failed entry
add_imported table entry no_default rest = refused no_default_export entry
add_imported table entry incomplete rest = refused missing_fields entry
add_imported table entry (exports def) rest =
    add_definition table entry def (get table def.name) rest

unfoldable pub load_from : List (List ℕ) → Table → List File → Loaded
load_from excluded table [] = loaded table
load_from excluded table (file ∷ files) =
    if is_candidate excluded file.entry
    then add_imported table file.entry file.imported (λ t. load_from excluded t files)
    else load_from excluded table files

unfoldable pub load_tools : List File → Loaded
load_tools files = load_from tool_files [] files

unfoldable pub load_workers : List File → Loaded
load_workers files = load_from worker_files [] files

-- the fields of a schema, each with its mark
abbrev pub Shape : Type 0
Shape = List (List ℕ × Bool)

unfoldable pub is_sensitive : Shape → List ℕ → Bool
is_sensitive [] key = false
is_sensitive ((name, sensitive) ∷ shape) key =
    sensitive && same_text name key || is_sensitive shape key

-- the redactor of a shape; `hidden` stands for REDACTED_VALUE
unfoldable pub redact : {V : Type 0} → V → Shape → List (List ℕ × V) → List (List ℕ × V)
redact hidden shape [] = []
redact hidden shape ((key, value) ∷ args) =
    let rest = redact hidden shape args in
    if is_sensitive shape key then (key, hidden) ∷ rest else (key, value) ∷ rest
