-- ===== src/Server/Json.antt =====
-- The JSON values that src/server.ts looks into: what `JSON.parse` returns, and property reads of it.
-- Text is a list of UTF-16 code units; a number is the text it is written as.
use emcp.Prelude.{ℕ, Bool, Option, none, some, List, ◌>>=◌, codes, same_text, if◌then◌else◌}

mutual
  pub data Json : Type 0 where
    null : Json
    boolean : Bool → Json
    number text : List ℕ → Json
    array : Elements → Json
    object : Members → Json

  pub data Elements : Type 0 where
    no_element : Elements
    element : Json → Elements → Elements

  pub data Members : Type 0 where
    no_member : Members
    member : List ℕ → Json → Members → Members

-- the last member of a name
unfoldable pub find_member : List ℕ → Members → Option Json
find_member name no_member = none
find_member name (member key value members) = elim (find_member name members) [
  | some later ↦ some later
  | none ↦ if same_text key name then some value else none
]

-- `value?.name` of a name that no array and no text has
unfoldable pub property : List ℕ → Json → Option Json
property name (object members) = find_member name members
property name _ = none

abbrev as_text : Json → Option (List ℕ)
as_text (text s) = some s
as_text _ = none

-- the name of the tool that `tools/call` names, if the body is one such call
unfoldable pub peek_tool : Json → Option (List ℕ)
peek_tool body = elim (property (codes "method") body >>= as_text) [
  | none ↦ none
  | some method ↦
      if same_text method (codes "tools/call")
      then property (codes "params") body >>= property (codes "name") >>= as_text
      else none
]
