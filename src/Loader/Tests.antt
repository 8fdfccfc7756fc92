-- ===== src/Loader/Tests.antt =====
-- Runs of src/shared/tools/loader.ts and src/shared/tools/redact.ts on short lists, and instances.
use emcp.Prelude.{
  ℕ, ◌≡◌, refl, inl, inr, true, false, some, List, [], ◌∷◌, codes, split, strip_prefix, same_text,
}
use emcp.Loader.{
  Definition, exports, no_default, File, duplicate_name, loaded, refused, ends_with, tool_files,
  is_excluded, is_candidate, is_lower, is_name_char, is_valid_name, get, add_definition,
  add_imported, load_from, load_tools, load_workers, Shape, is_sensitive, redact,
}
use emcp.Loader.Registry.{exported, IsRegistry, load_from-IsRegistry, redact-SameBut}

all_loader : Unit {0}
unfolding split strip_prefix same_text ends_with is_excluded is_candidate is_lower is_name_char
    is_valid_name get add_definition add_imported load_from load_tools load_workers is_sensitive
    redact
all_loader = tt

abbrev fetch : Definition
fetch = record { name = codes "fetch-url"; accepted = true; per_minute = some 10 }

abbrev files : List File
files =
    record { entry = codes "a/fetch.ts"; imported = exports fetch }
    ∷ record { entry = codes "a/fetch.test.ts"; imported = no_default }
    ∷ record { entry = codes "types.ts"; imported = no_default }
    ∷ record { entry = codes "notes.md"; imported = no_default }
    ∷ []

loads : load_tools files ≡ loaded ((codes "fetch-url", fetch) ∷ [])
unfolding all_loader
loads = refl

refuses_twice :
    load_workers (
      record { entry = codes "a.ts"; imported = exports fetch }
      ∷ record { entry = codes "b.js"; imported = exports fetch }
      ∷ [])
    ≡ refused duplicate_name (codes "b.js")
unfolding all_loader
refuses_twice = refl

loads_from : load_from tool_files [] files ≡ loaded ((codes "fetch-url", fetch) ∷ [])
unfolding all_loader
loads_from = refl

load_from-IsRegistry_example :
    IsRegistry ((codes "fetch-url", fetch) ∷ [])
    × (((codes "fetch-url", fetch) ∷ []) ≡ exported tool_files files)
load_from-IsRegistry_example =
    load_from-IsRegistry tool_files files ((codes "fetch-url", fetch) ∷ []) loads_from

abbrev shape : Shape
shape = (codes "url", false) ∷ (codes "token", true) ∷ []

marks_token : is_sensitive shape (codes "token") ≡ true
unfolding all_loader
marks_token = refl

redact-SameBut_example :
    redact {V = ℕ} 0 shape ((codes "url", 7) ∷ (codes "token", 8) ∷ [])
    ≡ redact 0 shape ((codes "url", 7) ∷ (codes "token", 9) ∷ [])
redact-SameBut_example =
    redact-SameBut 0 shape ((codes "url", 7) ∷ (codes "token", 8) ∷ [])
      ((codes "url", 7) ∷ (codes "token", 9) ∷ []) (refl, inr refl, (refl, inl marks_token, tt))
