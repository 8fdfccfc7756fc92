-- ===== src/Loader/Registry.antt =====
-- What the loaders of src/shared/tools/loader.ts and src/shared/workers/loader.ts return.
use emcp.Prelude.{
  ℕ, ◌≡◌, refl, ap, sym, subst, ◌∙◌, inl, inr, ◌⊎◌, Bool, true, false, not, Option, none, some,
  List, [], ◌∷◌, ◌++◌, arith, same_text, same_text_refl, same_text_sound, if_cases, false≢true, All,
  All-concat, if◌then◌else◌,
}
use emcp.Loader.{
  Definition, Imported, throws, no_default, incomplete, exports, File, Table, Loaded, loaded,
  refused, is_candidate, is_valid_name, get, add_definition, add_imported, load_from, Shape,
  is_sensitive, redact,
}

-- a definition that is registered
abbrev pub IsValid : List ℕ × Definition → Type 0
IsValid (name, def) = (name ≡ def.name) × (is_valid_name name ≡ true) × (def.accepted ≡ true)

-- no name stands twice, from the front
abbrev pub Distinct : Table → Type 0
Distinct [] = Unit
Distinct ((name, def) ∷ table) = (get table name ≡ none) × Distinct table

abbrev pub of_imported : Imported → Table
of_imported (exports def) = (def.name, def) ∷ []
of_imported _ = []

-- the definitions of the files that are looked at, in their order
abbrev pub exported : List (List ℕ) → List File → Table
exported excluded [] = []
exported excluded (file ∷ files) =
    let rest = exported excluded files in
    if is_candidate excluded file.entry then of_imported file.imported ++ rest else rest

pub record IsRegistry (table : Table) : Type 0 where
  pub valid : All IsValid table
  pub distinct : Distinct table

get-append_other :
    (table : Table) (name k : List ℕ) (def : Definition)
    → get table k ≡ none
    → same_text name k ≡ false
    → get (table ++ (name, def) ∷ []) k ≡ none
unfolding get
get-append_other [] name k def h other = ground (arith, other)
get-append_other ((key, d) ∷ table) name k def h other =
    ground (arith, get-append_other table name k def, h, other)

Distinct-append :
    (table : Table) (name : List ℕ) (def : Definition)
    → get table name ≡ none
    → Distinct table
    → Distinct (table ++ (name, def) ∷ [])
unfolding get
Distinct-append [] name def h d = (refl, tt)
Distinct-append ((key, x) ∷ table) name def h d = (
  get-append_other table name key def d.0
      (ground (arith, h, same_text_sound name key, same_text_refl name)),
  Distinct-append table name def (ground (arith, h)) d.1,
)

snoc-append :
    (table : Table) (x : List ℕ × Definition) (rest : Table)
    → (table ++ x ∷ []) ++ rest ≡ table ++ (x ∷ rest)
snoc-append [] x rest = refl
snoc-append (y ∷ table) x rest = ap (λ t. y ∷ t) (snoc-append table x rest)

append-empty : (table : Table) → table ++ [] ≡ table
append-empty [] = refl
append-empty (y ∷ table) = ap (λ t. y ∷ t) (append-empty table)

-- what is loaded is a registry, with the given definitions behind the given table
abbrev Extends : Table → Table → Loaded → Type 0
Extends table more (loaded t) = IsRegistry t × (t ≡ table ++ more)
Extends table more (refused problem entry) = Unit

module _ (table : Table) (entry : List ℕ) (more : Table) (rest : Table → Loaded)
    (h : IsRegistry table) (goes_on : (t : Table) → IsRegistry t → Extends t more (rest t)) where
  extend :
      (def : Definition)
      → get table def.name ≡ none
      → is_valid_name def.name ≡ true
      → def.accepted ≡ true
      → Extends table ((def.name, def) ∷ more) (rest (table ++ (def.name, def) ∷ []))
  extend def fresh valid ok =
      let longer : Table = table ++ (def.name, def) ∷ [] in
      moved (rest longer) (
        goes_on longer (record {
          valid = All-concat IsValid table (def.name, def) h.valid (refl, valid, ok);
          distinct = Distinct-append table def.name def fresh h.distinct;
        }))
    where
      moved :
          (l : Loaded)
          → Extends (table ++ (def.name, def) ∷ []) more l
          → Extends table ((def.name, def) ∷ more) l
      moved (loaded t) (registry, e) = (registry, e ∙ snoc-append table (def.name, def) more)
      moved (refused problem at_entry) e = tt

  add_definition-Extends :
      (def : Definition) (o : Option Definition)
      → get table def.name ≡ o
      → Extends table ((def.name, def) ∷ more) (add_definition table entry def o rest)
  unfolding add_definition
  add_definition-Extends def (some earlier) e =
      if_cases (Extends table ((def.name, def) ∷ more)) (is_valid_name def.name) (λ _. tt) (λ _. tt)
  add_definition-Extends def none e =
      if_cases (Extends table ((def.name, def) ∷ more)) (not (is_valid_name def.name)) (λ _. tt)
        (λ valid.
          if_cases (Extends table ((def.name, def) ∷ more)) (not def.accepted) (λ _. tt)
            (λ ok. extend def e (ground (arith, valid)) (ground (arith, ok))))

  add_imported-Extends :
      (imported : Imported)
      → Extends table (of_imported imported ++ more) (add_imported table entry imported rest)
  unfolding add_imported
  add_imported-Extends throws = tt
  add_imported-Extends no_default = tt
  add_imported-Extends incomplete = tt
  add_imported-Extends (exports def) = add_definition-Extends def _ refl

-- two tests of one condition
if_both :
    {A B : Type 0} (P : A → B → Type 0) (b : Bool) {x y : A} {u v : B}
    → P x u
    → P y v
    → P (if b then x else y) (if b then u else v)
if_both P true p q = p
if_both P false p q = q

load_from-Extends :
    (excluded : List (List ℕ)) (table : Table) (files : List File)
    → IsRegistry table
    → Extends table (exported excluded files) (load_from excluded table files)
unfolding load_from
load_from-Extends excluded table [] h = (h, sym (append-empty table))
load_from-Extends excluded table (file ∷ files) h =
    if_both (Extends table) (is_candidate excluded file.entry)
      (add_imported-Extends table file.entry (exported excluded files) _ h
        (λ t registry. load_from-Extends excluded t files registry) file.imported)
      (load_from-Extends excluded table files h)

-- If a loader returns, the registry is the definitions that the files it looks at export, in the order of
-- the files, each with a valid name and accepted, and no name twice.
pub load_from-IsRegistry :
    (excluded : List (List ℕ)) (files : List File) (table : Table)
    → load_from excluded [] files ≡ loaded table
    → IsRegistry table × (table ≡ exported excluded files)
load_from-IsRegistry excluded files table e =
    subst (Extends [] (exported excluded files)) e
      (load_from-Extends excluded [] files (record { valid = tt; distinct = tt }))

-- the same fields, with values that differ in sensitive fields only
abbrev pub SameBut : {V : Type 0} → Shape → List (List ℕ × V) → List (List ℕ × V) → Type 0
SameBut shape [] [] = Unit
SameBut shape ((k, v) ∷ args) ((m, w) ∷ others) =
    (k ≡ m) × ((is_sensitive shape k ≡ true) ⊎ (v ≡ w)) × SameBut shape args others
SameBut shape _ _ = ⊥

redact_one :
    {V : Type 0} (b : Bool) (hidden v w : V) (k : List ℕ) (rest : List (List ℕ × V))
    → (b ≡ true) ⊎ (v ≡ w)
    → (if b then (k, hidden) ∷ rest else (k, v) ∷ rest)
      ≡ (if b then (k, hidden) ∷ rest else (k, w) ∷ rest)
redact_one true hidden v w k rest s = refl
redact_one false hidden v w k rest (inl h) = elim (false≢true h) [ ]
redact_one false hidden v w k rest (inr e) = ap (λ x. (k, x) ∷ rest) e

-- The redactor of a shape hides the values of the fields that are marked sensitive: two records of
-- arguments that differ in nothing else are shown alike.
pub redact-SameBut :
    {V : Type 0} (hidden : V) (shape : Shape) (args others : List (List ℕ × V))
    → SameBut shape args others
    → redact hidden shape args ≡ redact hidden shape others
unfolding redact
redact-SameBut hidden shape [] [] h = refl
redact-SameBut hidden shape [] (x ∷ others) h = elim h [ ]
redact-SameBut hidden shape (x ∷ args) [] h = elim h [ ]
redact-SameBut hidden shape ((k, v) ∷ args) ((m, w) ∷ others) (e, s, h) =
    redact_one (is_sensitive shape k) hidden v w k (redact hidden shape args) s
    ∙ ap (λ t. if is_sensitive shape k then (k, hidden) ∷ t else (k, w) ∷ t)
        (redact-SameBut hidden shape args others h)
    ∙ ap (λ x. redact hidden shape ((x, w) ∷ others)) e
