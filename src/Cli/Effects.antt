-- ===== src/Cli/Effects.antt =====
-- The commands of src/cli/keys one by one: their exit codes and what they do to the database.
use emcp.Prelude.{
  ℕ, ◌≤◌, ◌≡◌, refl, ap, sym, inl, inr, ◌⊎◌, ◌||◌, String, Option, none, some, List, [], ◌∷◌, arith,
  codes, if_cases, true,
}
use emcp.Keys.{ApiKeyRecord, Db, CreateApiKeyInput, create, is_blacklisted}
use emcp.Keys.Operations.{
  Op, creates, blacklists, unblacklists, soft_deletes, sets_rate_limit, created_or, apply,
}
use emcp.Cli.{
  Arguments, Surroundings, Ran, exits, raises, FindKeyResult, found, not_found, ambiguous_prefix,
  find_key, confirm, parse_positive, parse_canonical, is_empty, target_of,
}
use emcp.Cli.Commands.{
  write, confirmed, on_found, on_target, run_blacklist, run_unblacklist, run_delete, run_show,
  with_limit, two_positionals, run_set_rate_limit, inserted, create_limited, create_named,
  with_rate_limit, with_name, is_valid_status, run_list, Command, create_command, list_command,
  show_command, blacklist_command, unblacklist_command, delete_command, set_rate_limit_command,
}

-- A call of the command line whose exit code is known: it leaves the database as it is, or the code is 0
-- and the database is one that `Calls` allows; and with the code 1, `Missing` holds.
pub record Sound (db : Db) (Calls : Db → Type 0) (Missing : Type 0) (code : ℕ) (later : Db)
    : Type 0 where
  pub known : code ≤ 3
  pub effect : (later ≡ db) ⊎ ((code ≡ 0) × Calls later)
  pub absent : code ≡ 1 → Missing

module _ (canonical : String → String) (db : Db) (s : Surroundings) where
  -- the first argument of a command
  abbrev pub Target : Arguments → String → Type 0
  Target args target = (rest : List String) × (args.positionals ≡ target ∷ rest)

  -- the id of the key that the first argument names
  abbrev pub Names : Arguments → ApiKeyRecord → Type 0
  Names args r = (target : String) × Target args target × (find_key canonical db target ≡ found r)

  -- a target that is not found
  abbrev pub IsMissing : Arguments → Type 0
  IsMissing args =
      (target : String) × Target args target × (find_key canonical db target ≡ not_found)

  abbrev pub IsConfirmed : Arguments → Type 0
  IsConfirmed args = (args.yes ≡ true) ⊎ (confirm s.answer ≡ true)

  -- the one call of the repository that a command makes for its arguments
  abbrev pub CallOf : Command → Arguments → Op → Type 0
  CallOf create_command args (creates id now limit input) =
      (id ≡ s.new_id)
      × (now ≡ s.now)
      × (args.name ≡ some input.name)
      × (input.key_prefix ≡ s.new_prefix)
      × (input.key_hash ≡ s.new_hash)
      × (input.allow_no_origin ≡ some args.allow_no_origin)
  CallOf blacklist_command args (blacklists id now) =
      (r : ApiKeyRecord) × Names args r × (id ≡ r.id) × IsConfirmed args × (now ≡ s.now)
  CallOf unblacklist_command args (unblacklists id) =
      (r : ApiKeyRecord) × Names args r
      × (id ≡ r.id)
      × IsConfirmed args
      × (is_blacklisted r.status ≡ true)
  CallOf delete_command args (soft_deletes id now) =
      (r : ApiKeyRecord) × Names args r × (id ≡ r.id) × IsConfirmed args × (now ≡ s.now)
  CallOf set_rate_limit_command args (sets_rate_limit id n) =
      (r : ApiKeyRecord) × Names args r
      × (id ≡ r.id)
      × (target : String) × (raw : String) × (rest : List String) × (args.positionals
          ≡ target ∷ raw ∷ rest)
      × (parse_canonical (codes raw) ≡ some n)
  CallOf _ _ _ = ⊥

  abbrev pub Made : Command → Arguments → Db → Type 0
  Made command args later = (op : Op) × CallOf command args op × (later ≡ apply db op)

  module _ (Calls : Db → Type 0) (Missing : Type 0) where
    abbrev IsSound : Ran → Type 0
    IsSound (exits code later) = Sound db Calls Missing code later
    IsSound raises = Unit

    pub unchanged : (code : ℕ) → code ≤ 3 → (code ≡ 1 → ⊥) → Sound db Calls Missing code db
    unchanged code h other = record {
      known = h;
      effect = inl refl;
      absent = λ e. elim (other e) [ ];
    }

    fine : Sound db Calls Missing 0 db
    fine = unchanged 0 (omega arith) (λ e. ground (arith, e))

    pub invalid : Sound db Calls Missing 2 db
    invalid = unchanged 2 (omega arith) (λ e. ground (arith, e))

    called : (later : Db) → Calls later → Sound db Calls Missing 0 later
    called later h = record {
      known = omega arith;
      effect = inr (refl, h);
      absent = λ e. ground (arith, e);
    }

    write-IsSound : (later : Db) → Calls later → IsSound (write canonical db s later)
    write-IsSound later h = if_cases IsSound s.writes (λ _. called later h) (λ _. tt)

    confirmed-IsSound :
        (args : Arguments) (later : Db)
        → (IsConfirmed args → Calls later)
        → IsSound (confirmed canonical db s args.yes later)
    confirmed-IsSound args later h =
        if_cases IsSound args.yes (λ agreed. write-IsSound later (h (inl agreed)))
          (λ _.
            if_cases IsSound (confirm s.answer) (λ answered. write-IsSound later (h (inr answered)))
              (λ _. fine))

    on_found-IsSound :
        (act : ApiKeyRecord → Ran) (o : FindKeyResult)
        → (o ≡ not_found → Missing)
        → ((r : ApiKeyRecord) → o ≡ found r → IsSound (act r))
        → IsSound (on_found canonical db s act o)
    on_found-IsSound act (found r) missing h = h r refl
    on_found-IsSound act not_found missing h = record {
      known = omega arith;
      effect = inl refl;
      absent = λ _. missing refl;
    }
    on_found-IsSound act ambiguous_prefix missing h = invalid

    on_text-IsSound :
        (act : ApiKeyRecord → Ran) (target : String)
        → (find_key canonical db target ≡ not_found → Missing)
        → ((r : ApiKeyRecord) → find_key canonical db target ≡ found r → IsSound (act r))
        → IsSound (on_target canonical db s act (some target))
    unfolding on_target
    on_text-IsSound act target missing h =
        if_cases IsSound s.reads (λ _. on_found-IsSound act _ missing h) (λ _. tt)

    no_target-IsSound : (act : ApiKeyRecord → Ran) → IsSound (on_target canonical db s act none)
    unfolding on_target
    no_target-IsSound act = invalid

  module _ (command : Command) (args : Arguments) where
    abbrev pub Fits : Ran → Type 0
    Fits = IsSound (Made command args) (IsMissing args)

    on_target-Fits :
        (act : ApiKeyRecord → Ran)
        → ((r : ApiKeyRecord) → Names args r → Fits (act r))
        → Fits (on_target canonical db s act (target_of args.positionals))
    on_target-Fits act h = go args.positionals refl
      where
        go :
            (ps : List String)
            → args.positionals ≡ ps
            → Fits (on_target canonical db s act (target_of ps))
        go [] e = no_target-IsSound (Made command args) (IsMissing args) act
        go (target ∷ rest) e =
            if_cases (λ o. Fits (on_target canonical db s act o)) (is_empty target)
              (λ _. no_target-IsSound (Made command args) (IsMissing args) act)
              (λ _.
                on_text-IsSound (Made command args) (IsMissing args) act target
                  (λ lost. (target, (rest, e), lost)) (λ r there. h r (target, (rest, e), there)))

  pub run_unblacklist-Fits :
      (args : Arguments) → Fits unblacklist_command args (run_unblacklist canonical db s args)
  unfolding run_unblacklist
  run_unblacklist-Fits args = on_target-Fits unblacklist_command args _ (λ r names.
      if_cases (Fits unblacklist_command args) (is_blacklisted r.status)
        (λ held.
          confirmed-IsSound _ _ args _ (λ c. (unblacklists r.id, (r, names, refl, c, held), refl)))
        (λ _. invalid _ _))

  pub run_blacklist-Fits :
      (args : Arguments) → Fits blacklist_command args (run_blacklist canonical db s args)
  unfolding run_blacklist
  run_blacklist-Fits args = on_target-Fits blacklist_command args _ (λ r names.
      confirmed-IsSound _ _ args _ (λ c. (blacklists r.id s.now, (r, names, refl, c, refl), refl)))

  pub run_delete-Fits :
      (args : Arguments) → Fits delete_command args (run_delete canonical db s args)
  unfolding run_delete
  run_delete-Fits args = on_target-Fits delete_command args _ (λ r names.
      confirmed-IsSound _ _ args _
        (λ c. (soft_deletes r.id s.now, (r, names, refl, c, refl), refl)))

  pub run_show-Fits : (args : Arguments) → Fits show_command args (run_show canonical db s args)
  unfolding run_show
  run_show-Fits args = on_target-Fits show_command args _ (λ r names. fine _ _)

  module _ (args : Arguments) (target raw : String) (rest : List String)
      (e : args.positionals ≡ target ∷ raw ∷ rest) where
    with_limit-Fits :
        (o : Option ℕ)
        → parse_canonical (codes raw) ≡ o
        → Fits set_rate_limit_command args (with_limit canonical db s target o)
    with_limit-Fits none p = invalid _ _
    with_limit-Fits (some n) p =
        on_text-IsSound _ _ _ target (λ lost. (target, (raw ∷ rest, e), lost))
          (λ r there. write-IsSound _ _ _ (
            sets_rate_limit r.id n,
            (r, (target, (raw ∷ rest, e), there), refl, target, raw, rest, e, p),
            refl,
          ))

  pub run_set_rate_limit-Fits :
      (args : Arguments) → Fits set_rate_limit_command args (run_set_rate_limit canonical db s args)
  unfolding run_set_rate_limit
  run_set_rate_limit-Fits args = go args.positionals refl
    where
      go :
          (ps : List String)
          → args.positionals ≡ ps
          → Fits set_rate_limit_command args (two_positionals canonical db s ps)
      go [] e = invalid _ _
      go (target ∷ []) e = invalid _ _
      go (target ∷ raw ∷ rest) e =
          if_cases (Fits set_rate_limit_command args) (is_empty target || is_empty raw)
            (λ _. invalid _ _)
            (λ _. with_limit-Fits args target raw rest e (parse_canonical (codes raw)) refl)

  module _ (args : Arguments) where
    inserted-Fits :
        (input : CreateApiKeyInput) (o : Option (ApiKeyRecord × Db))
        → CallOf create_command args (creates s.new_id s.now s.default_limit input)
        → create db s.new_id s.now s.default_limit input ≡ o
        → Fits create_command args (inserted canonical db s o)
    inserted-Fits input none call e = tt
    inserted-Fits input (some (r, later)) call e =
        called _ _ later
          (creates s.new_id s.now s.default_limit input, call, sym (ap (created_or db) e))

    create_named-Fits :
        (name : String) (limit : Option ℕ)
        → args.name ≡ some name
        → Fits create_command args (create_named canonical db s args name limit)
    unfolding create_named
    create_named-Fits name limit named =
        if_cases (Fits create_command args) s.writes
          (λ _. inserted-Fits _ _ (refl, refl, named, refl, refl, refl) refl) (λ _. tt)

    with_rate_limit-Fits :
        (name : String) (o : Option String)
        → args.name ≡ some name
        → Fits create_command args (with_rate_limit canonical db s args name o)
    with_rate_limit-Fits name none named = create_named-Fits name none named
    with_rate_limit-Fits name (some raw) named = limited (parse_positive (codes raw))
      where
        limited :
            (o : Option ℕ) → Fits create_command args (create_limited canonical db s args name o)
        limited none = invalid _ _
        limited (some n) = create_named-Fits name (some n) named

    pub with_name-Fits :
        (o : Option String)
        → args.name ≡ o
        → Fits create_command args (with_name canonical db s args o)
    with_name-Fits none e = invalid _ _
    with_name-Fits (some name) e =
        if_cases (Fits create_command args) (is_empty name) (λ _. invalid _ _)
          (λ _. with_rate_limit-Fits name args.rate_limit e)

    pub run_list-Fits : Fits list_command args (run_list canonical db s args)
    unfolding run_list
    run_list-Fits =
        if_cases (Fits list_command args) (is_valid_status canonical db s args.status)
          (λ _. if_cases (Fits list_command args) s.reads (λ _. fine _ _) (λ _. tt))
          (λ _. invalid _ _)
