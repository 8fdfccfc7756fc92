-- ===== src/Cli/Commands.antt =====
-- src/cli/keys and src/cli/keys.ts: the seven commands and `dispatchWith`.
use emcp.Prelude.{
  ℕ, Bool, true, ◌||◌, String, Option, none, some, List, [], ◌∷◌, codes, any, str_eq, if◌then◌else◌,
}
use emcp.Keys.{
  ApiKeyRecord, is_blacklisted, Db, create, blacklist, unblacklist, soft_delete, set_rate_limit,
}
use emcp.Cli.{
  Arguments, FindKeyResult, Ran, Surroundings, ambiguous_prefix, confirm, exit_config,
  exit_not_found, exit_ok, exit_validation, exits, find_key, found, is_empty, not_found,
  parse_canonical, parse_positive, raises, target_of,
}

module _ (canonical : String → String) (db : Db) (s : Surroundings) where
  -- a write that the repository makes, or throws
  abbrev pub write : Db → Ran
  write later = if s.writes then exits exit_ok later else raises

  -- a write that is confirmed, by the option or on standard input
  abbrev pub confirmed : Bool → Db → Ran
  confirmed agreed later =
      if agreed then write later else if confirm s.answer then write later else exits exit_ok db

  abbrev pub on_found : (ApiKeyRecord → Ran) → FindKeyResult → Ran
  on_found act (found r) = act r
  on_found act not_found = exits exit_not_found db
  on_found act ambiguous_prefix = exits exit_validation db

  -- what the commands on one key do first
  unfoldable pub on_target : (ApiKeyRecord → Ran) → Option String → Ran
  on_target act none = exits exit_validation db
  on_target act (some target) =
      if s.reads then on_found act (find_key canonical db target) else raises

  unfoldable pub run_blacklist : Arguments → Ran
  run_blacklist args =
      on_target (λ r. confirmed args.yes (blacklist db r.id s.now)) (target_of args.positionals)

  unfoldable pub run_unblacklist : Arguments → Ran
  run_unblacklist args =
      on_target
        (λ r.
          if is_blacklisted r.status
          then confirmed args.yes (unblacklist db r.id)
          else exits exit_validation db)
        (target_of args.positionals)

  unfoldable pub run_delete : Arguments → Ran
  run_delete args =
      on_target (λ r. confirmed args.yes (soft_delete db r.id s.now)) (target_of args.positionals)

  unfoldable pub run_show : Arguments → Ran
  run_show args = on_target (λ r. exits exit_ok db) (target_of args.positionals)

  abbrev pub with_limit : String → Option ℕ → Ran
  with_limit target none = exits exit_validation db
  with_limit target (some per_minute) =
      on_target (λ r. write (set_rate_limit db r.id per_minute)) (some target)

  abbrev pub two_positionals : List String → Ran
  two_positionals (target ∷ raw_limit ∷ rest) =
      if is_empty target || is_empty raw_limit
      then exits exit_validation db
      else with_limit target (parse_canonical (codes raw_limit))
  two_positionals _ = exits exit_validation db

  unfoldable pub run_set_rate_limit : Arguments → Ran
  run_set_rate_limit args = two_positionals args.positionals

  abbrev pub inserted : Option (ApiKeyRecord × Db) → Ran
  inserted none = raises
  inserted (some (r, later)) = exits exit_ok later

  -- a key of the new id, prefix and hash; the INSERT may violate a constraint
  unfoldable pub create_named : Arguments → String → Option ℕ → Ran
  create_named args name limit =
      if s.writes
      then inserted (
          create db s.new_id s.now s.default_limit (record {
            key_prefix = s.new_prefix;
            key_hash = s.new_hash;
            name = name;
            rate_limit_per_minute = limit;
            allow_no_origin = some args.allow_no_origin;
          }))
      else raises

  abbrev pub create_limited : Arguments → String → Option ℕ → Ran
  create_limited args name none = exits exit_validation db
  create_limited args name (some n) = create_named args name (some n)

  abbrev pub with_rate_limit : Arguments → String → Option String → Ran
  with_rate_limit args name none = create_named args name none
  with_rate_limit args name (some raw) = create_limited args name (parse_positive (codes raw))

  abbrev pub with_name : Arguments → Option String → Ran
  with_name args none = exits exit_validation db
  with_name args (some name) =
      if is_empty name then exits exit_validation db else with_rate_limit args name args.rate_limit

  -- the name is trimmed already
  unfoldable pub run_create : Arguments → Ran
  run_create args = with_name args args.name

  abbrev pub is_valid_status : Option String → Bool
  is_valid_status none = true
  is_valid_status (some status) =
      any (λ valid. str_eq valid status) ("active" ∷ "blacklisted" ∷ "deleted" ∷ "all" ∷ [])

  unfoldable pub run_list : Arguments → Ran
  run_list args =
      if is_valid_status args.status
      then if s.reads then exits exit_ok db else raises
      else exits exit_validation db

  -- `safeParse` in front of a command
  abbrev pub parsed : (Arguments → Ran) → Option Arguments → Ran
  parsed run none = exits exit_validation db
  parsed run (some args) = run args

-- the names of COMMANDS
pub data Command : Type 0 where
  create_command list_command show_command blacklist_command unblacklist_command : Command
  delete_command set_rate_limit_command : Command

unfoldable pub command_named : String → Option Command
command_named name =
    if str_eq name "create"
    then some create_command
    else if str_eq name "list"
    then some list_command
    else if str_eq name "show"
    then some show_command
    else if str_eq name "blacklist"
    then some blacklist_command
    else if str_eq name "unblacklist"
    then some unblacklist_command
    else if str_eq name "delete"
    then some delete_command
    else if str_eq name "set-rate-limit"
    then some set_rate_limit_command
    else none

-- What a call of a member of Object.prototype comes to, with no receiver: `Object` returns an object, and
-- `toString` a text.
pub data Inherited : Type 0 where
  returns throws : Inherited

unfoldable pub inherited_named : String → Option Inherited
inherited_named name =
    if str_eq name "constructor" || str_eq name "toString"
    then some returns
    else if any (λ member. str_eq member name)
        ("hasOwnProperty" ∷ "isPrototypeOf" ∷ "propertyIsEnumerable" ∷ "toLocaleString" ∷ "valueOf"
          ∷ "__proto__" ∷ "__defineGetter__" ∷ "__defineSetter__" ∷ "__lookupGetter__"
          ∷ "__lookupSetter__" ∷ [])
    then some throws
    else none

-- an exit code and the database, or a value that is no exit code
pub data Ended : Type 0 where
  ends : ℕ → Db → Ended
  no_code : Ended

module _ (canonical : String → String) (db : Db) (s : Surroundings) where
  unfoldable pub run_command : Command → Option Arguments → Ran
  run_command create_command args = parsed canonical db s (run_create canonical db s) args
  run_command list_command args = parsed canonical db s (run_list canonical db s) args
  run_command show_command args = parsed canonical db s (run_show canonical db s) args
  run_command blacklist_command args = parsed canonical db s (run_blacklist canonical db s) args
  run_command unblacklist_command args = parsed canonical db s (run_unblacklist canonical db s) args
  run_command delete_command args = parsed canonical db s (run_delete canonical db s) args
  run_command set_rate_limit_command args =
      parsed canonical db s (run_set_rate_limit canonical db s) args

  -- the `catch` of `dispatchWith`
  abbrev pub code_of : Ran → Ended
  code_of (exits code later) = ends code later
  code_of raises = ends exit_config db

  -- `commands[commandName]` is inherited: a function that ignores its receiver returns something that
  -- is no exit code, and the others throw, as does the call of what is no function
  abbrev pub inherited : Option Inherited → Ended
  inherited none = ends exit_validation db
  inherited (some returns) = no_code
  inherited (some throws) = ends exit_config db

  abbrev pub dispatched : Option Command → Option Inherited → Option Arguments → Ended
  dispatched none member args = inherited member
  dispatched (some command) member args = code_of (run_command command args)

  -- `name`: the first positional, if there is one
  unfoldable pub dispatch : Option String → Option Arguments → Ended
  dispatch none args = ends exit_validation db
  dispatch (some name) args = dispatched (command_named name) (inherited_named name) args
