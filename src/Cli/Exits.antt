-- ===== src/Cli/Exits.antt =====
-- The exit codes of src/cli/keys.ts and what a call does to the database.
use emcp.Prelude.{◌≡◌, ◌⊎◌, String, Option, some, ◌>>=◌}
use emcp.Keys.{Db}
use emcp.Cli.{Arguments, Surroundings}
use emcp.Cli.Commands.{Command, command_named, Ended, ends, no_code}
use emcp.Cli.Effects.{Sound, Made, IsMissing}

module _ (canonical : String → String) (db : Db) (s : Surroundings) where
  -- What `dispatch` may come to: only two inherited names have no exit code, and a command is the one of
  -- its name.
  abbrev pub Accounted : Option String → Option Arguments → Ended → Type 0
  Accounted name args (ends code later) =
      Sound db
        (λ later'.
          (command : Command) × (a : Arguments) × ((name >>= command_named) ≡ some command)
          × (args ≡ some a)
          × Made canonical db s command a later')
        ((a : Arguments) × (args ≡ some a) × IsMissing canonical db s a) code later
  Accounted name args no_code = (name ≡ some "constructor") ⊎ (name ≡ some "toString")
