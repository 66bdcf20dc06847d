-- ===== src/Scripts/Reset.antt =====
-- scripts/db/reset.ts: the commands that reset a database. Whether a file is there, a variable is
-- set, a command works and what is answered are parameters; the commands that were run are a list.
pub mod Consent
use psybot_ai.Base.{
  ℕ, Bool, true, false, ◌&&◌, ◌||◌, not, Option, none, some, List, [], ◌∷◌, ◌++◌, map,
  if◌then◌else◌,
}
use psybot_ai.Base.Text.{Text, codes, text_eq, lower, trim}
use psybot_ai.Scripts.Args.{Exit, ok, exit, ◌>>=◌, ◌>>◌, guard, Options, parse_all}
use psybot_ai.Scripts.Root.{Paths, find_repo_root}
use psybot_ai.Scripts.EnvFile.{is_empty}

pub record Args : Type 0 where
  pub schema : Text
  pub migrate : Bool
  pub push : Bool
  pub seed : Bool
  pub force : Bool
  pub drop : Bool
  pub no_install_check : Bool

abbrev pub no_args : Args
no_args = record {
  schema = codes "packages/db/prisma/schema.prisma";
  migrate = false;
  push = false;
  seed = false;
  force = false;
  drop = false;
  no_install_check = false;
}

takes_value : Text → Bool
takes_value a = text_eq a (codes "--schema")

with_value : Text → Text → Args → Exit Args
with_value a v args = if is_empty v then exit 1 else ok (record args { schema = v })

argument : Text → Args → Exit Args
argument a args =
    if text_eq a (codes "--migrate")
    then ok (record args { migrate = true })
    else if text_eq a (codes "--push")
    then ok (record args { push = true })
    else if text_eq a (codes "--seed")
    then ok (record args { seed = true })
    else if text_eq a (codes "--force")
    then ok (record args { force = true })
    else if text_eq a (codes "--drop")
    then ok (record args { drop = true })
    else if text_eq a (codes "--no-install-check")
    then ok (record args { no_install_check = true })
    else if text_eq a (codes "-h") || text_eq a (codes "--help")
    then exit 0
    else exit 1

abbrev options : Options Args
unfolding takes_value with_value argument
options = record {
  takes_value = takes_value;
  with_value = with_value;
  without_value = λ a args. exit 1;
  argument = argument;
}

-- Not both `--migrate` and `--push`.
unfoldable pub parse_args : List Text → Exit Args
unfolding parse_all takes_value with_value argument
parse_args argv = do
  args ← parse_all options no_args argv
  guard (not (args.migrate && args.push)) 1
  ok args

pub data Command : Type 0 where
  migrate_reset migrate_deploy db_push : Text → Command
  run_seed : Command

pub record Machine : Type 0 where
  pub paths : Paths
  pub cwd : Text
  pub database_url : Option Text
  pub has_pnpm : Bool
  pub answer : Text
  pub succeeds : Command → Bool

-- `promptYesNo`
unfoldable pub says_yes : Text → Bool
unfolding trim lower text_eq
says_yes answer =
    let v = map lower (trim answer) in text_eq v (codes "y") || text_eq v (codes "yes")

unfoldable pub schema_path : Machine → Args → Text
unfolding find_repo_root
schema_path m args =
    if m.paths.is_absolute args.schema
    then args.schema
    else m.paths.join (find_repo_root m.paths m.cwd) args.schema

abbrev pub is_set : Option Text → Bool
is_set none = false
is_set (some v) = not (is_empty v)

-- `--drop` comes before `--migrate`, and the push is the default.
unfoldable pub schema_command : Args → Text → Command
schema_command args path =
    if args.drop
    then migrate_reset path
    else if args.migrate
    then migrate_deploy path
    else db_push path

-- The commands in their order, up to the first that fails; with the exit code.
unfoldable pub run_all : Machine → List Command → List Command → List Command × ℕ
run_all m done [] = (done, 0)
run_all m done (c ∷ cs) =
    let rest = run_all m (done ++ c ∷ []) cs in if m.succeeds c then rest else (done ++ c ∷ [], 1)

unfoldable pub commands : Machine → Args → List Command
unfolding schema_command schema_path
commands m args =
    schema_command args (schema_path m args) ∷ (if args.seed then run_seed ∷ [] else [])

-- `main` behind the arguments: the commands that are run, and the exit code.
unfoldable pub reset : Machine → Args → List Command × ℕ
unfolding schema_path
reset m args =
    if not (m.paths.exists (schema_path m args))
    then ([], 1)
    else if not (is_set m.database_url)
    then ([], 1)
    else if not args.no_install_check && not m.has_pnpm
    then ([], 1)
    else if not args.force && not (says_yes m.answer)
    then ([], 0)
    else run_all m [] (commands m args)

reset_parsed : Machine → Exit Args → List Command × ℕ
reset_parsed m (exit n) = ([], n)
reset_parsed m (ok args) = reset m args

-- `main`
unfoldable pub main : Machine → List Text → List Command × ℕ
unfolding reset_parsed
main m argv = reset_parsed m (parse_args argv)
