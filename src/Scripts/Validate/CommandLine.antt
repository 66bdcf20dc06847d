-- ===== src/Scripts/Validate/CommandLine.antt =====
-- scripts/env/validate-env.ts: the arguments.
use psybot_ai.Base.{Bool, true, false, ◌||◌, List, [], ◌∷◌, ◌++◌, if◌then◌else◌}
use psybot_ai.Base.Text.{Text, codes, text_eq}
use psybot_ai.Scripts.Args.{Exit, ok, exit, ◌>>=◌, Options, parse_all}
use psybot_ai.Scripts.EnvFile.{is_empty}

pub data Mode : Type 0 where
  dev prod docker : Mode

pub record Args : Type 0 where
  pub mode : Mode
  pub file_path : Text
  pub required_extra : List Text
  pub allow_empty : List Text
  pub allow_localhost : Bool
  pub print : Bool
  pub strict : Bool

abbrev pub no_args : Args
no_args = record {
  mode = dev;
  file_path = [];
  required_extra = [];
  allow_empty = [];
  allow_localhost = false;
  print = false;
  strict = false;
}

takes_value : Text → Bool
takes_value a =
    text_eq a (codes "--mode")
    || text_eq a (codes "--file")
    || text_eq a (codes "--require")
    || text_eq a (codes "--allow-empty")

unfoldable pub read_mode : Text → Exit Mode
read_mode v =
    if text_eq v (codes "dev")
    then ok dev
    else if text_eq v (codes "prod")
    then ok prod
    else if text_eq v (codes "docker")
    then ok docker
    else exit 2

with_value : Text → Text → Args → Exit Args
unfolding read_mode
with_value a v args =
    if is_empty v
    then exit 2
    else if text_eq a (codes "--mode")
    then (do m ← read_mode v; ok (record args { mode = m }))
    else if text_eq a (codes "--file")
    then ok (record args { file_path = v })
    else if text_eq a (codes "--require")
    then ok (record args { required_extra = args.required_extra ++ v ∷ [] })
    else ok (record args { allow_empty = args.allow_empty ++ v ∷ [] })

argument : Text → Args → Exit Args
argument a args =
    if text_eq a (codes "--allow-localhost")
    then ok (record args { allow_localhost = true })
    else if text_eq a (codes "--print")
    then ok (record args { print = true })
    else if text_eq a (codes "--strict")
    then ok (record args { strict = true })
    else exit 2

abbrev pub options : Options Args
unfolding takes_value with_value argument
options = record {
  takes_value = takes_value;
  with_value = with_value;
  without_value = λ a args. exit 2;
  argument = argument;
}

abbrev pub is_prod : Mode → Bool
is_prod prod = true
is_prod _ = false

-- The file's name depends on the mode if none is given.
unfoldable pub default_file : Args → Args
default_file args =
    if is_empty args.file_path
    then record args {
      file_path = if is_prod args.mode then codes ".env.production" else codes ".env";
    }
    else args

unfoldable pub parse_args : List Text → Exit Args
unfolding parse_all takes_value with_value argument default_file
parse_args argv = do args ← parse_all options no_args argv; ok (default_file args)
