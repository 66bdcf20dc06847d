-- ===== src/Scripts/ExportIdls/CommandLine.antt =====
-- scripts/solana/export-idls.ts: the arguments.
use psybot_ai.Base.{Bool, true, false, ◌||◌, Option, none, some, List, if◌then◌else◌}
use psybot_ai.Base.Text.{Text, codes, text_eq}
use psybot_ai.Scripts.Args.{Exit, ok, exit, Options, parse_all}
use psybot_ai.Scripts.EnvFile.{is_empty}

pub record Args : Type 0 where
  pub anchor_workspace_dir : Text
  pub target_dir : Text
  pub out_dir : Text
  pub program : Option Text
  pub force : Bool
  pub clean : Bool
  pub make_index : Bool
  pub print : Bool

abbrev pub no_args : Args
no_args = record {
  anchor_workspace_dir = codes "programs";
  target_dir = codes "target";
  out_dir = codes "packages/solana/idls";
  program = none;
  force = false;
  clean = false;
  make_index = true;
  print = false;
}

takes_value : Text → Bool
takes_value a =
    text_eq a (codes "--anchor-workspace")
    || text_eq a (codes "--target")
    || text_eq a (codes "--out")
    || text_eq a (codes "--program")

with_value : Text → Text → Args → Exit Args
with_value a v args =
    if is_empty v
    then exit 1
    else if text_eq a (codes "--anchor-workspace")
    then ok (record args { anchor_workspace_dir = v })
    else if text_eq a (codes "--target")
    then ok (record args { target_dir = v })
    else if text_eq a (codes "--out")
    then ok (record args { out_dir = v })
    else ok (record args { program = some v })

argument : Text → Args → Exit Args
argument a args =
    if text_eq a (codes "--force")
    then ok (record args { force = true })
    else if text_eq a (codes "--clean")
    then ok (record args { clean = true })
    else if text_eq a (codes "--index")
    then ok (record args { make_index = true })
    else if text_eq a (codes "--no-index")
    then ok (record args { make_index = false })
    else if text_eq a (codes "--print")
    then ok (record args { print = true })
    else if text_eq a (codes "-h") || text_eq a (codes "--help")
    then exit 0
    else exit 1

abbrev options : Options Args
unfolding takes_value with_value argument
options = record {
  takes_value = takes_value;
  with_value = with_value;
  without_value = λ a args. exit 1;
  argument = argument;
}

unfoldable pub parse_args : List Text → Exit Args
unfolding parse_all takes_value with_value argument
parse_args argv = parse_all options no_args argv
