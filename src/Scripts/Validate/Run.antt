-- ===== src/Scripts/Validate/Run.antt =====
-- scripts/env/validate-env.ts: the files that are read, and the exit code.
use psybot_ai.Base.{
  ℕ, Bool, true, false, ◌&&◌, ◌||◌, not, Option, none, some, List, [], ◌∷◌, if◌then◌else◌,
}
use psybot_ai.Base.Text.{Text}
use psybot_ai.Scripts.Args.{Exit, ok, exit}
use psybot_ai.Scripts.Root.{Paths, find_repo_root}
use psybot_ai.Scripts.EnvFile.{Kv, merge_env, parse_env_file}
use psybot_ai.Scripts.Validate.CommandLine.{Args, parse_args}
use psybot_ai.Scripts.Validate.Checks.{IssueLevel, fail, warn, Issue, Parsers, validate}

-- `issues.filter((i) => i.level === ...).length > 0`
abbrev pub is_fail : IssueLevel → Bool
is_fail fail = true
is_fail warn = false

unfoldable pub any_issue : (IssueLevel → Bool) → List Issue → Bool
any_issue p [] = false
any_issue p (i ∷ is) = p i.level || any_issue p is

-- The code that `main` ends with.
unfoldable pub exit_code : Bool → List Issue → ℕ
unfolding any_issue
exit_code strict is =
    if any_issue is_fail is
    then 2
    else if any_issue (λ l. not (is_fail l)) is && strict
    then 2
    else if any_issue (λ l. not (is_fail l)) is
    then 1
    else 0

abbrev pub Files : Type 0
Files = Text → Option Text

unfoldable pub file_of : Paths → Text → Args → Text
unfolding find_repo_root
file_of p cwd args =
    if p.is_absolute args.file_path
    then args.file_path
    else p.join (find_repo_root p cwd) args.file_path

unfoldable pub check_file : Parsers → Args → Kv → Option Text → ℕ
unfolding merge_env parse_env_file
check_file js args process_env none = 2
check_file js args process_env (some raw) =
    exit_code args.strict (validate js args (merge_env (parse_env_file raw) process_env))

unfoldable pub run_args : Parsers → Paths → Text → Kv → Files → Exit Args → ℕ
unfolding check_file file_of
run_args js p cwd process_env fs (exit n) = n
run_args js p cwd process_env fs (ok args) =
    check_file js args process_env (fs (file_of p cwd args))

-- `main`: the exit code.
unfoldable pub main : Parsers → Paths → Text → Kv → Files → List Text → ℕ
unfolding run_args
main js p cwd process_env fs argv = run_args js p cwd process_env fs (parse_args argv)
