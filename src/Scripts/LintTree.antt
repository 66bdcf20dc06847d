-- ===== src/Scripts/LintTree.antt =====
-- scripts/repo/lint-tree.ts: rules for the files of the repository. The directory is a tree of
-- names; the functions of `path`, whether a path is there or a directory, and the limit in bytes
-- that `--max-file-mb` stands for (`none` if it is no positive number) are parameters.
pub mod Sound
use psybot_ai.Base.{
  ℕ, Bool, true, false, ◌&&◌, ◌||◌, not, Option, none, some, List, [], ◌∷◌, ◌++◌, map, ltb,
  if◌then◌else◌,
}
use psybot_ai.Base.Text.{Text, codes, text_eq, starts_with, lower}
use psybot_ai.Scripts.Args.{Exit, ok, exit, ◌>>=◌, Options, parse_all, comma_list}
use psybot_ai.Scripts.Root.{Paths, find_repo_root}
use psybot_ai.Scripts.EnvFile.{is_empty, mem, distinct}

pub record Args : Type 0 where
  pub root : Text
  pub strict : Bool
  pub json : Bool
  pub max_bytes : ℕ
  pub deny_ext : List Text
  pub deny_name : List Text
  pub require_paths : List Text
  pub deny_paths : List Text
  pub print : Bool

abbrev pub no_args : Args
no_args = record {
  root = [];
  strict = false;
  json = false;
  max_bytes = 26214400;
  deny_ext = codes ".zip" ∷ codes ".7z" ∷ codes ".rar" ∷ codes ".exe" ∷ codes ".dll" ∷ [];
  deny_name = codes ".env" ∷ codes ".env.production" ∷ [];
  require_paths = [];
  deny_paths = [];
  print = true;
}

takes_value : Text → Bool
takes_value a =
    text_eq a (codes "--root")
    || text_eq a (codes "--max-file-mb")
    || text_eq a (codes "--deny-ext")
    || text_eq a (codes "--deny-name")
    || text_eq a (codes "--require")
    || text_eq a (codes "--deny")

-- An extension with its dot, in lower case.
unfoldable pub extension : Text → Text
unfolding starts_with lower
extension s = map lower (if starts_with s (b'.' ∷ []) then s else b'.' ∷ s)

abbrev set_limit : Args → Option ℕ → Exit Args
set_limit args none = exit 2
set_limit args (some n) = ok (record args { max_bytes = n })

with_value : (Text → Option ℕ) → Text → Text → Args → Exit Args
unfolding comma_list extension
with_value limit a v args =
    if is_empty v
    then exit 2
    else if text_eq a (codes "--root")
    then ok (record args { root = v })
    else if text_eq a (codes "--max-file-mb")
    then set_limit args (limit v)
    else if text_eq a (codes "--deny-ext")
    then ok (record args { deny_ext = map extension (comma_list v) })
    else if text_eq a (codes "--deny-name")
    then ok (record args { deny_name = comma_list v })
    else if text_eq a (codes "--require")
    then ok (record args { require_paths = args.require_paths ++ v ∷ [] })
    else ok (record args { deny_paths = args.deny_paths ++ v ∷ [] })

argument : Text → Args → Exit Args
argument a args =
    if text_eq a (codes "--strict")
    then ok (record args { strict = true })
    else if text_eq a (codes "--json")
    then ok (record args { json = true })
    else if text_eq a (codes "--print")
    then ok (record args { print = true })
    else if text_eq a (codes "--no-print")
    then ok (record args { print = false })
    else if text_eq a (codes "-h") || text_eq a (codes "--help")
    then exit 0
    else exit 2

abbrev options : (Text → Option ℕ) → Options Args
unfolding takes_value with_value argument
options limit = record {
  takes_value = takes_value;
  with_value = with_value limit;
  without_value = λ a args. exit 2;
  argument = argument;
}

pub record Disk : Type 0 where
  pub paths : Paths
  pub cwd : Text
  pub basename : Text → Text
  pub extname : Text → Text
  pub relative : Text → Text → Text
  pub is_dir : Text → Bool
  pub limit : Text → Option ℕ

-- The root is found if none is given.
unfoldable pub with_root : Disk → Args → Args
unfolding find_repo_root
with_root d args =
    let root = if is_empty args.root then find_repo_root d.paths d.cwd else args.root in
    record args { root = d.paths.resolve root }

unfoldable pub parse_args : Disk → List Text → Exit Args
unfolding parse_all takes_value with_value argument with_root
parse_args d argv = do args ← parse_all (options d.limit) no_args argv; ok (with_root d args)

pub data IssueLevel : Type 0 where
  warn fail : IssueLevel

pub data Code : Type 0 where
  required_missing denied_present expected_directory deny_name deny_ext large_file : Code

pub record Issue : Type 0 where
  pub level : IssueLevel
  pub code : Code
  pub path : Text

abbrev pub issue : IssueLevel → Code → Text → Issue
issue l c p = record { level = l; code = c; path = p }

abbrev pub issue_if : Bool → Issue → List Issue
issue_if b i = if b then i ∷ [] else []

abbrev pub default_required_paths : List Text
default_required_paths =
    codes "package.json"
    ∷ codes "pnpm-workspace.yaml"
    ∷ codes "scripts"
    ∷ codes "scripts/db"
    ∷ codes "scripts/env"
    ∷ codes "scripts/solana"
    ∷ codes "scripts/ci"
    ∷ codes "packages"
    ∷ []

abbrev pub script_dirs : List Text
script_dirs =
    codes "scripts"
    ∷ codes "scripts/db"
    ∷ codes "scripts/env"
    ∷ codes "scripts/solana"
    ∷ codes "scripts/ci"
    ∷ codes "scripts/repo"
    ∷ []

-- `exists`
unfoldable pub exists : Disk → Args → Text → Bool
exists d args p = d.paths.exists (d.paths.join args.root p)

-- A loop that makes at most one issue for each path.
unfoldable pub check_paths : (Text → Bool) → Code → List Text → List Issue
check_paths bad code [] = []
check_paths bad code (p ∷ ps) = issue_if (bad p) (issue fail code p) ++ check_paths bad code ps

unfoldable pub is_file : Disk → Args → Text → Bool
is_file d args p = exists d args p && not (d.is_dir (d.paths.join args.root p))

-- `lintStructure`
unfoldable pub lint_structure : Disk → Args → List Issue
unfolding check_paths exists is_file distinct
lint_structure d args =
    check_paths (λ p. not (exists d args p)) required_missing
      (distinct (default_required_paths ++ args.require_paths))
    ++ (check_paths (exists d args) denied_present args.deny_paths
        ++ check_paths (is_file d args) expected_directory script_dirs)

-- What `readdir` shows: files with their sizes, directories, and other entries.
mutual
  pub data Node : Type 0 where
    file : ℕ → Node
    dir : Nodes → Node
    other : Node

  pub data Nodes : Type 0 where
    nil : Nodes
    cons : Text → Node → Nodes → Nodes

unfoldable pub rel : Disk → Text → Text → Text
rel d root p = let r = d.relative root p in if is_empty r then codes "." else r

-- One file.
unfoldable pub lint_file : Disk → Args → Text → ℕ → List Issue
unfolding mem lower rel
lint_file d args abs size =
    let ext = map lower (d.extname abs) in
    let r = rel d args.root abs in
    issue_if (mem (d.basename abs) args.deny_name) (issue fail deny_name r)
    ++ (issue_if (not (is_empty ext) && mem ext args.deny_ext) (issue fail deny_ext r)
        ++ issue_if (ltb args.max_bytes size) (issue warn large_file r))

-- `walk` with the callback of `lintFiles`.
unfoldable mutual
  unfolding lint_file

  pub walk : Disk → Args → Text → Nodes → List Issue
  walk d args at nil = []
  walk d args at (cons name n ns) = walk_node d args (d.paths.join at name) n ++ walk d args at ns

  pub walk_node : Disk → Args → Text → Node → List Issue
  walk_node d args abs (file size) = lint_file d args abs size
  walk_node d args abs (dir ns) = walk d args abs ns
  walk_node d args abs other = []

unfoldable pub any_issue : (IssueLevel → Bool) → List Issue → Bool
any_issue p [] = false
any_issue p (i ∷ is) = p i.level || any_issue p is

abbrev pub is_fail : IssueLevel → Bool
is_fail fail = true
is_fail warn = false

abbrev pub is_warn : IssueLevel → Bool
is_warn fail = false
is_warn warn = true

-- The code that `main` ends with, with `--json` and without.
unfoldable pub exit_code : Args → List Issue → ℕ
unfolding any_issue
exit_code args is =
    if args.json
    then (if any_issue is_fail is
        then 2
        else if any_issue is_warn is
        then (if args.strict then 2 else 1)
        else 0)
    else if any_issue is_fail is
    then 2
    else if any_issue is_warn is && args.strict
    then 2
    else if any_issue is_warn is
    then 1
    else 0

run_args : Disk → Nodes → Exit Args → ℕ
run_args d tree (exit n) = n
run_args d tree (ok args) = exit_code args (lint_structure d args ++ walk d args args.root tree)

-- `main`: the exit code.
unfoldable pub main : Disk → Nodes → List Text → ℕ
unfolding run_args
main d tree argv = run_args d tree (parse_args d argv)
