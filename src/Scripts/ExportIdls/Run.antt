-- ===== src/Scripts/ExportIdls/Run.antt =====
-- scripts/solana/export-idls.ts: the copying of the files. A file is its text; the functions of
-- `path`, the listing of a directory, `JSON.parse` and `JSON.stringify`, the order of
-- `localeCompare`, and the tools that hash a file are parameters.
use psybot_ai.Base.{
  Bool, ◌&&◌, not, Option, none, some, is_some, List, [], ◌∷◌, ◌++◌, map, drop, reverse,
  if◌then◌else◌,
}
use psybot_ai.Base.Text.{Text, codes, text_eq, starts_with, is_space, trim}
use psybot_ai.Base.Json.{Json}
use psybot_ai.Scripts.Args.{Exit, ok, exit, ◌>>=◌, ◌>>◌, guard}
use psybot_ai.Scripts.Root.{Paths, find_repo_root}
use psybot_ai.Scripts.EnvFile.{keep, sort}
use psybot_ai.Scripts.GenDev.{Files, write}
use psybot_ai.Scripts.GenProd.{is_nil}
use psybot_ai.Scripts.ExportIdls.CommandLine.{Args, parse_args}
use psybot_ai.Scripts.ExportIdls.Index.{IdlMeta, index_json, index_ts}

-- `names` lists a directory, `none` if there is none; `is_under` tests a path against a directory;
-- a tool that hashes prints a text, `none` if it fails.
pub record Machine : Type 0 where
  pub paths : Paths
  pub cwd : Text
  pub basename : Text → Text
  pub names : Files → Text → Option (List Text)
  pub is_under : Text → Text → Bool
  pub not_after : Text → Text → Bool
  pub valid_json : Text → Bool
  pub shasum : Files → Text → Option Text
  pub sha256sum : Files → Text → Option Text
  pub date : Text
  pub pretty : Json → Text
  pub quote : Text → Text

unfoldable pub first_word : Text → Text
unfolding is_space
first_word [] = []
first_word (c ∷ s) = let rest = first_word s in if is_space c then [] else c ∷ rest

-- The first word that a tool printed, or what comes later if it failed or printed nothing.
unfoldable pub printed : Option Text → Text → Text
unfolding first_word trim
printed none later = later
printed (some []) later = later
printed (some (c ∷ s)) later = first_word (trim (c ∷ s))

-- `sha256File`
unfoldable pub sha256_file : Machine → Files → Text → Text
unfolding printed
sha256_file m fs path = printed (m.shasum fs path) (printed (m.sha256sum fs path) [])

-- `f.endsWith(".json")`
unfoldable pub is_json : Text → Bool
unfolding starts_with
is_json f = starts_with (reverse f) (reverse (codes ".json"))

-- `base.replace(/\.json$/, "")`
unfoldable pub without_json : Text → Text
unfolding is_json
without_json base = if is_json base then reverse (drop 5 (reverse base)) else base

unfoldable pub pick : Machine → Text → Option Text → List Text → List Text
unfolding sort keep text_eq
pick m dir none files = sort m.not_after files
pick m dir (some program) files =
    let expected = m.paths.join dir (program ++ codes ".json") in
    keep (λ f. text_eq (m.paths.resolve f) (m.paths.resolve expected)) files

-- `listIdlFiles`
unfoldable pub list_idl_files : Machine → Text → Option Text → Option (List Text) → List Text
unfolding pick keep is_json
list_idl_files m dir program none = []
list_idl_files m dir program (some names) =
    pick m dir program (map (m.paths.join dir) (keep is_json names))

-- `readJson`, which also ends the script if the file cannot be read.
unfoldable pub read_json : Machine → Option Text → Exit Text
read_json m none = exit 1
read_json m (some raw) = if m.valid_json raw then ok raw else exit 1

-- `copyFile`, with the text of the source.
unfoldable pub copy_file : Text → Text → Bool → Files → Exit Files
copy_file raw dst force fs = if is_some (fs dst) && not force then exit 1 else ok (write dst raw fs)

-- The loop of `main`.
unfoldable pub export_each : Machine → Bool → Text → List Text → Files → Exit (List IdlMeta × Files)
unfolding read_json copy_file sha256_file without_json
export_each m force out [] fs = ok ([], fs)
export_each m force out (path ∷ files) fs =
    let base = m.basename path in
    let dst = m.paths.join out base in
    read_json m (fs path) >>= λ (raw : Text). copy_file raw dst force fs >>= λ (made : Files).
    export_each m force out files made >>= λ (r : List IdlMeta × Files). ok (
      record { name = without_json base; idl_file = base; sha256 = sha256_file m made dst } ∷ r.0,
      r.1,
    )

-- `writeIndex`
unfoldable pub write_index : Machine → Text → List IdlMeta → Files → Files
unfolding index_json index_ts
write_index m out metas fs =
    write (m.paths.join out (codes "index.ts")) (index_ts m.basename m.quote metas) (
      write (m.paths.join out (codes "index.json"))
        (m.pretty (index_json m.date metas) ++ b'\n' ∷ []) fs)

abbrev absolute : Paths → Text → Text → Text
absolute p dir path = if p.is_absolute path then path else p.join dir path

unfoldable pub out_dir_of : Machine → Args → Text
unfolding find_repo_root
out_dir_of m args = absolute m.paths (find_repo_root m.paths m.cwd) args.out_dir

-- The directory `idl` of the target directory, which lies beside the workspace.
unfoldable pub idl_dir_of : Machine → Args → Text
unfolding find_repo_root
idl_dir_of m args =
    let workspace = absolute m.paths (find_repo_root m.paths m.cwd) args.anchor_workspace_dir in
    m.paths.join (absolute m.paths (m.paths.dirname workspace) args.target_dir) (codes "idl")

-- The files after `--clean`.
unfoldable pub cleaned : Machine → Args → Files → Files
unfolding out_dir_of
cleaned m args fs =
    if args.clean then (λ q. if m.is_under (out_dir_of m args) q then none else fs q) else fs

-- The files that are exported.
unfoldable pub sources : Machine → Args → Files → List Text
unfolding list_idl_files idl_dir_of
sources m args fs =
    let dir = idl_dir_of m args in list_idl_files m dir args.program (m.names fs dir)

abbrev pub indexed : Machine → Args → List IdlMeta × Files → Files
unfolding write_index out_dir_of
indexed m args done =
    if args.make_index then write_index m (out_dir_of m args) done.0 done.1 else done.1

-- `main`: what was exported, and the files afterwards.
unfoldable pub main : Machine → List Text → Files → Exit (List IdlMeta × Files)
unfolding parse_args cleaned sources export_each out_dir_of
main m argv fs = do
  args ← parse_args argv
  let start = cleaned m args fs
  let files = sources m args start
  guard (not (is_nil files)) 1
  done ← export_each m args.force (out_dir_of m args) files start
  ok (done.0, indexed m args done)
