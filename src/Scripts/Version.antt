-- ===== src/Scripts/Version.antt =====
-- scripts/ci/version.ts: the version of a build. The process environment, what git prints and the
-- parsed package.json are parameters.
pub mod Normal
use psybot_ai.Base.{
  ℕ, Bool, true, false, ◌&&◌, ◌||◌, not, Option, none, some, List, [], ◌∷◌, ◌++◌, map, length, take,
  leb, ltb, ◌==◌, if◌then◌else◌, or_default,
}
use psybot_ai.Base.Text.{Text, codes, text_eq, trim}
use psybot_ai.Scripts.Args.{Exit, ok, exit, ◌>>=◌, ◌>>◌, guard, Options, parse_all, comma_list}
use psybot_ai.Scripts.Root.{Paths, find_repo_root}
use psybot_ai.Scripts.EnvFile.{Kv, get, is_empty, any}

pub data Tag : Type 0 where
  dev ci release : Tag

pub record Args : Type 0 where
  pub base : Option Text
  pub tag : Tag
  pub out_file : Text
  pub write : Bool
  pub targets : List Text
  pub print : Bool
  pub json : Bool
  pub strict : Bool

abbrev pub no_args : Args
no_args = record {
  base = none;
  tag = dev;
  out_file = codes "VERSION";
  write = false;
  targets = [];
  print = true;
  json = false;
  strict = false;
}

takes_value : Text → Bool
takes_value a =
    text_eq a (codes "--base")
    || text_eq a (codes "--tag")
    || text_eq a (codes "--out")
    || text_eq a (codes "--targets")

unfoldable pub read_tag : Text → Exit Tag
read_tag v =
    if text_eq v (codes "dev")
    then ok dev
    else if text_eq v (codes "ci")
    then ok ci
    else if text_eq v (codes "release")
    then ok release
    else exit 1

with_value : Text → Text → Args → Exit Args
unfolding read_tag
with_value a v args =
    if is_empty v
    then exit 1
    else if text_eq a (codes "--base")
    then ok (record args { base = some v })
    else if text_eq a (codes "--tag")
    then (do t ← read_tag v; ok (record args { tag = t }))
    else if text_eq a (codes "--out")
    then ok (record args { out_file = v })
    else ok (record args { targets = comma_list v })

argument : Text → Args → Exit Args
argument a args =
    if text_eq a (codes "--write")
    then ok (record args { write = true })
    else if text_eq a (codes "--print")
    then ok (record args { print = true })
    else if text_eq a (codes "--no-print")
    then ok (record args { print = false })
    else if text_eq a (codes "--json")
    then ok (record args { json = true })
    else if text_eq a (codes "--strict")
    then ok (record args { strict = true })
    else if text_eq a (codes "-h") || text_eq a (codes "--help")
    then exit 0
    else exit 1

abbrev pub options : Options Args
unfolding takes_value with_value argument
options = record {
  takes_value = takes_value;
  with_value = with_value;
  without_value = λ a args. exit 1;
  argument = argument;
}

unfoldable pub parse_args : List Text → Exit Args
unfolding parse_all takes_value with_value argument
parse_args argv = parse_all options no_args argv

-- `version` of package.json: no file, no text or an empty one is an error.
unfoldable pub read_package_json_version : Option (Option Text) → Exit Text
read_package_json_version none = exit 1
read_package_json_version (some none) = exit 1
read_package_json_version (some (some v)) = if is_empty v then exit 1 else ok v

abbrev pub value : Text → Kv → Text
value k env = or_default (get k env) []

abbrev pub or_nonempty : Text → Text → Text
or_nonempty v w = if is_empty v then w else v

abbrev or_blank : Option Text → Text
or_blank none = []
or_blank (some out) = trim out

-- `gitShaShort`; `git` is what `git rev-parse` prints if it succeeds.
unfoldable pub git_sha_short : Kv → Option Text → Text
unfolding get trim
git_sha_short env git =
    let sha =
      or_nonempty (value (codes "GITHUB_SHA") env)
        (or_nonempty (value (codes "CI_COMMIT_SHA") env) (value (codes "COMMIT_SHA") env)) in
    if not (is_empty sha) && leb 7 (length sha) then take 7 sha else or_blank git

unfoldable pub is_digit : ℕ → Bool
is_digit c = leb 48 c && leb c 57

-- `v && /^[0-9]+$/.test(v)`
unfoldable pub is_number : Text → Bool
unfolding any is_digit
is_number v = not (is_empty v) && not (any (λ c. not (is_digit c)) v)

unfoldable pub first_number : List Text → Text
unfolding is_number
first_number [] = []
first_number (v ∷ vs) = if is_number v then v else first_number vs

abbrev pub build_keys : List Text
build_keys =
    codes "GITHUB_RUN_NUMBER"
    ∷ codes "BUILD_NUMBER"
    ∷ codes "RUN_NUMBER"
    ∷ codes "CI_PIPELINE_IID"
    ∷ []

-- `buildNumber`
unfoldable pub build_number : Kv → Text
unfolding first_number get
build_number env = first_number (map (λ k. value k env) build_keys)

-- `\d+`: the longest run of digits and the rest; no digit is a dot, so it is the only match.
unfoldable pub digits : Text → Text × Text
unfolding is_digit
digits [] = ([], [])
digits (c ∷ s) = let (d, rest) = digits s in if is_digit c then (c ∷ d, rest) else ([], c ∷ s)

infixl 5 ◌>>?◌
abbrev pub ◌>>?◌ : {A B : Type 0} → Option A → (A → Option B) → Option B
none >>? f = none
some a >>? f = f a

abbrev pub not_empty : Text × Text → Option (Text × Text)
not_empty ([], rest) = none
not_empty (c ∷ d, rest) = some (c ∷ d, rest)

unfoldable pub group : Text → Option (Text × Text)
unfolding digits
group s = not_empty (digits s)

unfoldable pub dot : Text → Option Text
dot [] = none
dot (c ∷ s) = if c == b'.' then some s else none

-- What `.` does not match.
unfoldable pub is_line_end : ℕ → Bool
is_line_end c = c == 10 || c == 13 || c == 8232 || c == 8233

abbrev pub dotted : Text → Text → Text → Text
dotted a b c = a ++ (b'.' ∷ (b ++ (b'.' ∷ c)))

-- `/^(\d+)\.(\d+)\.(\d+)(?:.*)?$/`
unfoldable pub match_base : Text → Option Text
unfolding any
match_base v = group v >>? λ (x : Text × Text). dot x.1 >>? λ (s : Text).
    group s >>? λ (y : Text × Text). dot y.1 >>? λ (t : Text).
    group t >>? λ (z : Text × Text). if any is_line_end z.1 then none else some (dotted x.0 y.0 z.0)

abbrev pub or_exit : Option Text → Exit Text
or_exit none = exit 1
or_exit (some v) = ok v

-- `normalizeBase`
unfoldable pub normalize_base : Text → Exit Text
unfolding match_base
normalize_base v = or_exit (match_base v)

abbrev pub tag_text : Tag → Text
tag_text dev = codes "dev"
tag_text ci = codes "ci"
tag_text release = codes "release"

abbrev pub is_release : Tag → Bool
is_release release = true
is_release _ = false

-- `computeVersion`
unfoldable pub compute_version : Text → Tag → Text → Text → Text
compute_version base tag sha build =
    let meta = if is_empty sha then [] else codes "+g" ++ sha in
    if is_release tag
    then base ++ meta
    else base ++ (b'-' ∷ (tag_text tag ++ (b'.' ∷ (or_nonempty build (codes "0") ++ meta))))

pub record VersionInfo : Type 0 where
  pub version : Text
  pub base : Text
  pub tag : Tag
  pub sha : Text
  pub build : Text

pub record Machine : Type 0 where
  pub paths : Paths
  pub cwd : Text
  pub env : Kv
  pub git : Option Text
  pub package_version : Option (Option Text)

abbrev pub given_base : Machine → Option Text → Exit Text
given_base m none = read_package_json_version m.package_version
given_base m (some v) = ok v

-- The part of `main` that computes the version.
unfoldable pub version_info : Machine → Args → Exit VersionInfo
version_info m args = do
  v ← given_base m args.base
  base ← normalize_base v
  let sha = git_sha_short m.env m.git
  let build = build_number m.env
  guard (not args.strict || not (is_empty sha)) 1
  ok (record {
    version = compute_version base args.tag sha build;
    base = base;
    tag = args.tag;
    sha = sha;
    build = build;
  })

-- The files that `main` writes the version to.
unfoldable pub out_files : Machine → Args → List Text
unfolding find_repo_root
out_files m args =
    let root = find_repo_root m.paths m.cwd in
    let target = λ (t : Text). if m.paths.is_absolute t then t else m.paths.join root t in
    if args.write
    then m.paths.join root args.out_file
      ∷ map (λ t. m.paths.join (target t) args.out_file) args.targets
    else []

-- `main`: the version and the files it is written to.
unfoldable pub main : Machine → List Text → Exit (VersionInfo × List Text)
main m argv = do args ← parse_args argv; info ← version_info m args; ok (info, out_files m args)
