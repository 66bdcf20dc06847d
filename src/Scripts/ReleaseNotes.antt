-- ===== src/Scripts/ReleaseNotes.antt =====
-- scripts/ci/release-notes.ts: commits from git's log, sorted into sections and printed. What git
-- prints is a parameter; `none` is a call that fails.
pub mod Partition
use psybot_ai.Base.{
  ℕ, Bool, true, false, ◌&&◌, ◌||◌, not, Option, none, some, List, [], ◌∷◌, ◌++◌, map, take,
  if◌then◌else◌, or_default, length, reverse, zero, suc, ◌-◌,
}
use psybot_ai.Base.Text.{Text, codes, text_eq, starts_with, includes, trim, lower}
use psybot_ai.Scripts.Args.{Exit, ok, exit, ◌>>=◌, Options, parse_all, split_on, trimmed}
use psybot_ai.Scripts.EnvFile.{is_empty, join_lines}

pub record Args : Type 0 where
  pub from : Option Text
  pub to : Text
  pub tag : Option Text
  pub write : Option Text
  pub json : Bool
  pub include_sha : Bool
  pub strict : Bool

abbrev pub no_args : Args
no_args = record {
  from = none;
  to = codes "HEAD";
  tag = none;
  write = none;
  json = false;
  include_sha = false;
  strict = false;
}

takes_value : Text → Bool
takes_value a =
    text_eq a (codes "--from")
    || text_eq a (codes "--to")
    || text_eq a (codes "--tag")
    || text_eq a (codes "--write")

-- `--to` takes any value, also an empty one.
with_value : Text → Text → Args → Exit Args
with_value a v args =
    if text_eq a (codes "--to")
    then ok (record args { to = v })
    else if is_empty v
    then exit 1
    else if text_eq a (codes "--from")
    then ok (record args { from = some v })
    else if text_eq a (codes "--tag")
    then ok (record args { tag = some v })
    else ok (record args { write = some v })

without_value : Text → Args → Exit Args
without_value a args =
    if text_eq a (codes "--to") then ok (record args { to = codes "HEAD" }) else exit 1

argument : Text → Args → Exit Args
argument a args =
    if text_eq a (codes "--json")
    then ok (record args { json = true })
    else if text_eq a (codes "--include-sha")
    then ok (record args { include_sha = true })
    else if text_eq a (codes "--strict")
    then ok (record args { strict = true })
    else if text_eq a (codes "-h") || text_eq a (codes "--help")
    then exit 0
    else exit 1

abbrev options : Options Args
unfolding takes_value with_value without_value argument
options = record {
  takes_value = takes_value;
  with_value = with_value;
  without_value = without_value;
  argument = argument;
}

unfoldable pub parse_args : List Text → Exit Args
unfolding parse_all takes_value with_value without_value argument
parse_args argv = parse_all options no_args argv

pub record Commit : Type 0 where
  pub sha : Text
  pub subject : Text
  pub body : Text

-- `raw.split(sep)` at a text that is not empty; the count is of the units of the separator left to
-- pass over, and the part so far is reversed.
unfoldable pub split_at : Text → ℕ → Text → Text → List Text
unfolding starts_with
split_at sep skip acc [] = reverse acc ∷ []
split_at sep (suc skip) acc (c ∷ s) = split_at sep skip acc s
split_at sep zero acc (c ∷ s) =
    let next = split_at sep (length sep - 1) [] s in
    let on = split_at sep zero (c ∷ acc) s in
    if starts_with (c ∷ s) sep then reverse acc ∷ next else on

-- `sha` and `subject` are the first lines, and the others the body.
unfoldable pub commit_of : List Text → Commit
unfolding join_lines trim
commit_of [] = record { sha = []; subject = []; body = [] }
commit_of (sha ∷ []) = record { sha = sha; subject = []; body = [] }
commit_of (sha ∷ subject ∷ lines) = record {
  sha = sha;
  subject = subject;
  body = trim (join_lines lines);
}

-- `collectCommits` on what `git log` prints.
unfoldable pub collect_commits : Text → List Commit
unfolding split_at trimmed commit_of split_on
collect_commits raw =
    if is_empty raw
    then []
    else map (λ b. commit_of (split_on b'\n' [] b))
        (trimmed (split_at (codes "---END---") 0 [] raw))

pub record Sections : Type 0 where
  pub breaking : List Commit
  pub features : List Commit
  pub fixes : List Commit
  pub performance : List Commit
  pub refactors : List Commit
  pub chores : List Commit
  pub others : List Commit

-- The chain of tests, and the push.
unfoldable pub push : Commit → Sections → Sections
unfolding includes starts_with lower
push c t =
    let s = map lower c.subject in
    if includes s (codes "breaking") || includes s (codes "!:")
    then record t { breaking = t.breaking ++ c ∷ [] }
    else if starts_with s (codes "feat")
    then record t { features = t.features ++ c ∷ [] }
    else if starts_with s (codes "fix")
    then record t { fixes = t.fixes ++ c ∷ [] }
    else if starts_with s (codes "perf")
    then record t { performance = t.performance ++ c ∷ [] }
    else if starts_with s (codes "refactor")
    then record t { refactors = t.refactors ++ c ∷ [] }
    else if starts_with s (codes "chore")
        || starts_with s (codes "ci")
        || starts_with s (codes "build")
    then record t { chores = t.chores ++ c ∷ [] }
    else record t { others = t.others ++ c ∷ [] }

unfoldable pub push_all : List Commit → Sections → Sections
unfolding push
push_all [] t = t
push_all (c ∷ cs) t = push_all cs (push c t)

pub record Section : Type 0 where
  pub title : Text
  pub commits : List Commit

abbrev pub empty : Sections
empty = record {
  breaking = [];
  features = [];
  fixes = [];
  performance = [];
  refactors = [];
  chores = [];
  others = [];
}

-- `Object.entries`, of which the empty ones are dropped.
abbrev pub entries : Sections → List Section
entries t =
    record { title = codes "Breaking Changes"; commits = t.breaking }
    ∷ record { title = codes "Features"; commits = t.features }
    ∷ record { title = codes "Fixes"; commits = t.fixes }
    ∷ record { title = codes "Performance"; commits = t.performance }
    ∷ record { title = codes "Refactors"; commits = t.refactors }
    ∷ record { title = codes "Chores"; commits = t.chores }
    ∷ record { title = codes "Other"; commits = t.others }
    ∷ []

abbrev pub no_commits : List Commit → Bool
no_commits [] = true
no_commits (_ ∷ _) = false

unfoldable pub drop_empty : List Section → List Section
drop_empty [] = []
drop_empty (s ∷ ss) = if no_commits s.commits then drop_empty ss else s ∷ drop_empty ss

-- `classify`
unfoldable pub classify : List Commit → List Section
unfolding push_all drop_empty
classify cs = drop_empty (entries (push_all cs empty))

commit_lines : Bool → List Commit → List Text
commit_lines include_sha [] = []
commit_lines include_sha (c ∷ cs) =
    (codes "- "
      ++ (c.subject ++ (if include_sha then codes " (" ++ (take 7 c.sha ++ codes ")") else [])))
    ∷ commit_lines include_sha cs

section_lines : Bool → List Section → List Text
unfolding commit_lines
section_lines include_sha [] = []
section_lines include_sha (s ∷ ss) =
    (codes "### " ++ s.title)
    ∷ ([] ∷ (commit_lines include_sha s.commits ++ ([] ∷ section_lines include_sha ss)))

-- A field that may be missing or empty.
abbrev pub text_of : Option Text → Text
text_of o = or_default o []

-- `toMarkdown`
unfoldable pub to_markdown : List Section → Bool → Option Text → Option Text → Text → Text
unfolding section_lines join_lines trim
to_markdown ss include_sha tag from to =
    let title =
      if is_empty (text_of tag) then codes "## Release Notes" else codes "## " ++ text_of tag in
    let range =
      if is_empty (text_of from)
      then []
      else (codes "Changes from `" ++ (text_of from ++ (codes "` to `" ++ (to ++ codes "`"))))
        ∷ []
        ∷ [] in
    trim (join_lines (title ∷ [] ∷ (range ++ section_lines include_sha ss))) ++ b'\n' ∷ []

-- What git prints: the last tag, and the log from a reference, if there is one, to another.
pub record Git : Type 0 where
  pub last_tag : Option Text
  pub log : Option Text → Text → Option Text

-- `from`, of which an empty one counts as none; without a tag the strict mode fails.
unfoldable pub start_ref : Git → Args → Exit (Option Text)
start_ref git args =
    if not (is_empty (text_of args.from))
    then ok args.from
    else if not (is_empty (text_of git.last_tag))
    then ok git.last_tag
    else if args.strict
    then exit 1
    else ok none

unfoldable pub commits_of : Bool → Option Text → Exit (List Commit)
unfolding collect_commits
commits_of strict none = if strict then exit 1 else ok []
commits_of strict (some raw) = ok (collect_commits raw)

-- `main` behind the arguments, as far as the text; with `--json` the sections are printed instead.
unfoldable pub notes : Git → Args → Exit (List Section × Text)
notes git args = do
  from ← start_ref git args
  cs ← commits_of args.strict (git.log from args.to)
  let ss = classify cs
  ok (ss, to_markdown ss args.include_sha args.tag from args.to)

-- `main`
unfoldable pub main : Git → List Text → Exit (List Section × Text)
main git argv = do args ← parse_args argv; notes git args
