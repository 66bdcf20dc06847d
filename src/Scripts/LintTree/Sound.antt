-- ===== src/Scripts/LintTree/Sound.antt =====
-- What scripts/repo/lint-tree.ts lets through.
use psybot_ai.Base.{
  ℕ, Bool, true, false, ◌≡◌, ◌≢◌, refl, ◌&&◌, not, List, [], ◌∷◌, ◌++◌, map, ltb, subst, All,
  Bool-cases, arith, inl, inr,
}
use psybot_ai.Base.Text.{Text, lower}
use psybot_ai.Scripts.Args.{ok}
use psybot_ai.Scripts.EnvFile.{is_empty, mem, distinct}
use psybot_ai.Scripts.LintTree.{
  Args, Disk, rel, parse_args, Issue, Code, issue, issue_if, warn, fail, required_missing,
  denied_present, expected_directory, deny_name, deny_ext, large_file, default_required_paths,
  script_dirs, exists, check_paths, is_file, lint_structure, Node, Nodes, file, dir, cons,
  lint_file, walk, walk_node, any_issue, is_fail, exit_code, run_args, main,
}

HasNoFail : List Issue → Type 0
HasNoFail is = any_issue is_fail is ≡ false

HasNoFail-append : (is js : List Issue) → HasNoFail (is ++ js) → HasNoFail is × HasNoFail js
unfolding HasNoFail any_issue
HasNoFail-append [] js h = (refl, h)
HasNoFail-append (i ∷ is) js h = ground (arith, HasNoFail-append is js)

issue_if-HasNoFail :
    (b : Bool) (c : Code) (p : Text) → HasNoFail (issue_if b (issue fail c p)) → b ≡ false
unfolding HasNoFail any_issue
issue_if-HasNoFail true c p h = cc
issue_if-HasNoFail false c p h = refl

check_paths-HasNoFail :
    (bad : Text → Bool) (c : Code) (ps : List Text)
    → HasNoFail (check_paths bad c ps)
    → All (λ p. bad p ≡ false) ps
unfolding check_paths
check_paths-HasNoFail bad c [] h = tt
check_paths-HasNoFail bad c (p ∷ ps) h =
    let (a, r) = HasNoFail-append (issue_if (bad p) (issue fail c p)) (check_paths bad c ps) h in
    (issue_if-HasNoFail (bad p) c p a, check_paths-HasNoFail bad c ps r)

-- A file of the tree at this path, at any depth.
pub data FileAt (d : Disk) : Text → Nodes → Text → Type 0 where
  here :
      {at name abs : Text} {size : ℕ} {ns : Nodes}
      → d.paths.join at name ≡ abs
      → FileAt d at (cons name (file size) ns) abs
  inside :
      {at name abs : Text} {ms ns : Nodes}
      → FileAt d (d.paths.join at name) ms abs
      → FileAt d at (cons name (dir ms) ns) abs
  later :
      {at name abs : Text} {n : Node} {ns : Nodes}
      → FileAt d at ns abs
      → FileAt d at (cons name n ns) abs

-- Neither its name nor its extension is denied.
abbrev pub IsAllowed : Disk → Args → Text → Type 0
IsAllowed d args abs =
    (mem (d.basename abs) args.deny_name ≡ false)
    × ((not (is_empty (map lower (d.extname abs))) && mem (map lower (d.extname abs)) args.deny_ext)
        ≡ false)

lint_file-IsAllowed :
    (d : Disk) (args : Args) (abs : Text) (size : ℕ)
    → HasNoFail (lint_file d args abs size)
    → IsAllowed d args abs
unfolding lint_file
lint_file-IsAllowed d args abs size h =
    let ext = map lower (d.extname abs) in
    let p = rel d args.root abs in
    let named = mem (d.basename abs) args.deny_name in
    let typed = not (is_empty ext) && mem ext args.deny_ext in
    let large = issue_if (ltb args.max_bytes size) (issue warn large_file p) in
    let (a, r) =
      HasNoFail-append (issue_if named (issue fail deny_name p))
        (issue_if typed (issue fail deny_ext p) ++ large) h in
    let (b, _) = HasNoFail-append (issue_if typed (issue fail deny_ext p)) large r in
    (issue_if-HasNoFail named deny_name p a, issue_if-HasNoFail typed deny_ext p b)

walk-IsAllowed :
    (d : Disk) (args : Args) (at : Text) (ns : Nodes) (abs : Text)
    → FileAt d at ns abs
    → HasNoFail (walk d args at ns)
    → IsAllowed d args abs
unfolding walk walk_node
walk-IsAllowed d args at _ abs (here {name = name} {size = size} {ns = ns} e) h =
    let here_at = d.paths.join at name in
    subst (IsAllowed d args) e (
      lint_file-IsAllowed d args here_at size
        (HasNoFail-append (lint_file d args here_at size) (walk d args at ns) h).0)
walk-IsAllowed d args at _ abs (inside {name = name} {ms = ms} {ns = ns} f) h =
    walk-IsAllowed d args (d.paths.join at name) ms abs f
      (HasNoFail-append (walk d args (d.paths.join at name) ms) (walk d args at ns) h).0
walk-IsAllowed d args at _ abs (later {name = name} {n = n} {ns = ns} f) h =
    walk-IsAllowed d args at ns abs f
      (HasNoFail-append (walk_node d args (d.paths.join at name) n) (walk d args at ns) h).1

exit_code-HasNoFail : (args : Args) (is : List Issue) → exit_code args is ≢ 2 → HasNoFail is
unfolding exit_code HasNoFail
exit_code-HasNoFail args is h = elim (Bool-cases (any_issue is_fail is)) [
  | inl t ↦ absurd (h (rw t (ground arith)))
  | inr f ↦ f
]

-- If the script does not end with 2 then every path that is required by default or by an option is
-- there, no denied path is there, no script directory is a file, and no file of the tree, at any
-- depth, has a denied name or extension.
pub main-IsAllowed :
    (d : Disk) (tree : Nodes) (argv : List Text) (args : Args) (abs : Text)
    → parse_args d argv ≡ ok args
    → main d tree argv ≢ 2
    → FileAt d args.root tree abs
    → All
        (λ p. not (exists d args p) ≡ false)
        (distinct (default_required_paths ++ args.require_paths))
      × All (λ p. exists d args p ≡ false) args.deny_paths
      × All (λ p. is_file d args p ≡ false) script_dirs
      × IsAllowed d args abs
unfolding main run_args lint_structure
main-IsAllowed d tree argv args abs e h f =
    let required = distinct (default_required_paths ++ args.require_paths) in
    let missing = check_paths (λ p. not (exists d args p)) required_missing required in
    let denied = check_paths (exists d args) denied_present args.deny_paths in
    let files = check_paths (is_file d args) expected_directory script_dirs in
    let tree_issues = walk d args args.root tree in
    let all = (missing ++ (denied ++ files)) ++ tree_issues in
    let clean = exit_code-HasNoFail args all (λ t. h (rw (e, run_args) t)) in
    let (s, w) = HasNoFail-append (missing ++ (denied ++ files)) tree_issues clean in
    let (a, r) = HasNoFail-append missing (denied ++ files) s in
    let (b, c) = HasNoFail-append denied files r in
    (
      check_paths-HasNoFail (λ p. not (exists d args p)) required_missing required a,
      check_paths-HasNoFail (exists d args) denied_present args.deny_paths b,
      check_paths-HasNoFail (is_file d args) expected_directory script_dirs c,
      walk-IsAllowed d args args.root tree abs f w,
    )
