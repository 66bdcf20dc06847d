-- ===== src/Scripts/Root.antt =====
-- `findRepoRoot`, which the scripts share: the nearest directory above that holds the workspace's
-- files. The file system and the functions of `path` are parameters.
use psybot_ai.Base.{
  ℕ, zero, suc, ◌≡◌, refl, sym, ap, ◌∙◌, Bool, false, ◌&&◌, Option, none, some, List, [], ◌∷◌, inl,
  inr, Bool-cases, if◌then◌else◌, or_default,
}
use psybot_ai.Base.Text.{Text, codes, text_eq, text_eq_iff}

pub record Paths : Type 0 where
  pub exists : Text → Bool
  pub resolve : Text → Text
  pub dirname : Text → Text
  pub join : Text → Text → Text
  pub is_absolute : Text → Bool

unfoldable pub is_root : Paths → Text → Bool
is_root p dir =
    p.exists (p.join dir (codes "pnpm-workspace.yaml"))
    && p.exists (p.join dir (codes "package.json"))

-- The loop, with the rounds left; it stops at the top of the file system.
unfoldable pub climb : Paths → ℕ → Text → Option Text
unfolding is_root text_eq
climb p zero dir = none
climb p (suc n) dir =
    let parent = p.dirname dir in
    let above = climb p n parent in
    if is_root p dir then some dir else if text_eq parent dir then none else above

unfoldable pub find_repo_root : Paths → Text → Text
unfolding climb
find_repo_root p start_dir = let dir = p.resolve start_dir in or_default (climb p 12 dir) dir

-- A directory and those above it.
abbrev pub ancestors : Paths → ℕ → Text → List Text
ancestors p zero dir = []
ancestors p (suc n) dir = dir ∷ ancestors p n (p.dirname dir)

abbrev pub first : (Text → Bool) → List Text → Option Text
first test [] = none
first test (d ∷ ds) = if test d then some d else first test ds

first_top :
    (p : Paths) (n : ℕ) (dir : Text)
    → p.dirname dir ≡ dir
    → is_root p dir ≡ false
    → first (is_root p) (ancestors p n dir) ≡ none
first_top p zero dir e h = refl
first_top p (suc n) dir e h =
    rw h (ap (λ d. first (is_root p) (ancestors p n d)) e ∙ first_top p n dir e h)

climb-first :
    (p : Paths) (n : ℕ) (dir : Text) → climb p n dir ≡ first (is_root p) (ancestors p n dir)
unfolding climb
climb-first p zero dir = refl
climb-first p (suc n) dir = elim (Bool-cases (is_root p dir)) [
  | inl h ↦ rw h refl
  | inr h ↦ elim (Bool-cases (text_eq (p.dirname dir) dir)) [
    | inl t ↦
        let e = (text_eq_iff (p.dirname dir) dir).0 t in
        rw (h, t) (sym (ap (λ d. first (is_root p) (ancestors p n d)) e ∙ first_top p n dir e h))
    | inr t ↦ rw (h, t) (climb-first p n (p.dirname dir))
  ]
]

-- The repository's root is the nearest of the resolved directory and the eleven above it that
-- holds both files, and the resolved directory if there is none: stopping at the top of the file
-- system misses nothing.
pub find_repo_root-first :
    (p : Paths) (start_dir : Text)
    → find_repo_root p start_dir
      ≡ or_default (first (is_root p) (ancestors p 12 (p.resolve start_dir))) (p.resolve start_dir)
unfolding find_repo_root
find_repo_root-first p start_dir =
    ap (λ o. or_default o (p.resolve start_dir)) (climb-first p 12 (p.resolve start_dir))
