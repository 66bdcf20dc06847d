-- ===== src/Worker/Container/Paths.antt =====
-- Where a relative path of a bundle leads.
use psybot_ai.Base.{
  ◌≡◌, ◌≢◌, ◌⊎◌, refl, sym, ◌∙◌, true, List, [], ◌∷◌, ◌++◌, reverse, All, arith, append_assoc, inl,
  inr,
}
use mathlib.Core.List.{reverse-append, reverse-reverse}
use psybot_ai.Base.Text.{Text, codes, text_eq, text_eq_iff}
use psybot_ai.Worker.Container.{AbsPath, split_slash, resolve, resolve_all, join, is_under}

abbrev pub IsNoParent : Text → Type 0
IsNoParent name = name ≢ codes ".."

resolve_cases :
    (stack : AbsPath) (name : Text)
    → IsNoParent name
    → (resolve stack name ≡ stack) ⊎ (resolve stack name ≡ name ∷ stack)
unfolding resolve
resolve_cases stack name h = ground (arith, text_eq_iff name (codes ".."))

-- The names that a path adds to a directory, where it has no "..".
resolve_all-under :
    (stack : AbsPath) (names : List Text)
    → All IsNoParent names
    → (more : AbsPath) × (resolve_all stack names ≡ more ++ stack)
unfolding resolve_all
resolve_all-under stack [] h = ([], refl)
resolve_all-under stack (name ∷ names) (p, h) = elim (resolve_cases stack name p) [
  | inl same ↦ rw same (resolve_all-under stack names h)
  | inr pushed ↦
      let (more, e) = resolve_all-under (name ∷ stack) names h in
      (more ++ name ∷ [], rw pushed (e ∙ sym (append_assoc more (name ∷ []) stack)))
]

text_eq_refl : (s : Text) → text_eq s s ≡ true
text_eq_refl s = (text_eq_iff s s).1 refl

pub is_under-append : (p q : AbsPath) → is_under p (p ++ q) ≡ true
unfolding is_under
is_under-append [] q = refl
is_under-append (x ∷ p) q = rw (text_eq_refl x) (is_under-append p q)

-- A path with no ".." among its names stays below the directory.
pub join-is_under :
    (dir : AbsPath) (rel : Text)
    → All IsNoParent (split_slash [] rel)
    → is_under dir (join dir rel) ≡ true
unfolding join
join-is_under dir rel h =
    let (more, e) = resolve_all-under (reverse dir) (split_slash [] rel) h in
    rw (e, reverse-append more (reverse dir), reverse-reverse dir)
      (is_under-append dir (reverse more))

-- A leading "../" leads to the parent directory.
pub join-parent :
    (base : AbsPath) (last rel : Text)
    → join (base ++ last ∷ []) (codes "../" ++ rel) ≡ join base rel
unfolding join
join-parent base last rel = rw (reverse-append base (last ∷ []))
