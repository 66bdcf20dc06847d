-- ===== src/Scripts/ReleaseNotes/Partition.antt =====
-- The sections of the release notes hold the commits.
use psybot_ai.Base.{
  ℕ, ◌+◌, Bool, true, false, ◌≡◌, refl, ap, ◌∙◌, ◌||◌, List, [], ◌∷◌, ◌++◌, map, if◌then◌else◌, All,
  Bool-cases, arith, inl, inr,
}
use psybot_ai.Base.Text.{codes, includes, starts_with, lower}
use psybot_ai.Scripts.ReleaseNotes.{
  Commit, Sections, Section, empty, entries, push, push_all, no_commits, drop_empty, classify,
}

-- How many commits of a list pass a test.
abbrev pub count : (Commit → Bool) → List Commit → ℕ
count p [] = 0
count p (c ∷ cs) = (if p c then 1 else 0) + count p cs

abbrev pub total : (Commit → Bool) → List Section → ℕ
total p [] = 0
total p (s ∷ ss) = count p s.commits + total p ss

count-snoc :
    (p : Commit → Bool) (cs : List Commit) (c : Commit)
    → count p (cs ++ c ∷ []) ≡ (if p c then 1 else 0) + count p cs
count-snoc p [] c = refl
count-snoc p (d ∷ cs) c = omega (arith, count-snoc p cs c)

total-choice :
    (p : Commit → Bool) (c : Commit) (t : Sections) (b1 b2 b3 b4 b5 b6 : Bool)
    → total p (
        entries (
          if b1
          then record t { breaking = t.breaking ++ c ∷ [] }
          else if b2
          then record t { features = t.features ++ c ∷ [] }
          else if b3
          then record t { fixes = t.fixes ++ c ∷ [] }
          else if b4
          then record t { performance = t.performance ++ c ∷ [] }
          else if b5
          then record t { refactors = t.refactors ++ c ∷ [] }
          else if b6
          then record t { chores = t.chores ++ c ∷ [] }
          else record t { others = t.others ++ c ∷ [] }))
      ≡ (if p c then 1 else 0) + total p (entries t)
total-choice p c t true b2 b3 b4 b5 b6 = omega (arith, count-snoc p t.breaking c)
total-choice p c t false true b3 b4 b5 b6 = omega (arith, count-snoc p t.features c)
total-choice p c t false false true b4 b5 b6 = omega (arith, count-snoc p t.fixes c)
total-choice p c t false false false true b5 b6 = omega (arith, count-snoc p t.performance c)
total-choice p c t false false false false true b6 = omega (arith, count-snoc p t.refactors c)
total-choice p c t false false false false false true = omega (arith, count-snoc p t.chores c)
total-choice p c t false false false false false false = omega (arith, count-snoc p t.others c)

total-push :
    (p : Commit → Bool) (c : Commit) (t : Sections)
    → total p (entries (push c t)) ≡ (if p c then 1 else 0) + total p (entries t)
unfolding push
total-push p c t =
    let s = map lower c.subject in
    total-choice p c t (includes s (codes "breaking") || includes s (codes "!:"))
      (starts_with s (codes "feat")) (starts_with s (codes "fix")) (starts_with s (codes "perf"))
      (starts_with s (codes "refactor"))
      (starts_with s (codes "chore") || starts_with s (codes "ci") || starts_with s (codes "build"))

total-push_all :
    (p : Commit → Bool) (cs : List Commit) (t : Sections)
    → total p (entries (push_all cs t)) ≡ count p cs + total p (entries t)
unfolding push_all
total-push_all p [] t = omega arith
total-push_all p (c ∷ cs) t = omega (arith, total-push_all p cs (push c t), total-push p c t)

count-no_commits : (p : Commit → Bool) (cs : List Commit) → no_commits cs ≡ true → count p cs ≡ 0
count-no_commits p [] h = refl
count-no_commits p (c ∷ cs) h = cc

total-drop_empty : (p : Commit → Bool) (ss : List Section) → total p (drop_empty ss) ≡ total p ss
unfolding drop_empty
total-drop_empty p [] = refl
total-drop_empty p (s ∷ ss) = elim (Bool-cases (no_commits s.commits)) [
  | inl t ↦ rw t (total-drop_empty p ss ∙ omega (arith, count-no_commits p s.commits t))
  | inr f ↦ rw f (ap (λ n. count p s.commits + n) (total-drop_empty p ss))
]

drop_empty-All : (ss : List Section) → All (λ s. no_commits s.commits ≡ false) (drop_empty ss)
unfolding drop_empty
drop_empty-All [] = tt
drop_empty-All (s ∷ ss) = elim (Bool-cases (no_commits s.commits)) [
  | inl t ↦ rw t (drop_empty-All ss)
  | inr f ↦ rw f (f, drop_empty-All ss)
]

-- Every commit stands in the sections as often as in the log, whatever test picks it, so that none
-- is lost, made up or put in two sections; and no section is empty.
pub classify-total :
    (p : Commit → Bool) (cs : List Commit)
    → (total p (classify cs) ≡ count p cs) × All (λ s. no_commits s.commits ≡ false) (classify cs)
unfolding classify
classify-total p cs =
    let t = push_all cs empty in
    let e = total-drop_empty p (entries t) in
    let f = total-push_all p cs empty in (omega arith, drop_empty-All (entries t))
