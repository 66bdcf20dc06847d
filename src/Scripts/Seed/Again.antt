-- ===== src/Scripts/Seed/Again.antt =====
-- A second run of scripts/db/seed.ts.
use psybot_ai.Base.{
  Bool, true, false, ◌≡◌, refl, ap, ◌∙◌, none, some, List, [], ◌∷◌, ◌++◌, All, Bool-cases,
  Option-cases, inl, inr, is_some,
}
use psybot_ai.Base.Text.{Text, codes, text_eq, text_eq_iff}
use psybot_ai.Scripts.Seed.{
  User, Project, Module, Setting, Db, Ids, find, found_or, ensure, ensure_each, is_system, new_user,
  ensure_system_user, is_core, new_project, ensure_default_project, base_modules, is_module,
  new_module, ensure_base_modules, base_settings, is_setting, ensure_settings, destructive_reset,
  fill, seed,
}

module _ {A : Type 0} where
  find-snoc_new :
      (p : A → Bool) (xs : List A) (x : A)
      → find p xs ≡ none
      → p x ≡ true
      → find p (xs ++ x ∷ []) ≡ some x
  unfolding find
  find-snoc_new p [] x e h = rw h refl
  find-snoc_new p (y ∷ xs) x e h = elim (Bool-cases (p y)) [
    | inl t ↦ cc (rw t at e)
    | inr f ↦ rw f (find-snoc_new p xs x (rw f at e) h)
  ]

  -- The row that is returned is the one that is found in the new table.
  find-ensure :
      (p : A → Bool) (x : A) (xs : List A)
      → p x ≡ true
      → find p (ensure p x xs).1 ≡ some (ensure p x xs).0
  unfolding ensure found_or
  find-ensure p x xs h = elim (Option-cases (find p xs)) [
    | inl n ↦ rw (n, found_or) (find-snoc_new p xs x n h)
    | inr (y, e) ↦ rw (e, found_or) e
  ]

  ensure_found :
      (p : A → Bool) (x y : A) (xs : List A) → find p xs ≡ some y → ensure p x xs ≡ (y, xs)
  unfolding ensure found_or
  ensure_found p x y xs e = rw e refl

  -- A row that was made or found once is found again.
  ensure-ensure :
      (p : A → Bool) (x y : A) (xs : List A)
      → p x ≡ true
      → ensure p y (ensure p x xs).1 ≡ ensure p x xs
  ensure-ensure p x y xs h =
      ensure_found p y (ensure p x xs).0 (ensure p x xs).1 (find-ensure p x xs h)

  Exists : (A → Bool) → List A → Type 0
  Exists p xs = is_some (find p xs) ≡ true

  Exists-snoc : (p : A → Bool) (xs : List A) (x : A) → Exists p xs → Exists p (xs ++ x ∷ [])
  unfolding find Exists
  Exists-snoc p [] x h = cc
  Exists-snoc p (y ∷ xs) x h = elim (Bool-cases (p y)) [
    | inl t ↦ rw t refl
    | inr f ↦ rw f (Exists-snoc p xs x (rw f at h))
  ]

  Exists-ensure : (p q : A → Bool) (x : A) (xs : List A) → Exists p xs → Exists p (ensure q x xs).1
  unfolding ensure found_or
  Exists-ensure p q x xs h = elim (Option-cases (find q xs)) [
    | inl n ↦ rw (n, found_or) (Exists-snoc p xs x h)
    | inr (y, e) ↦ rw (e, found_or) h
  ]

  Exists-ensure_self :
      (p : A → Bool) (x : A) (xs : List A) → p x ≡ true → Exists p (ensure p x xs).1
  unfolding Exists
  Exists-ensure_self p x xs h = ap is_some (find-ensure p x xs h)

  module _ {S : Type 0} (has : S → A → Bool) (make : S → A)
      (fits : (s : S) → has s (make s) ≡ true) where
    Exists-ensure_each :
        (p : A → Bool) (ss : List S) (xs : List A)
        → Exists p xs
        → Exists p (ensure_each has make ss xs)
    unfolding ensure_each
    Exists-ensure_each p [] xs h = h
    Exists-ensure_each p (s ∷ ss) xs h =
        Exists-ensure_each p ss (ensure (has s) (make s) xs).1
          (Exists-ensure p (has s) (make s) xs h)

    All-ensure_each :
        (ss : List S) (xs : List A) → All (λ s. Exists (has s) (ensure_each has make ss xs)) ss
    unfolding ensure_each
    All-ensure_each [] xs = tt
    All-ensure_each (s ∷ ss) xs =
        let ys = (ensure (has s) (make s) xs).1 in
        (
          Exists-ensure_each (has s) ss ys (Exists-ensure_self (has s) (make s) xs (fits s)),
          All-ensure_each ss ys,
        )

  ensure-Exists : (p : A → Bool) (x : A) (xs : List A) → Exists p xs → (ensure p x xs).1 ≡ xs
  unfolding Exists
  ensure-Exists p x xs h = elim (Option-cases (find p xs)) [
    | inl n ↦ cc (rw n at h)
    | inr (y, e) ↦ ap (λ r. r.1) (ensure_found p x y xs e)
  ]

  ensure_each_All :
      {S : Type 0} (has : S → A → Bool) (make : S → A) (ss : List S) (xs : List A)
      → All (λ s. Exists (has s) xs) ss
      → ensure_each has make ss xs ≡ xs
  unfolding ensure_each
  ensure_each_All has make [] xs h = refl
  ensure_each_All has make (s ∷ ss) xs (p, h) =
      ap (ensure_each has make ss) (ensure-Exists (has s) (make s) xs p)
      ∙ ensure_each_All has make ss xs h

eq_self : (s : Text) → text_eq s s ≡ true
eq_self s = (text_eq_iff s s).1 refl

modules_again :
    (ids ids' : Ids) (project user : Text) (ms : List Module)
    → ensure_base_modules ids' project user (ensure_base_modules ids project user ms)
      ≡ ensure_base_modules ids project user ms
unfolding ensure_base_modules
modules_again ids ids' project user ms =
    ensure_each_All (is_module project) (new_module ids' project user) base_modules
      (ensure_each (is_module project) (new_module ids project user) base_modules ms)
      (All-ensure_each (is_module project) (new_module ids project user)
        (λ s. rw (eq_self project) (eq_self s.key)) base_modules ms)

settings_again : (ss : List Setting) → ensure_settings (ensure_settings ss) ≡ ensure_settings ss
unfolding ensure_settings
settings_again ss =
    ensure_each_All is_setting (λ s. s) base_settings
      (ensure_each is_setting (λ s. s) base_settings ss)
      (All-ensure_each is_setting (λ s. s) (λ s. eq_self s.key) base_settings ss)

user_again :
    (ids ids' : Ids) (us : List User)
    → ensure_system_user ids' (ensure_system_user ids us).1 ≡ ensure_system_user ids us
unfolding ensure_system_user
user_again ids ids' us =
    ensure-ensure is_system (new_user ids) (new_user ids') us (eq_self (codes "nuttoo-system"))

project_again :
    (ids ids' : Ids) (owner : Text) (ps : List Project)
    → ensure_default_project ids' owner (ensure_default_project ids owner ps).1
      ≡ ensure_default_project ids owner ps
unfolding ensure_default_project
project_again ids ids' owner ps =
    ensure-ensure is_core (new_project ids owner) (new_project ids' owner) ps
      (eq_self (codes "nuttoo-core"))

fill-fill : (ids ids' : Ids) (db : Db) → fill ids' (fill ids db) ≡ fill ids db
unfolding fill
fill-fill ids ids' db =
    let user = (ensure_system_user ids db.users).0 in
    let project = (ensure_default_project ids user.id db.projects).0 in
    rw
      (
        user_again ids ids' db.users,
        project_again ids ids' user.id db.projects,
        modules_again ids ids' project.id user.id db.modules,
        settings_again db.settings,
      )
      refl

-- Seeding again, with other random identifiers and without the reset, changes nothing.
pub seed-seed :
    (force : Bool) (ids ids' : Ids) (db : Db)
    → seed false ids' (seed force ids db) ≡ seed force ids db
unfolding seed destructive_reset
seed-seed force ids ids' db = fill-fill ids ids' (destructive_reset force db)
