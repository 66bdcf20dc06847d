-- ===== src/Api/Forks/Lineage.antt =====
-- The lineage of forks that ForkService.create of apps-api/src/services/fork.service.ts keeps.
use psybot_ai.Base.{
  ◌≡◌, refl, sym, ap, ◌∙◌, subst, Option, none, some, List, [], ◌∷◌, All, if◌then◌else◌, Bool-cases,
  inl, inr,
}
use mathlib.Core.List.{Mem, mem-cons_of_mem}
use psybot_ai.Base.Text.{Text, codes, text_eq, text_eq_iff}
use psybot_ai.Api.Errors.{Thrown, Result, err, ok, http_error, or_other, ◌>>=◌}
use psybot_ai.Api.Forks.{
  Fork, CreateForkInput, ForkDb, or_not_found, same_module, check_parent, required, create,
}

-- The parent that a fork names, if it names one, is a fork of the same module. The empty text names
-- none.
abbrev pub HasParent : List Fork → Text → Option Text → Type 0
HasParent forks module_id none = Unit
HasParent forks module_id (some []) = Unit
HasParent forks module_id (some (c ∷ id)) =
    (p : Fork) × Mem p forks × (p.id ≡ c ∷ id) × (p.module_id ≡ module_id)

abbrev pub IsRooted : List Fork → Fork → Type 0
IsRooted forks f = HasParent forks f.module_id f.parent_fork_id

HasParent-cons :
    (g : Fork) (forks : List Fork) (module_id : Text) (parent : Option Text)
    → HasParent forks module_id parent
    → HasParent (g ∷ forks) module_id parent
HasParent-cons g forks module_id none h = tt
HasParent-cons g forks module_id (some []) h = tt
HasParent-cons g forks module_id (some (c ∷ id)) (p, m, i, e) = (p, mem-cons_of_mem g m, i, e)

IsRooted-cons :
    (g : Fork) (forks fs : List Fork) → All (IsRooted forks) fs → All (IsRooted (g ∷ forks)) fs
IsRooted-cons g forks [] h = tt
IsRooted-cons g forks (f ∷ fs) (p, h) =
    (HasParent-cons g forks f.module_id f.parent_fork_id p, IsRooted-cons g forks fs h)

err-ok : {A : Type 0} {e : Thrown} {a : A} → err e ≡ ok a → ⊥
err-ok h = cc

-- The two halves of a chain that ends well.
bind_ok :
    {A B : Type 0} (r : Result A) (f : A → Result B) (b : B)
    → (r >>= f) ≡ ok b
    → (a : A) × (r ≡ ok a) × (f a ≡ ok b)
bind_ok (err e) f b h = absurd (err-ok h)
bind_ok (ok a) f b h = (a, refl, h)

or_other-ok : {A : Type 0} (o : Option A) (a : A) → or_other o ≡ ok a → o ≡ some a
or_other-ok none a h = absurd (err-ok h)
or_other-ok (some b) a h = cc

or_not_found-ok :
    {A : Type 0} (what : Text) (o : Option A) (a : A) → or_not_found what o ≡ ok a → o ≡ some a
unfolding http_error
or_not_found-ok what none a h = absurd (err-ok h)
or_not_found-ok what (some b) a h = cc

-- `forks` lists the rows of a database. A row that is found is among them, and a new row is added
-- with the module and the parent that it was asked for.
module _ {W : Type 0} (db : ForkDb W) (forks : W → List Fork)
    (find_law : (id : Text) (w : W) (f : Fork)
      → db.find_fork id w ≡ some (some f)
      → Mem f (forks w) × (f.id ≡ id))
    (create_law : (input : CreateForkInput) (w next : W) (f : Fork)
      → db.create_fork input w ≡ some (f, next)
      → (forks next ≡ f ∷ forks w)
        × (f.module_id ≡ input.module_id)
        × (f.parent_fork_id ≡ input.parent_fork_id)) where
  same_module-ok :
      (module_id : Text) (p : Fork) (u : Unit)
      → same_module db module_id p ≡ ok u
      → p.module_id ≡ module_id
  unfolding http_error
  same_module-ok module_id p u h = elim (Bool-cases (text_eq p.module_id module_id)) [
    | inl e ↦ (text_eq_iff p.module_id module_id).0 e
    | inr e ↦ absurd (
        err-ok (
          sym (
            ap
              (λ b.
                if b
                then ok tt
                else http_error 400 (codes "VALIDATION_ERROR")
                    (codes "parentForkId must belong to the same module"))
              e)
          ∙ h))
  ]

  check_parent-ok :
      (module_id : Text) (parent : Option Text) (w : W) (u : Unit)
      → check_parent db module_id parent w ≡ ok u
      → HasParent (forks w) module_id parent
  check_parent-ok module_id none w u h = tt
  check_parent-ok module_id (some []) w u h = tt
  check_parent-ok module_id (some (c ∷ id)) w u h =
      let (row, e, k) = bind_ok (or_other (db.find_fork (c ∷ id) w)) _ u h in
      let (p, e', k') = bind_ok (or_not_found (codes "Parent fork not found") row) _ u k in
      let found : row ≡ some p = or_not_found-ok (codes "Parent fork not found") row p e' in
      let (m, i) = find_law (c ∷ id) w p (or_other-ok _ row e ∙ ap some found) in
      (p, m, i, same_module-ok module_id p u k')

  -- With a database that finds only rows it holds, and adds a new row with the module and the parent
  -- that were asked for: if every fork that names a parent names a fork of its own module, so it is
  -- after a fork is made, for the new one too.
  pub create-IsRooted :
      (input : CreateForkInput) (w next : W) (f : Fork)
      → All (IsRooted (forks w)) (forks w)
      → create db input w ≡ ok (f, next)
      → All (IsRooted (forks next)) (forks next)
  unfolding create
  create-IsRooted input w next f h e =
      let (id, e1, k1) = bind_ok (required input.module_id) _ (f, next) e in
      let (row, e2, k2) = bind_ok (or_other (db.find_module id w)) _ (f, next) k1 in
      let (m, e3, k3) = bind_ok (or_not_found (codes "Module not found") row) _ (f, next) k2 in
      let (u, e4, k4) =
        bind_ok (check_parent db input.module_id input.parent_fork_id w) _ (f, next) k3 in
      let (rows, same, parent) = create_law input w next f (or_other-ok _ (f, next) k4) in
      let rooted : HasParent (forks w) f.module_id f.parent_fork_id =
        subst (λ p. HasParent (forks w) p f.parent_fork_id) (sym same)
          (subst (HasParent (forks w) input.module_id) (sym parent)
            (check_parent-ok input.module_id input.parent_fork_id w u e4)) in
      subst (λ fs. All (IsRooted fs) fs) (sym rows)
        (
          HasParent-cons f (forks w) f.module_id f.parent_fork_id rooted,
          IsRooted-cons f (forks w) (forks w) h,
        )
