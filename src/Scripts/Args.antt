-- ===== src/Scripts/Args.antt =====
-- The loop over the command line that the scripts share, and how a script ends early.
use psybot_ai.Base.{
  ℕ, Bool, true, false, ◌≡◌, refl, subst, inl, inr, Bool-cases, List, [], ◌∷◌, if◌then◌else◌, ◌==◌,
  reverse,
}
use psybot_ai.Base.Text.{Text, trim}

-- `process.exit` ends a script with a code: that of `die`, or 0 behind the help text.
pub data Exit (A : Type 0) : Type 0 where
  ok : A → Exit A
  exit : ℕ → Exit A

infixl 5 ◌>>=◌ ◌>>◌
abbrev pub ◌>>=◌ : {A B : Type 0} → Exit A → (A → Exit B) → Exit B
exit code >>= next = exit code
ok x >>= next = next x

abbrev pub guard : Bool → ℕ → Exit (Unit {0})
guard false code = exit code
guard true code = ok tt

abbrev pub ◌>>◌ : {B : Type 0} → Exit (Unit {0}) → Exit B → Exit B
step >> next = step >>= λ _. next

pub ok_eq : {A : Type 0} {a b : A} → ok a ≡ ok b → a ≡ b
ok_eq e = cc

pub exit-ok : {A : Type 0} {n : ℕ} {a : A} → exit n ≡ ok a → ⊥
exit-ok e = cc

-- A chain that ends well went on behind its first step.
pub >>=-eq-ok :
    {A B : Type 0} (step : Exit A) (next : A → Exit B) {end : B}
    → (step >>= next) ≡ ok end
    → (x : A) × (step ≡ ok x) × (next x ≡ ok end)
>>=-eq-ok (exit code) next e = absurd (exit-ok e)
>>=-eq-ok (ok x) next e = (x, refl, e)

abbrev is_blank : Text → Bool
is_blank [] = true
is_blank (_ ∷ _) = false

-- The options of a script: which take a value, what they do with it and without it, and what every
-- other argument does.
pub record Options (A : Type 0) : Type 0 where
  pub takes_value : Text → Bool
  pub with_value : Text → Text → A → Exit A
  pub without_value : Text → A → Exit A
  pub argument : Text → A → Exit A

-- `for (let i = 0; i < argv.length; i++)`, where `argv[++i]` is the value of an option.
unfoldable pub parse_all : {A : Type 0} → Options A → A → List Text → Exit A
parse_all o args [] = ok args
parse_all o args (a ∷ []) = if o.takes_value a then o.without_value a args else o.argument a args
parse_all o args (a ∷ v ∷ rest) =
    let taken = (o.with_value a v args >>= λ r. parse_all o r rest) in
    let plain = (o.argument a args >>= λ r. parse_all o r (v ∷ rest)) in
    if o.takes_value a then taken else plain

-- What holds at first, and is kept by every option, holds of the arguments that were read.
pub parse_all_inv :
    {A : Type 0} (o : Options A) (P : A → Type 0)
    → ((a v : Text) (x y : A) → o.with_value a v x ≡ ok y → P x → P y)
    → ((a : Text) (x y : A) → o.without_value a x ≡ ok y → P x → P y)
    → ((a : Text) (x y : A) → o.argument a x ≡ ok y → P x → P y)
    → (argv : List Text) (x y : A) → parse_all o x argv ≡ ok y
    → P x
    → P y
unfolding parse_all
parse_all_inv o P f g h [] x y e p = subst P (ok_eq e) p
parse_all_inv o P f g h (a ∷ []) x y e p = elim (Bool-cases (o.takes_value a)) [
  | inl t ↦ g a x y (rw t at e) p
  | inr t ↦ h a x y (rw t at e) p
]
parse_all_inv o P f g h (a ∷ v ∷ rest) x y e p = elim (Bool-cases (o.takes_value a)) [
  | inl t ↦
      let (z, m, n) = >>=-eq-ok (o.with_value a v x) (λ r. parse_all o r rest) (rw t at e) in
      parse_all_inv o P f g h rest z y n (f a v x z m p)
  | inr t ↦
      let (z, m, n) = >>=-eq-ok (o.argument a x) (λ r. parse_all o r (v ∷ rest)) (rw t at e) in
      parse_all_inv o P f g h (v ∷ rest) z y n (h a x z m p)
]

-- `s.split(c)` for one unit `c`; the part so far is reversed.
unfoldable pub split_on : ℕ → Text → Text → List Text
split_on c acc [] = reverse acc ∷ []
split_on c acc (x ∷ s) =
    let next = split_on c [] s in
    let on = split_on c (x ∷ acc) s in if x == c then reverse acc ∷ next else on

-- `.map((s) => s.trim()).filter(Boolean)`
unfoldable pub trimmed : List Text → List Text
unfolding trim
trimmed [] = []
trimmed (s ∷ ss) = let rest = trimmed ss in let t = trim s in if is_blank t then rest else t ∷ rest

-- A list with commas.
unfoldable pub comma_list : Text → List Text
unfolding trimmed split_on
comma_list v = trimmed (split_on b',' [] v)
