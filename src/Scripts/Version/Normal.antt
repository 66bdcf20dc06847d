-- ===== src/Scripts/Version/Normal.antt =====
-- The base version of scripts/ci/version.ts, read back from the version that it computes.
use psybot_ai.Base.{
  ℕ, Bool, true, false, ◌≡◌, refl, sym, ap, ◌∙◌, subst, ◌||◌, not, Option, none, some, List, [],
  ◌∷◌, ◌++◌, append_assoc, map, if◌then◌else◌, All, Bool-cases, arith, inl, inr,
}
use psybot_ai.Base.Text.{Text, codes}
use psybot_ai.Scripts.Args.{ok, ok_eq, exit-ok, guard, >>=-eq-ok}
use psybot_ai.Scripts.EnvFile.{is_empty, any, Kv}
use psybot_ai.Scripts.Version.{
  Tag, release, dev, ci, Args, is_digit, is_number, first_number, build_number, git_sha_short,
  digits, ◌>>?◌, group, not_empty, dot, is_line_end, dotted, match_base, or_exit, normalize_base,
  tag_text, is_release, or_nonempty, compute_version, VersionInfo, Machine, value, build_keys,
  given_base, version_info, main, parse_args,
}

abbrev IsDigit : ℕ → Type 0
IsDigit c = is_digit c ≡ true

-- Digits, at least one.
abbrev IsNumber : Text → Type 0
IsNumber [] = ⊥
IsNumber (c ∷ s) = All IsDigit (c ∷ s)

abbrev IsStop : Text → Type 0
IsStop [] = Unit
IsStop (c ∷ s) = is_digit c ≡ false

abbrev pub IsLine : Text → Type 0
IsLine s = any is_line_end s ≡ false

digits-append : (a rest : Text) → All IsDigit a → IsStop rest → digits (a ++ rest) ≡ (a, rest)
unfolding digits
digits-append [] [] h s = refl
digits-append [] (c ∷ rest) h s = rw s refl
digits-append (c ∷ a) rest (p, h) s = rw (digits-append a rest h s, p) refl

group-append : (a rest : Text) → IsNumber a → IsStop rest → group (a ++ rest) ≡ some (a, rest)
unfolding group
group-append [] rest h s = absurd h
group-append (c ∷ a) rest h s = rw (digits-append (c ∷ a) rest h s) refl

digits-All : (s : Text) → All IsDigit (digits s).0
unfolding digits
digits-All [] = tt
digits-All (c ∷ s) = elim (Bool-cases (is_digit c)) [
  | inl t ↦ rw t (t, digits-All s)
  | inr f ↦ rw f tt
]

pair_eq : {a b c d : Text} → ◌≡◌ {A = Option (Text × Text)} (some (a, b)) (some (c, d)) → a ≡ c
pair_eq e = cc

some_eq : {a b : Text} → some a ≡ some b → a ≡ b
some_eq e = cc

not_empty-IsNumber :
    (d : Text) (r : Text) (x : Text × Text)
    → All IsDigit d
    → not_empty (d, r) ≡ some x
    → IsNumber x.0
not_empty-IsNumber [] r x h e = cc
not_empty-IsNumber (c ∷ d) r (y, z) h e = subst IsNumber (pair_eq e) h

group-IsNumber : (s : Text) (x : Text × Text) → group s ≡ some x → IsNumber x.0
unfolding group
group-IsNumber s x e = not_empty-IsNumber (digits s).0 (digits s).1 x (digits-All s) e

dot_self : (s : Text) → dot (b'.' ∷ s) ≡ some s
unfolding dot
dot_self s = refl

dot-IsStop : (s : Text) → IsStop (b'.' ∷ s)
unfolding is_digit
dot-IsStop s = refl

match_base-dotted :
    (a b c rest : Text)
    → IsNumber a
    → IsNumber b
    → IsNumber c
    → IsStop rest
    → IsLine rest
    → match_base (dotted a b (c ++ rest)) ≡ some (dotted a b c)
unfolding match_base
match_base-dotted a b c rest ha hb hc s l =
    rw
      (
        group-append a (b'.' ∷ (b ++ (b'.' ∷ (c ++ rest)))) ha
            (dot-IsStop (b ++ (b'.' ∷ (c ++ rest)))),
        dot_self (b ++ (b'.' ∷ (c ++ rest))),
        group-append b (b'.' ∷ (c ++ rest)) hb (dot-IsStop (c ++ rest)),
        dot_self (c ++ rest),
        group-append c rest hc s,
        l,
      )
      refl

dotted-append : (a b c rest : Text) → dotted a b c ++ rest ≡ dotted a b (c ++ rest)
dotted-append a b c rest =
    append_assoc a (b'.' ∷ (b ++ (b'.' ∷ c))) rest
    ∙ ap (λ r. a ++ (b'.' ∷ r)) (append_assoc b (b'.' ∷ c) rest)

-- Three numbers with dots between them.
record IsVersion (v : Text) : Type 0 where
  major : Text
  minor : Text
  patch : Text
  is_dotted : v ≡ dotted major minor patch
  major_number : IsNumber major
  minor_number : IsNumber minor
  patch_number : IsNumber patch

>>?-eq-some :
    {A B : Type 0} (o : Option A) (f : A → Option B) {b : B}
    → (o >>? f) ≡ some b
    → (a : A) × (o ≡ some a) × (f a ≡ some b)
>>?-eq-some none f e = cc
>>?-eq-some (some a) f e = (a, refl, e)

last_part :
    (a b : Text) (z : Text × Text) (v : Text) (t : Bool)
    → (if t then none else some (dotted a b z.0)) ≡ some v
    → v ≡ dotted a b z.0
last_part a b z v true e = cc
last_part a b z v false e = sym (some_eq e)

match_base-IsVersion : (v base : Text) → match_base v ≡ some base → IsVersion base
unfolding match_base
match_base-IsVersion v base e =
    let (x, p, e1) = >>?-eq-some (group v) _ e in
    let (s, _, e2) = >>?-eq-some (dot x.1) _ e1 in
    let (y, q, e3) = >>?-eq-some (group s) _ e2 in
    let (t, _, e4) = >>?-eq-some (dot y.1) _ e3 in
    let (z, r, e5) = >>?-eq-some (group t) _ e4 in
    record {
      major = x.0;
      minor = y.0;
      patch = z.0;
      is_dotted = last_part x.0 y.0 z base (any is_line_end z.1) e5;
      major_number = group-IsNumber v x p;
      minor_number = group-IsNumber s y q;
      patch_number = group-IsNumber t z r;
    }

match_base-append :
    (base rest : Text)
    → IsVersion base
    → IsStop rest
    → IsLine rest
    → match_base (base ++ rest) ≡ some base
match_base-append base rest v s l =
    ap (λ b. match_base (b ++ rest)) v.is_dotted
    ∙ ap match_base (dotted-append v.major v.minor v.patch rest)
    ∙ match_base-dotted v.major v.minor v.patch rest v.major_number v.minor_number v.patch_number s
        l
    ∙ ap some (sym v.is_dotted)

any-append :
    (p : ℕ → Bool) (s t : Text) → any p s ≡ false → any p t ≡ false → any p (s ++ t) ≡ false
unfolding any
any-append p [] t h k = k
any-append p (c ∷ s) t h k = ground (arith, any-append p s t)

-- What stands behind the base.
suffix : Tag → Text → Text → Text
suffix tag sha build =
    let meta = if is_empty sha then [] else codes "+g" ++ sha in
    if is_release tag
    then meta
    else b'-' ∷ (tag_text tag ++ (b'.' ∷ (or_nonempty build (codes "0") ++ meta)))

compute_version-suffix :
    (base : Text) (tag : Tag) (sha build : Text)
    → compute_version base tag sha build ≡ base ++ suffix tag sha build
unfolding compute_version suffix
compute_version-suffix base tag sha build = elim (Bool-cases (is_release tag)) [
  | inl t ↦ rw t refl
  | inr f ↦ rw f refl
]

suffix-IsStop : (tag : Tag) (sha build : Text) → IsStop (suffix tag sha build)
unfolding suffix is_digit
suffix-IsStop release [] build = tt
suffix-IsStop release (c ∷ sha) build = refl
suffix-IsStop dev sha build = refl
suffix-IsStop ci sha build = refl

meta-IsLine : (sha : Text) → IsLine sha → IsLine (if is_empty sha then [] else codes "+g" ++ sha)
unfolding any is_line_end
meta-IsLine [] h = refl
meta-IsLine (c ∷ sha) h = h

build-IsLine : (build : Text) → IsLine build → IsLine (or_nonempty build (codes "0"))
unfolding any is_line_end
build-IsLine [] h = refl
build-IsLine (c ∷ build) h = h

suffix-IsLine :
    (tag : Tag) (sha build : Text) → IsLine sha → IsLine build → IsLine (suffix tag sha build)
unfolding suffix any is_line_end
suffix-IsLine release sha build h k = meta-IsLine sha h
suffix-IsLine dev sha build h k =
    any-append is_line_end (or_nonempty build (codes "0"))
      (if is_empty sha then [] else codes "+g" ++ sha) (build-IsLine build k) (meta-IsLine sha h)
suffix-IsLine ci sha build h k =
    any-append is_line_end (or_nonempty build (codes "0"))
      (if is_empty sha then [] else codes "+g" ++ sha) (build-IsLine build k) (meta-IsLine sha h)

digit-IsLine : (c : ℕ) → is_digit c ≡ true → is_line_end c ≡ false
unfolding is_digit is_line_end
digit-IsLine c h = ground arith

digits-IsLine : (v : Text) → any (λ c. not (is_digit c)) v ≡ false → IsLine v
unfolding any
digits-IsLine [] h = refl
digits-IsLine (c ∷ v) h = ground (arith, digits-IsLine v, digit-IsLine c)

is_number-IsLine : (v : Text) → is_number v ≡ true → IsLine v
unfolding is_number
is_number-IsLine v h = digits-IsLine v (ground arith)

nil-IsLine : IsLine []
unfolding any
nil-IsLine = refl

first_number-IsLine : (vs : List Text) → IsLine (first_number vs)
unfolding first_number
first_number-IsLine [] = nil-IsLine
first_number-IsLine (v ∷ vs) = elim (Bool-cases (is_number v)) [
  | inl t ↦ rw t (is_number-IsLine v t)
  | inr f ↦ rw f (first_number-IsLine vs)
]

build_number-IsLine : (env : Kv) → IsLine (build_number env)
unfolding build_number
build_number-IsLine env = first_number-IsLine (map (λ k. value k env) build_keys)

or_exit-ok : (o : Option Text) (v : Text) → or_exit o ≡ ok v → o ≡ some v
or_exit-ok none v e = absurd (exit-ok e)
or_exit-ok (some w) v e = ap some (ok_eq e)

normalize_base-append :
    (v base : Text) (tag : Tag) (sha build : Text)
    → normalize_base v ≡ ok base
    → IsLine sha
    → IsLine build
    → normalize_base (compute_version base tag sha build) ≡ ok base
unfolding normalize_base
normalize_base-append v base tag sha build e h k =
    let version = match_base-IsVersion v base (or_exit-ok (match_base v) base e) in
    ap (λ w. or_exit (match_base w)) (compute_version-suffix base tag sha build)
    ∙ ap or_exit (
        match_base-append base (suffix tag sha build) version (suffix-IsStop tag sha build)
          (suffix-IsLine tag sha build h k))

version_info-normalize_base :
    (m : Machine) (args : Args) (info : VersionInfo)
    → version_info m args ≡ ok info
    → IsLine info.sha
    → normalize_base info.version ≡ ok info.base
unfolding version_info
version_info-normalize_base m args info e h =
    let sha = git_sha_short m.env m.git in
    let build = build_number m.env in
    let (v, _, e1) = >>=-eq-ok (given_base m args.base) _ e in
    let (base, n, e2) = >>=-eq-ok (normalize_base v) _ e1 in
    let (_, _, e3) = >>=-eq-ok (guard (not args.strict || not (is_empty sha)) 1) _ e2 in
    let i = ok_eq e3 in
    ap (λ (r : VersionInfo). normalize_base r.version) (sym i)
    ∙ normalize_base-append v base args.tag sha build n
        (subst (λ (r : VersionInfo). IsLine r.sha) (sym i) h) (build_number-IsLine m.env)
    ∙ ap (λ (r : VersionInfo). ok r.base) i

same_info :
    {i j : VersionInfo} {f g : List Text} → ◌≡◌ {A = VersionInfo × List Text} (i, f) (j, g) → i ≡ j
same_info e = ap (λ p. p.0) e

-- The version that is printed and written, given to the script as the base of another version, gives
-- the base that it was computed from, for every tag and build number; if the name of the commit
-- holds no end of a line.
pub main-normalize_base :
    (m : Machine) (argv : List Text) (info : VersionInfo) (files : List Text)
    → main m argv ≡ ok (info, files)
    → IsLine info.sha
    → normalize_base info.version ≡ ok info.base
unfolding main
main-normalize_base m argv info files e h =
    let (args, _, e1) = >>=-eq-ok (parse_args argv) _ e in
    let (i, p, e2) = >>=-eq-ok (version_info m args) _ e1 in
    version_info-normalize_base m args info (p ∙ ap ok (same_info (ok_eq e2))) h
