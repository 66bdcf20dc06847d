-- ===== src/Scripts/GenDev/Merge.antt =====
-- What a new run of scripts/env/gen-dev-env.ts keeps of the file that is there.
use psybot_ai.Base.{
  Bool, true, false, ◌≡◌, refl, ap, ◌∙◌, subst, inl, inr, ◌&&◌, not, Option, none, some, List, [],
  ◌∷◌, ◌++◌, or_default, or_else, is_some, All, Bool-cases,
}
use psybot_ai.Base.Text.{Text, codes, text_eq, text_eq_iff}
use psybot_ai.Scripts.Args.{ok, ok_eq, exit-ok, >>=-eq-ok, parse_all_inv}
use psybot_ai.Scripts.Root.{find_repo_root}
use psybot_ai.Scripts.EnvFile.{Kv, get, is_empty, split_eq, parse_env_file, serialize_env_file}
use psybot_ai.Scripts.EnvFile.Lookup.{IsUnique, get-set_ne, get-merge_env, parse_env_file-IsUnique}
use psybot_ai.Scripts.EnvFile.RoundTrip.{IsHeader, IsEntries, get-parse_env_file}
use psybot_ai.Scripts.EnvArgs.{
  set_override, other_argument, set_override-IsUnique, other_argument-IsUnique,
}
use psybot_ai.Scripts.GenDev.{
  Args, no_args, options, with_value, argument, parse_args, Machine, Files, build_defaults,
  set_empty, apply_secrets, set_url, merge_existing, final_env, header, preferred_order, out_file,
  existing_env, write, generate, main,
}

-- Overrides with no key twice; kept by every option.
HasUnique : Args → Type 0
HasUnique args = IsUnique args.overrides

with_value-HasUnique :
    (a v : Text) (x y : Args) → with_value a v x ≡ ok y → HasUnique x → HasUnique y
unfolding with_value HasUnique
with_value-HasUnique a v x y e u = elim (Bool-cases (is_empty v)) [
  | inl t ↦ absurd (exit-ok (rw t at e))
  | inr t ↦ elim (Bool-cases (text_eq a (codes "--out"))) [
    | inl o ↦ subst HasUnique (ok_eq (rw (t, o) at e)) u
    | inr o ↦
        let (kv, s, r) =
          >>=-eq-ok (set_override (split_eq v) x.overrides) (λ k. ok (record x { overrides = k }))
            (rw (t, o) at e) in
        subst HasUnique (ok_eq r) (set_override-IsUnique (split_eq v) x.overrides kv s u)
  ]
]

argument-HasUnique : (a : Text) (x y : Args) → argument a x ≡ ok y → HasUnique x → HasUnique y
unfolding argument HasUnique
argument-HasUnique a x y e u = elim (Bool-cases (text_eq a (codes "--force"))) [
  | inl t ↦ subst HasUnique (ok_eq (rw t at e)) u
  | inr f ↦ elim (Bool-cases (text_eq a (codes "--merge"))) [
    | inl t ↦ subst HasUnique (ok_eq (rw (f, t) at e)) u
    | inr g ↦ elim (Bool-cases (text_eq a (codes "--print"))) [
      | inl t ↦ subst HasUnique (ok_eq (rw (f, g, t) at e)) u
      | inr p ↦ elim (Bool-cases (text_eq a (codes "--dry-run"))) [
        | inl t ↦ subst HasUnique (ok_eq (rw (f, g, p, t) at e)) u
        | inr d ↦ elim (Bool-cases (text_eq a (codes "--no-secrets"))) [
          | inl t ↦ subst HasUnique (ok_eq (rw (f, g, p, d, t) at e)) u
          | inr n ↦
              let (kv, s, r) =
                >>=-eq-ok (other_argument a x.overrides) (λ k. ok (record x { overrides = k }))
                  (rw (f, g, p, d, n) at e) in
              subst HasUnique (ok_eq r) (other_argument-IsUnique a x.overrides kv s u)
        ]
      ]
    ]
  ]
]

parse_args-IsUnique :
    (argv : List Text) (args : Args) → parse_args argv ≡ ok args → IsUnique args.overrides
unfolding parse_args HasUnique
parse_args-IsUnique argv args e =
    parse_all_inv options HasUnique with_value-HasUnique (λ a x y r u. absurd (exit-ok r))
      argument-HasUnique argv no_args args e tt

-- The keys that `main` computes after the overrides, or fills with secrets.
abbrev pub computed : List Text
computed =
    codes "JWT_SECRET"
    ∷ codes "API_KEY_SALT"
    ∷ codes "VITE_API_BASE_URL"
    ∷ codes "CORS_ORIGIN"
    ∷ codes "NUTTOO_MACHINE"
    ∷ []

abbrev pub IsOther : List Text → Text → Type 0
IsOther ks j = All (λ k. text_eq k j ≡ false) ks

get-set_empty_ne :
    (k j v : Text) (kv : Kv) → text_eq k j ≡ false → get j (set_empty k v kv) ≡ get j kv
unfolding set_empty
get-set_empty_ne k j v kv h = elim (Bool-cases (is_empty (or_default (get k kv) []))) [
  | inl t ↦ rw t (get-set_ne k j v kv h)
  | inr t ↦ rw t refl
]

get-apply_secrets :
    (m : Machine) (b : Bool) (kv : Kv) (j : Text)
    → text_eq (codes "JWT_SECRET") j ≡ false
    → text_eq (codes "API_KEY_SALT") j ≡ false
    → get j (apply_secrets m b kv) ≡ get j kv
unfolding apply_secrets
get-apply_secrets m true kv j h k =
    get-set_ne (codes "API_KEY_SALT") j _ _ k ∙ get-set_ne (codes "JWT_SECRET") j _ kv h
get-apply_secrets m false kv j h k =
    get-set_empty_ne (codes "API_KEY_SALT") j _ _ k ∙ get-set_empty_ne (codes "JWT_SECRET") j _ kv h

get-set_url_ne :
    (k port : Text) (overrides existing kv : Kv) (j : Text)
    → text_eq k j ≡ false
    → get j (set_url k port overrides existing kv) ≡ get j kv
unfolding set_url
get-set_url_ne k port overrides existing kv j h =
    elim (Bool-cases (not (is_some (get k overrides)) && not (is_some (get k existing)))) [
      | inl t ↦ rw t (get-set_ne k j (codes "http://localhost:" ++ port) kv h)
      | inr t ↦ rw t refl
    ]

get-merge_existing :
    (j : Text) (b : Bool) (existing kv : Kv)
    → IsUnique existing
    → b ≡ true
    → get j (merge_existing b existing kv) ≡ or_else (get j existing) (get j kv)
get-merge_existing j true existing kv u e = get-merge_env j kv existing u
get-merge_existing j false existing kv u e = cc

-- Overrides come before the file that is there, and this before the defaults.
abbrev pub layered : Machine → Args → Text → Kv → Text → Option Text
layered m args root existing j =
    or_else (get j args.overrides) (or_else (get j existing) (get j (build_defaults m.paths root)))

get-final_env :
    (m : Machine) (args : Args) (root : Text) (existing : Kv) (j : Text)
    → IsUnique args.overrides
    → IsUnique existing
    → args.merge ≡ true
    → IsOther computed j
    → get j (final_env m args root existing) ≡ layered m args root existing j
unfolding final_env
get-final_env m args root existing j u w e (a, (b, (c, (d, (f, _))))) =
    get-set_ne (codes "NUTTOO_MACHINE") j _ _ f
    ∙ get-set_url_ne (codes "CORS_ORIGIN") _ args.overrides existing _ j d
    ∙ get-set_url_ne (codes "VITE_API_BASE_URL") _ args.overrides existing _ j c
    ∙ get-merge_env j _ args.overrides u
    ∙ ap (or_else (get j args.overrides)) (
        get-apply_secrets m args.no_secrets _ j a b
        ∙ get-merge_existing j args.merge existing _ w e)

existing_env-IsUnique : (b : Bool) (file : Option Text) → IsUnique (existing_env b file)
unfolding existing_env
existing_env-IsUnique b none = tt
existing_env-IsUnique true (some raw) = parse_env_file-IsUnique raw
existing_env-IsUnique false (some raw) = tt

-- The root that a run works in, the entries that it finds, and those that it writes.
abbrev pub root_of : Machine → Text
root_of m = find_repo_root m.paths m.cwd

abbrev pub found : Machine → Args → Files → Kv
found m args fs = existing_env args.merge (fs (out_file m args))

write_self : (out content : Text) (fs : Files) → write out content fs out ≡ some content
write_self out content fs = rw ((text_eq_iff out out).1 refl) refl

generate-write :
    (m : Machine) (args : Args) (fs : Files)
    → args.dry_run ≡ false
    → generate m args fs
      ≡ write
          (out_file m args)
          (serialize_env_file m.not_after
            (header m.date)
            preferred_order
            (final_env m args (root_of m) (found m args fs)))
          fs
unfolding generate
generate-write m args fs h = rw h refl

main-generate :
    (m : Machine) (argv : List Text) (args : Args) (fs : Files)
    → parse_args argv ≡ ok args
    → main m argv fs ≡ ok (generate m args fs)
unfolding main
main-generate m argv args fs e = rw e refl

existing_env-some : (content : Text) → existing_env true (some content) ≡ parse_env_file content
unfolding existing_env
existing_env-some content = refl

-- A merging run that is no dry run writes one file and no other. Read again by the next run, it
-- holds under every key but the secrets, the two addresses and the machine's name what the last
-- override gives, or else what the file held before, or else the default; if the lines of the
-- header are comments, and the keys and values written are such as can be read back.
pub main-layered :
    (m : Machine) (argv : List Text) (args : Args) (fs : Files) (j : Text)
    → parse_args argv ≡ ok args
    → args.merge ≡ true
    → args.dry_run ≡ false
    → IsOther computed j
    → IsHeader (header m.date)
    → IsEntries (final_env m args (root_of m) (found m args fs))
    → (fs' : Files) × (main m argv fs ≡ ok fs')
      × (get j (existing_env true (fs' (out_file m args)))
          ≡ layered m args (root_of m) (found m args fs) j)
      × (fs'
          ≡ write
              (out_file m args)
              (serialize_env_file m.not_after
                (header m.date)
                preferred_order
                (final_env m args (root_of m) (found m args fs)))
              fs)
main-layered m argv args fs j e g d o hs h =
    let kv = final_env m args (root_of m) (found m args fs) in
    let content = serialize_env_file m.not_after (header m.date) preferred_order kv in
    let out = out_file m args in
    (
      write out content fs,
      main-generate m argv args fs e ∙ ap ok (generate-write m args fs d),
      ap (λ file. get j (existing_env true file)) (write_self out content fs)
          ∙ ap (get j) (existing_env-some content)
          ∙ get-parse_env_file m.not_after (header m.date) preferred_order kv j hs h
          ∙ get-final_env m args (root_of m) (found m args fs) j (parse_args-IsUnique argv args e)
              (existing_env-IsUnique args.merge (fs out)) g o,
      refl,
    )
