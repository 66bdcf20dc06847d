-- ===== src/Scripts/ExportIdls/Copies.antt =====
-- What scripts/solana/export-idls.ts copies, and what it leaves alone.
use psybot_ai.Base.{
  Bool, true, false, ◌≡◌, refl, sym, ap, ◌∙◌, subst, not, Option, none, some, is_some, List, [],
  ◌∷◌, map, All, Bool-cases, inl, inr,
}
use psybot_ai.Base.Text.{Text, text_eq, text_eq_iff}
use psybot_ai.Scripts.Args.{ok, ok_eq, exit-ok, guard, >>=-eq-ok}
use psybot_ai.Scripts.GenDev.{Files, write}
use psybot_ai.Scripts.GenProd.{is_nil}
use psybot_ai.Scripts.ExportIdls.CommandLine.{Args, parse_args}
use psybot_ai.Scripts.ExportIdls.Index.{IdlMeta}
use psybot_ai.Scripts.ExportIdls.Run.{
  Machine, read_json, copy_file, export_each, cleaned, sources, out_dir_of, indexed, main,
}

guarded_false : (b : Bool) → guard (not b) 1 ≡ ok tt → b ≡ false
guarded_false false h = refl
guarded_false true h = absurd (exit-ok h)

write_at : (path content : Text) (fs : Files) → write path content fs path ≡ some content
write_at path content fs = rw ((text_eq_iff path path).1 refl) refl

read_json-some :
    (m : Machine) (o : Option Text) (raw : Text)
    → read_json m o ≡ ok raw
    → (o ≡ some raw) × (m.valid_json raw ≡ true)
unfolding read_json
read_json-some m none raw e = absurd (exit-ok e)
read_json-some m (some s) raw e = elim (Bool-cases (m.valid_json s)) [
  | inl t ↦ let same = ok_eq (rw t at e) in (ap some same, ap m.valid_json (sym same) ∙ t)
  | inr f ↦ absurd (exit-ok (rw f at e))
]

module _ (raw dst : Text) (fs made : Files) (e : copy_file raw dst false fs ≡ ok made) where
  -- Without `--force` a file is made only where there is none.
  copy_file-new : (is_some (fs dst) ≡ false) × (made ≡ write dst raw fs)
  unfolding copy_file
  copy_file-new = elim (Bool-cases (is_some (fs dst))) [
    | inl t ↦ absurd (exit-ok (rw t at e))
    | inr f ↦ (f, sym (ok_eq (rw f at e)))
  ]

  copy_file-keep : (q v : Text) → fs q ≡ some v → made q ≡ some v
  copy_file-keep q v h = elim (Bool-cases (text_eq dst q)) [
    | inl t ↦ cc (
        ap is_some (sym h)
        ∙ ap (λ p. is_some (fs p)) (sym ((text_eq_iff dst q).0 t))
        ∙ copy_file-new.0)
    | inr f ↦ ap (λ (g : Files). g q) copy_file-new.1 ∙ rw f h
  ]

-- A file and its copy hold the same JSON.
abbrev pub IsCopied : Machine → Text → Files → Text → Type 0
IsCopied m out fs path =
    (raw : Text) × (fs path ≡ some raw)
    × (fs (m.paths.join out (m.basename path)) ≡ some raw)
    × (m.valid_json raw ≡ true)

-- The outcome of the loop.
abbrev Exports : Machine → Text → List Text → Text → Text → List IdlMeta × Files → Type 0
Exports m out files q v (metas, fs) =
    (map (λ (i : IdlMeta). i.idl_file) metas ≡ map m.basename files)
    × All (IsCopied m out fs) files
    × (fs q ≡ some v)

export_each-Exports :
    (m : Machine) (out : Text) (files : List Text) (fs : Files) (done : List IdlMeta × Files)
    (q v : Text)
    → export_each m false out files fs ≡ ok done
    → fs q ≡ some v
    → Exports m out files q v done
unfolding export_each
export_each-Exports m out [] fs done q v e h = subst (Exports m out [] q v) (ok_eq e) (refl, tt, h)
export_each-Exports m out (path ∷ files) fs done q v e h =
    let dst = m.paths.join out (m.basename path) in
    let (raw, r, e1) = >>=-eq-ok (read_json m (fs path)) _ e in
    let (made, c, e2) = >>=-eq-ok (copy_file raw dst false fs) _ e1 in
    let (rest, l, e3) = >>=-eq-ok (export_each m false out files made) _ e2 in
    let (here, valid) = read_json-some m (fs path) raw r in
    let new = copy_file-new raw dst fs made c in
    let kept = copy_file-keep raw dst fs made c in
    let made_is = ap (λ (g : Files). g dst) new.1 ∙ write_at dst raw fs in
    let (names, copied, last) = export_each-Exports m out files made rest q v l (kept q v h) in
    let (_, _, source) =
      export_each-Exports m out files made rest path raw l (kept path raw here) in
    let (_, _, copy) = export_each-Exports m out files made rest dst raw l made_is in
    subst (Exports m out (path ∷ files) q v) (ok_eq e3)
      (ap (λ ns. m.basename path ∷ ns) names, ((raw, source, copy, valid), copied), last)

-- A run without `--force` that succeeds found files to export; each is valid JSON and stands with
-- the same text in the output directory before the index is written, and what is reported and put
-- in the index has their names in their order. A file that was there after `--clean` still holds
-- what it held, up to the index.
pub main-Exports :
    (m : Machine) (argv : List Text) (args : Args) (fs fs' : Files) (metas : List IdlMeta)
    (q v : Text)
    → parse_args argv ≡ ok args
    → args.force ≡ false
    → main m argv fs ≡ ok (metas, fs')
    → cleaned m args fs q ≡ some v
    → let files = sources m args (cleaned m args fs) in
      (is_nil files ≡ false)
      × (map (λ (i : IdlMeta). i.idl_file) metas ≡ map m.basename files)
      × ((copies : Files) × (fs' ≡ indexed m args (metas, copies))
          × All (IsCopied m (out_dir_of m args) copies) files
          × (copies q ≡ some v))
unfolding main
main-Exports m argv args fs fs' metas q v p f e h =
    let start = cleaned m args fs in
    let files = sources m args start in
    let out = out_dir_of m args in
    let (_, g, e1) = >>=-eq-ok (guard (not (is_nil files)) 1) _ (rw p at e) in
    let (done, l, e2) = >>=-eq-ok (export_each m args.force out files start) _ e1 in
    let l' = ap (λ b. export_each m b out files start) (sym f) ∙ l in
    let (names, copied, kept) = export_each-Exports m out files start done q v l' h in
    let same = ok_eq e2 in
    let written =
      sym (ap (λ (r : List IdlMeta × Files). r.1) same)
      ∙ ap (λ (ms : List IdlMeta). indexed m args (ms, done.1))
          (ap (λ (r : List IdlMeta × Files). r.0) same) in
    (
      guarded_false (is_nil files) g,
      ap (λ (r : List IdlMeta × Files). map (λ (i : IdlMeta). i.idl_file) r.0) (sym same) ∙ names,
      (done.1, written, copied, kept),
    )
