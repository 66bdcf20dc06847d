-- ===== src/Scripts/EnvArgs.antt =====
-- The overrides that scripts/env/gen-dev-env.ts and gen-prod-env.ts read from the command line.
use psybot_ai.Base.{Bool-cases, inl, inr, subst, ◌≡◌, Option, none, some, [], ◌∷◌, if◌then◌else◌}
use psybot_ai.Base.Text.{Text, codes, starts_with, trim}
use psybot_ai.Scripts.Args.{Exit, ok, exit, ok_eq, exit-ok}
use psybot_ai.Scripts.EnvFile.{Kv, set, split_eq, is_empty}
use psybot_ai.Scripts.EnvFile.Lookup.{IsUnique, set-IsUnique}

-- `--set`: no `=`, or nothing before it, or only spaces before it, is an error.
unfoldable pub set_override : Option (Text × Text) → Kv → Exit Kv
unfolding set trim
set_override none kv = exit 1
set_override (some ([], v)) kv = exit 1
set_override (some (c ∷ k, v)) kv =
    let key = trim (c ∷ k) in if is_empty key then exit 1 else ok (set key (trim v) kv)

-- A bare `KEY=VALUE`: an empty key is passed over.
unfoldable pub bare_override : Option (Text × Text) → Kv → Exit Kv
unfolding set trim
bare_override none kv = exit 1
bare_override (some (k, v)) kv =
    let key = trim k in if is_empty key then ok kv else ok (set key (trim v) kv)

-- What is no option: a bare override, unless it begins with `--`.
unfoldable pub other_argument : Text → Kv → Exit Kv
unfolding bare_override split_eq starts_with
other_argument a kv = if starts_with a (codes "--") then exit 1 else bare_override (split_eq a) kv

pub set_override-IsUnique :
    (o : Option (Text × Text)) (x y : Kv) → set_override o x ≡ ok y → IsUnique x → IsUnique y
unfolding set_override
set_override-IsUnique none x y e u = cc
set_override-IsUnique (some ([], v)) x y e u = cc
set_override-IsUnique (some (c ∷ k, v)) x y e u = elim (Bool-cases (is_empty (trim (c ∷ k)))) [
  | inl t ↦ absurd (exit-ok (rw t at e))
  | inr t ↦ subst IsUnique (ok_eq (rw t at e)) (set-IsUnique (trim (c ∷ k)) (trim v) x u)
]

bare_override-IsUnique :
    (o : Option (Text × Text)) (x y : Kv) → bare_override o x ≡ ok y → IsUnique x → IsUnique y
unfolding bare_override
bare_override-IsUnique none x y e u = absurd (exit-ok e)
bare_override-IsUnique (some (k, v)) x y e u = elim (Bool-cases (is_empty (trim k))) [
  | inl t ↦ subst IsUnique (ok_eq (rw t at e)) u
  | inr t ↦ subst IsUnique (ok_eq (rw t at e)) (set-IsUnique (trim k) (trim v) x u)
]

pub other_argument-IsUnique :
    (a : Text) (x y : Kv) → other_argument a x ≡ ok y → IsUnique x → IsUnique y
unfolding other_argument
other_argument-IsUnique a x y e u = elim (Bool-cases (starts_with a (codes "--"))) [
  | inl t ↦ absurd (exit-ok (rw t at e))
  | inr t ↦ bare_override-IsUnique (split_eq a) x y (rw t at e) u
]
