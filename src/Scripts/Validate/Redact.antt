-- ===== src/Scripts/Validate/Redact.antt =====
-- What scripts/env/validate-env.ts prints of a secret.
use psybot_ai.Base.{
  ◌≤◌, true, false, ◌≡◌, ◌≢◌, refl, sym, ap, ◌∙◌, [], ◌∷◌, ◌++◌, map, length, leb, take, reverse,
  arith, length-append, append_assoc,
}
use mathlib.Core.List.{reverse-append, reverse-reverse}
use psybot_ai.Base.Text.{Text, codes}
use psybot_ai.Scripts.Validate.Print.{is_secret, upper, redact}

take-length : (a s : Text) → take (length a) (a ++ s) ≡ a
take-length [] s = refl
take-length (c ∷ a) s = ap (λ r. c ∷ r) (take-length a s)

length-reverse : (s : Text) → length (reverse s) ≡ length s
length-reverse [] = refl
length-reverse (c ∷ s) =
    ap length (reverse-append (c ∷ []) s)
    ∙ omega (arith, length-append {0} (reverse s) (c ∷ []), length-reverse s)

take-prefix : (a s : Text) → length a ≡ 3 → take 3 (a ++ s) ≡ a
take-prefix a s h = ap (λ n. take n (a ++ s)) (sym h) ∙ take-length a s

-- The last three units of a text.
take-suffix : (s b : Text) → length b ≡ 3 → reverse (take 3 (reverse (s ++ b))) ≡ b
take-suffix s b h =
    ap (λ r. reverse (take 3 r)) (reverse-append s b)
    ∙ ap reverse (take-prefix (reverse b) (reverse s) (length-reverse b ∙ h))
    ∙ reverse-reverse b

nonempty : (m : Text) → m ≢ [] → 1 ≤ length m
nonempty [] h = absurd (h refl)
nonempty (c ∷ m) h = omega arith

long :
    (a m b : Text) → length a ≡ 3 → length b ≡ 3 → m ≢ [] → leb (length (a ++ (m ++ b))) 6 ≡ false
long a m b h k n =
    let e = length-append {0} a (m ++ b) in
    let f = length-append {0} m b in let g = nonempty m n in ground arith

redact_long :
    (k a m b : Text)
    → is_secret (map upper k) ≡ true
    → length a ≡ 3
    → length b ≡ 3
    → m ≢ []
    → redact k (a ++ (m ++ b)) ≡ a ++ (codes "***" ++ b)
unfolding redact
redact_long k [] m b s h g n = absurd (omega arith)
redact_long k (c ∷ a) m b s h g n =
    rw (s, long (c ∷ a) m b h g n)
      (ap (λ r. r ++ (codes "***" ++ reverse (take 3 (reverse (c ∷ a ++ (m ++ b))))))
          (take-prefix (c ∷ a) (m ++ b) h)
        ∙ ap (λ r. c ∷ a ++ (codes "***" ++ reverse (take 3 (reverse r))))
            (sym (append_assoc (c ∷ a) m b))
        ∙ ap (λ r. c ∷ a ++ (codes "***" ++ r)) (take-suffix (c ∷ a ++ m) b g))

-- Of a secret that is longer than six units only the first and the last three show: two such
-- secrets with the same ends print the same, whatever stands between them and however much of it.
pub redact_middle :
    (k a m m' b : Text)
    → is_secret (map upper k) ≡ true
    → length a ≡ 3
    → length b ≡ 3
    → m ≢ []
    → m' ≢ []
    → redact k (a ++ (m ++ b)) ≡ redact k (a ++ (m' ++ b))
redact_middle k a m m' b s h g n n' =
    redact_long k a m b s h g n ∙ sym (redact_long k a m' b s h g n')
