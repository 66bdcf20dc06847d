-- ===== src/Scripts/EnvFile/Values.antt =====
-- A line that was written, read back.
use psybot_ai.Base.{
  ℕ, true, false, ◌≡◌, refl, ap, subst, inl, inr, none, some, [], ◌∷◌, ◌++◌, reverse, append-nil,
  arith, ◌==◌, ◌||◌, Bool-cases, All,
}
use mathlib.Core.List.{reverse-append, reverse-cons, reverse-reverse}
use psybot_ai.Base.Text.{Text, is_space, starts_with, trim, trim_start}
use psybot_ai.Scripts.EnvFile.{
  split_eq, is_quoted, unquote, entry_of, parse_line, any, needs_quotes, escape, render_value,
}

abbrev pub NoBreak : ℕ → Type 0
NoBreak c = ((c == b'\n') ≡ false) × ((c == b'\r') ≡ false)

abbrev pub KeyUnit : ℕ → Type 0
KeyUnit c = (is_space c ≡ false) × ((c == b'=') ≡ false)

-- A key holds no space and no `=`, is not empty, and does not begin a comment.
abbrev pub IsKey : Text → Type 0
IsKey [] = ⊥
IsKey (c ∷ k) = ((c == b'#') ≡ false) × All KeyUnit (c ∷ k)

abbrev pub ValueUnit : ℕ → Type 0
ValueUnit c = NoBreak c × ((c == b'"') ≡ false)

-- A value holds no line break and no double quote, and does not stand in single quotes.
abbrev pub IsValue : Text → Type 0
IsValue v = All ValueUnit v × (is_quoted b'\'' v ≡ false)

abbrev StartsPlain : Text → Type 0
StartsPlain [] = Unit
StartsPlain (c ∷ _) = is_space c ≡ false

trim_start-id : (s : Text) → StartsPlain s → trim_start s ≡ s
unfolding trim_start
trim_start-id [] h = refl
trim_start-id (c ∷ s) h = rw h

-- A text that neither begins nor ends with a space is left alone.
trim-id : (s : Text) → StartsPlain s → StartsPlain (reverse s) → trim s ≡ s
unfolding trim
trim-id s h k = rw (trim_start-id s h) (rw (trim_start-id (reverse s) k) (reverse-reverse s))

trim_start-snoc :
    (s : Text) (d : ℕ) → is_space d ≡ false → trim_start (s ++ d ∷ []) ≡ trim_start s ++ d ∷ []
unfolding trim_start
trim_start-snoc [] d h = rw h
trim_start-snoc (c ∷ s) d h = ground (arith, trim_start-snoc s d h)

trim-cons : (c : ℕ) (s : Text) → is_space c ≡ false → starts_with (trim (c ∷ s)) (c ∷ []) ≡ true
unfolding trim starts_with
trim-cons c s h =
    rw (trim_start-id (c ∷ s) h, reverse-cons c s, trim_start-snoc (reverse s) c h)
      (rw (reverse-append (trim_start (reverse s)) (c ∷ [])) (ground arith))

-- A comment is skipped.
pub parse_line_comment : (s : Text) → parse_line (b'#' ∷ s) ≡ none
unfolding parse_line
parse_line_comment s = let h = trim-cons b'#' s refl in ground arith

split_eq-key : (k w : Text) → All KeyUnit k → split_eq (k ++ (b'=' ∷ w)) ≡ some (k, w)
unfolding split_eq
split_eq-key [] w h = refl
split_eq-key (c ∷ k) w ((_, e), h) = rw (split_eq-key k w h, e) refl

-- The text is empty, or its last unit is no space.
EndsPlain : Text → Type 0
EndsPlain s = StartsPlain (reverse s)

EndsPlain-snoc : (s : Text) (d : ℕ) → is_space d ≡ false → EndsPlain (s ++ d ∷ [])
unfolding EndsPlain
EndsPlain-snoc s d h = rw (reverse-append s (d ∷ [])) h

StartsPlain-snoc :
    (r : Text) (d : ℕ) → is_space d ≡ false → StartsPlain r → StartsPlain (r ++ d ∷ [])
StartsPlain-snoc [] d h k = h
StartsPlain-snoc (c ∷ r) d h k = k

EndsPlain-nil : EndsPlain []
unfolding EndsPlain
EndsPlain-nil = tt

EndsPlain-cons : (d : ℕ) (s : Text) → is_space d ≡ false → EndsPlain s → EndsPlain (d ∷ s)
unfolding EndsPlain
EndsPlain-cons d s h k = rw (reverse-cons d s) (StartsPlain-snoc (reverse s) d h k)

EndsPlain-append : (s t : Text) → All KeyUnit s → EndsPlain t → EndsPlain (s ++ t)
EndsPlain-append [] t h k = k
EndsPlain-append (c ∷ s) t ((a, _), h) k = EndsPlain-cons c (s ++ t) a (EndsPlain-append s t h k)

EndsPlain-quoted : (s : Text) → EndsPlain (b'"' ∷ (s ++ b'"' ∷ []))
unfolding is_space
EndsPlain-quoted s = EndsPlain-snoc (b'"' ∷ s) b'"' refl

EndsPlain-All : (s : Text) → any (λ c. is_space c || c == b'#') s ≡ false → EndsPlain s
unfolding any
EndsPlain-All [] h = EndsPlain-nil
EndsPlain-All (c ∷ s) h = EndsPlain-cons c s (ground arith) (EndsPlain-All s (ground arith))

escape-id : (v : Text) → All ValueUnit v → escape v ≡ v
unfolding escape
escape-id [] h = refl
escape-id (c ∷ v) ((_, q), h) = rw q (ap (λ r. c ∷ r) (escape-id v h))

any-false : (v : Text) → All ValueUnit v → any (λ c. c == b'"') v ≡ false
unfolding any
any-false [] h = refl
any-false (c ∷ v) ((_, q), h) = rw q (any-false v h)

-- A value in double quotes is read without them.
unquote_quoted : (v : Text) → unquote (b'"' ∷ (v ++ b'"' ∷ [])) ≡ v
unfolding unquote starts_with
unquote_quoted v =
    rw (reverse-cons b'"' (v ++ b'"' ∷ []), reverse-append v (b'"' ∷ [])) (reverse-reverse v)

-- A value that stands in no quotes is read as it is.
unquote_plain : (v : Text) → IsValue v → unquote v ≡ v
unfolding unquote is_quoted starts_with
unquote_plain [] h = refl
unquote_plain (c ∷ v) (((_, q), h), s) = rw (q, s) refl

StartsPlain-value : (v : Text) → any (λ c. is_space c || c == b'#') v ≡ false → StartsPlain v
unfolding any
StartsPlain-value [] h = tt
StartsPlain-value (c ∷ v) h = ground arith

pub render_value_quoted :
    (v : Text) → IsValue v → needs_quotes v ≡ true → render_value v ≡ b'"' ∷ (v ++ b'"' ∷ [])
unfolding render_value
render_value_quoted v (h, _) q = rw (q, escape-id v h) refl

needs_quotes_plain :
    (v : Text) → needs_quotes v ≡ false → any (λ c. is_space c || c == b'#') v ≡ false
unfolding needs_quotes
needs_quotes_plain v q = ground arith

pub render_value_plain : (v : Text) → needs_quotes v ≡ false → render_value v ≡ v
unfolding render_value
render_value_plain v q = rw q refl

EndsPlain-render_value : (v : Text) → IsValue v → EndsPlain (render_value v)
EndsPlain-render_value v h = elim (Bool-cases (needs_quotes v)) [
  | inl q ↦ rw (render_value_quoted v h q) (EndsPlain-quoted v)
  | inr q ↦ rw (render_value_plain v q) (EndsPlain-All v (needs_quotes_plain v q))
]

trim-plain : (s : Text) → StartsPlain s → EndsPlain s → trim s ≡ s
unfolding EndsPlain
trim-plain s h k = trim-id s h k

StartsPlain-quoted : (s : Text) → StartsPlain (b'"' ∷ s)
unfolding is_space
StartsPlain-quoted s = refl

-- A value that was written is read back.
unquote-render_value : (v : Text) → IsValue v → unquote (trim (render_value v)) ≡ v
unquote-render_value v h = elim (Bool-cases (needs_quotes v)) [
  | inl q ↦
      rw
        (
          render_value_quoted v h q,
          trim-plain (b'"' ∷ (v ++ b'"' ∷ [])) (StartsPlain-quoted (v ++ b'"' ∷ []))
              (EndsPlain-quoted v),
        )
        (unquote_quoted v)
  | inr q ↦
      let p = needs_quotes_plain v q in
      rw (render_value_plain v q, trim-plain v (StartsPlain-value v p) (EndsPlain-All v p))
        (unquote_plain v h)
]

EndsPlain-key : (k : Text) → All KeyUnit k → EndsPlain k
EndsPlain-key k h = subst EndsPlain (append-nil k) (EndsPlain-append k [] h EndsPlain-nil)

EndsPlain-line : (k v : Text) → All KeyUnit k → IsValue v → EndsPlain (k ++ (b'=' ∷ render_value v))
unfolding is_space
EndsPlain-line k v h i =
    EndsPlain-append k (b'=' ∷ render_value v) h
      (EndsPlain-cons b'=' (render_value v) refl (EndsPlain-render_value v i))

entry_of-render_value :
    (k v : Text) → IsKey k → IsValue v → entry_of (some (k, render_value v)) ≡ some (k, v)
unfolding entry_of
entry_of-render_value [] v h i = absurd h
entry_of-render_value (c ∷ k) v (_, h) i =
    rw (trim-plain (c ∷ k) h.0.0 (EndsPlain-key (c ∷ k) h), unquote-render_value v i) refl

-- A line that was written is read back, whatever the value holds but line breaks and quotes.
pub parse_line-render_value :
    (k v : Text) → IsKey k → IsValue v → parse_line (k ++ (b'=' ∷ render_value v)) ≡ some (k, v)
unfolding parse_line starts_with
parse_line-render_value [] v h i = absurd h
parse_line-render_value (c ∷ k) v (a, h) i =
    rw
      (
        trim-plain (c ∷ k ++ (b'=' ∷ render_value v)) h.0.0 (EndsPlain-line (c ∷ k) v h i),
        a,
        split_eq-key (c ∷ k) (render_value v) h,
      )
      (entry_of-render_value (c ∷ k) v (a, h) i)
