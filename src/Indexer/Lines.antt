-- ===== src/Indexer/Lines.antt =====
-- The regular expressions of apps-indexer/src/parsers: a literal, then `\s+key=([^\s]+)` for each
-- value, some of which may be missing, in any case (`i`). A word stops at a space and a space at a
-- word, so the greedy match is the only one.
pub mod Reading
use psybot_ai.Base.{
  ◌≡◌, sym, refl, ap, ◌∙◌, ℕ, Bool, true, false, not, ◌&&◌, Option, none, some, List, [], ◌∷◌, ◌++◌,
  All, ◌==◌, if◌then◌else◌, or_else, append-nil,
}
use psybot_ai.Base.Text.{codes, Text, is_space, trim_start, lower}

infixl 5 ◌>>=◌
abbrev pub ◌>>=◌ : {A B : Type 0} → Option A → (A → Option B) → Option B
none >>= f = none
some a >>= f = f a

-- What follows a literal, which is written in lower case.
unfoldable pub literal : Text → Text → Option Text
unfolding lower
literal [] s = some s
literal (k ∷ ks) [] = none
literal (k ∷ ks) (c ∷ s) = if lower c == k then literal ks s else none

-- `\s+`
unfoldable pub spaces : Text → Option Text
unfolding is_space trim_start
spaces [] = none
spaces (c ∷ s) = if is_space c then some (trim_start s) else none

-- The longest prefix without spaces, and the rest.
unfoldable pub word : Text → Text × Text
unfolding is_space
word [] = ([], [])
word (c ∷ s) = let (w, rest) = word s in if is_space c then ([], c ∷ s) else (c ∷ w, rest)

abbrev pub not_empty : Text × Text → Option (Text × Text)
not_empty ([], rest) = none
not_empty (c ∷ w, rest) = some (c ∷ w, rest)

-- `\s+key=([^\s]+)`
unfoldable pub key_value : Text → Text → Option (Text × Text)
unfolding spaces literal word
key_value key s = do t ← spaces s; v ← literal key t; not_empty (word v)

abbrev or_missing : Text → Option (Text × Text) → Option Text × Text
or_missing s none = (none, s)
or_missing s (some (v, rest)) = (some v, rest)

-- `(?:\s+key=([^\s]+))?`
unfoldable pub optional_value : Text → Text → Option Text × Text
unfolding key_value
optional_value key s = or_missing s (key_value key s)

-- The first place in a line where an expression matches.
unfoldable pub first_match : {E : Type 0} → (Text → Option E) → Text → Option E
first_match p [] = p []
first_match p (c ∷ s) = or_else (p (c ∷ s)) (first_match p s)

-- The events of the lines: of each line the first kind that matches.
unfoldable pub events_of : {E : Type 0} → (Text → Option E) → (Text → Option E) → List Text → List E
unfolding first_match
events_of p q [] = []
events_of p q (line ∷ lines) =
    let rest = events_of p q lines in
    elim (or_else (first_match p line) (first_match q line)) [ none ↦ rest | some e ↦ e ∷ rest ]

-- A value as it is printed: not empty and without spaces.
abbrev pub IsValue : Text → Type 0
IsValue [] = ⊥
IsValue (c ∷ s) = All (λ d. is_space d ≡ false) (c ∷ s)
