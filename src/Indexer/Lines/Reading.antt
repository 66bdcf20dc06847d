-- ===== src/Indexer/Lines/Reading.antt =====
-- What the expressions of apps-indexer/src/parsers find in printed values.
use psybot_ai.Base.{
  ◌≡◌, sym, refl, ap, ◌∙◌, ℕ, Bool, true, false, not, ◌&&◌, Option, none, some, List, [], ◌∷◌, ◌++◌,
  All, ◌==◌, if◌then◌else◌, or_else, append-nil,
}
use psybot_ai.Base.Text.{codes, Text, is_space, lower}
use psybot_ai.Indexer.Lines.{
  ◌>>=◌, literal, spaces, word, not_empty, key_value, first_match, events_of, IsValue,
}

-- What may follow a value: the end or a space.
abbrev pub Stop : Text → Type 0
Stop [] = Unit
Stop (c ∷ s) = c ≡ b' '

word-Stop :
    (w rest : Text) → All (λ d. is_space d ≡ false) w → Stop rest → word (w ++ rest) ≡ (w, rest)
unfolding word
word-Stop [] [] h k = refl
word-Stop [] (c ∷ rest) h k = rw k refl
word-Stop (c ∷ w) rest (n, h) k =
    ap (λ b. if b then ([], c ∷ w ++ rest) else (c ∷ (word (w ++ rest)).0, (word (w ++ rest)).1)) n
    ∙ ap (λ (x : Text × Text). (c ∷ x.0, x.1)) (word-Stop w rest h k)

-- A value is read up to where it stops.
pub value-Stop :
    (v rest : Text) → IsValue v → Stop rest → not_empty (word (v ++ rest)) ≡ some (v, rest)
value-Stop [] rest h k = absurd h
value-Stop (c ∷ v) rest h k = ap not_empty (word-Stop (c ∷ v) rest h k)

abbrev pub spaceless : Text → Bool
spaceless [] = true
spaceless (k ∷ ks) = not (32 == k) && spaceless ks

literal-Stop :
    (k : ℕ) (ks rest : Text) → (32 == k) ≡ false → Stop rest → literal (k ∷ ks) rest ≡ none
unfolding literal lower
literal-Stop k ks [] n h = refl
literal-Stop k ks (c ∷ rest) n h = rw h (rw n refl)

spaces-word : (key : Text) (c : ℕ) (s : Text) → is_space c ≡ false → key_value key (c ∷ s) ≡ none
unfolding key_value spaces
spaces-word key c s h = rw h refl

and_split : (a b : Bool) → not a && b ≡ true → (a ≡ false) × (b ≡ true)
and_split true b h = absurd cc
and_split false b h = (refl, h)

if_none :
    {A B : Type 0} (b : Bool) (o : Option A) (f : A → Option B)
    → (o >>= f) ≡ none
    → ((if b then o else none) >>= f) ≡ none
if_none true o f h = h
if_none false o f h = refl

-- A literal that ends inside a value, or at its end before the wrong key, is no match.
literal-value :
    (key l v rest : Text)
    → spaceless l ≡ true
    → All (λ d. is_space d ≡ false) v
    → Stop rest
    → key_value key rest ≡ none
    → (literal l (v ++ rest) >>= λ t. key_value key t) ≡ none
unfolding literal
literal-value key [] [] rest sl h k e = e
literal-value key [] (c ∷ v) rest sl (n, h) k e = spaces-word key c (v ++ rest) n
literal-value key (x ∷ l) [] rest sl h k e =
    ap (λ o. o >>= λ t. key_value key t)
      (literal-Stop x l rest (and_split (32 == x) (spaceless l) sl).0 k)
literal-value key (x ∷ l) (c ∷ v) rest sl (n, h) k e =
    if_none (lower c == x) _ _
      (literal-value key l v rest (and_split (32 == x) (spaceless l) sl).1 h k e)

bind_none :
    {A B C : Type 0} (o : Option A) (f : A → Option B) (g : B → Option C)
    → (o >>= f) ≡ none
    → (o >>= λ a. f a >>= g) ≡ none
bind_none none f g h = refl
bind_none (some a) f g h = ap (λ x. x >>= g) h

first_match-word :
    {E : Type 0} (p : Text → Option E) (v rest : Text)
    → All (λ d. is_space d ≡ false) v
    → ((w : Text) → All (λ d. is_space d ≡ false) w → p (w ++ rest) ≡ none)
    → first_match p rest ≡ none
    → first_match p (v ++ rest) ≡ none
unfolding first_match
first_match-word p [] rest h f e = e
first_match-word p (c ∷ v) rest (n, h) f e =
    ap (λ o. or_else o (first_match p (v ++ rest))) (f (c ∷ v) (n, h))
    ∙ first_match-word p v rest h f e

IsValue-All : (v : Text) → IsValue v → All (λ d. is_space d ≡ false) v
IsValue-All [] h = absurd h
IsValue-All (c ∷ v) h = h

-- An expression that begins with a literal and a key does not match inside a value.
pub first_match-value :
    {E : Type 0} (l key : Text) (g : Text × Text → Option E) (v rest : Text)
    → spaceless l ≡ true
    → IsValue v
    → Stop rest
    → key_value key rest ≡ none
    → first_match (λ s. literal l s >>= λ t. key_value key t >>= g) rest ≡ none
    → first_match (λ s. literal l s >>= λ t. key_value key t >>= g) (v ++ rest) ≡ none
first_match-value l key g v rest sl h k n e =
    first_match-word _ v rest (IsValue-All v h)
      (λ w a.
        bind_none (literal l (w ++ rest)) (key_value key) g (literal-value key l w rest sl a k n))
      e

pub value-end : (v : Text) → IsValue v → not_empty (word v) ≡ some (v, [])
value-end v h = ap (λ s. not_empty (word s)) (sym (append-nil v)) ∙ value-Stop v [] h tt

-- Such an expression does not match the two values of a status.
pub first_match-status :
    {E : Type 0} (l key : Text) (g : Text × Text → Option E) (id st : Text)
    → spaceless l ≡ true
    → IsValue id
    → IsValue st
    → key_value key [] ≡ none
    → key_value key (codes " status=" ++ st) ≡ none
    → first_match (λ s. literal l s >>= λ t. key_value key t >>= g) [] ≡ none
    → first_match (λ s. literal l s >>= λ t. key_value key t >>= g) (codes " status=" ++ st)
      ≡ first_match (λ s. literal l s >>= λ t. key_value key t >>= g) st
    → first_match (λ s. literal l s >>= λ t. key_value key t >>= g) (id ++ (codes " status=" ++ st))
      ≡ none
first_match-status l key g id st sl hi hs k0 ks e0 skip =
    first_match-value l key g id _ sl hi refl ks (
      skip
      ∙ ap (first_match (λ s. literal l s >>= λ t. key_value key t >>= g)) (sym (append-nil st))
      ∙ first_match-value l key g st [] sl hs tt k0 e0)

pub bind_some :
    {A B : Type 0} (o : Option A) (a : A) (f : A → Option B) → o ≡ some a → (o >>= f) ≡ f a
bind_some o a f h = ap (λ x. x >>= f) h

pub first_match-here :
    {E : Type 0} (p : Text → Option E) (c : ℕ) (s : Text) (e : E)
    → p (c ∷ s) ≡ some e
    → first_match p (c ∷ s) ≡ some e
unfolding first_match
first_match-here p c s e h = ap (λ o. or_else o (first_match p s)) h

-- A line of the first kind, and a line that is only of the second kind.
pub events_of-first :
    {E : Type 0} (p q : Text → Option E) (line : Text) (lines : List Text) (e : E) (es : List E)
    → first_match p line ≡ some e
    → events_of p q lines ≡ es
    → events_of p q (line ∷ lines) ≡ e ∷ es
unfolding events_of
events_of-first p q line lines e es h k = rw (events_of, h) (ap (λ r. e ∷ r) k)

pub events_of-second :
    {E : Type 0} (p q : Text → Option E) (line : Text) (lines : List Text) (e : E) (es : List E)
    → first_match p line ≡ none
    → first_match q line ≡ some e
    → events_of p q lines ≡ es
    → events_of p q (line ∷ lines) ≡ e ∷ es
unfolding events_of
events_of-second p q line lines e es n h k = rw (events_of, n, h) (ap (λ r. e ∷ r) k)

-- An optional value as it is printed.
abbrev pub optional_text : Text → Option Text → Text
optional_text label none = []
optional_text label (some v) = label ++ v

abbrev pub IsOptional : Option Text → Type 0
IsOptional none = Unit
IsOptional (some v) = IsValue v

-- What may follow a value, when an optional value may be printed.
pub optional_text-Stop :
    (label : Text) (f : Option Text) (rest : Text)
    → Stop rest
    → Stop (optional_text (b' ' ∷ label) f ++ rest)
optional_text-Stop label none rest h = h
optional_text-Stop label (some v) rest h = refl
