-- ===== src/Base/Text.antt =====
-- Text as the list of its UTF-16 code units, for code that walks its characters. Texts that are
-- only compared are native strings.
use Prim.Native.Nat.{ℕ, ◌+◌}
use Prim.Native.Char.{code}
use Prim.Native.String.{String}
use mathlib.Core.Path.{◌≡◌, refl, ap, ◌∙◌}
use mathlib.Core.Logic.{◌↔◌}
use mathlib.Core.Bool.{Bool, true, false, ◌&&◌, ◌||◌}
use mathlib.Core.List.{List, [], ◌∷◌, ◌++◌, reverse, reverse-append, reverse-cons, reverse-reverse}
use native.Mathlib.Omega.{arith}
use psybot_ai.Base.Tests.{leb, ◌==◌, if◌then◌else◌}

abbrev pub Text : Type 0
Text = List ℕ

-- The units of a literal (all literals of the source are ASCII).
abbrev pub codes : String → Text
codes String.[] = []
codes (String.◌∷◌ c s) = code c ∷ codes s

-- JavaScript's `\s` and `trim`: the ASCII spaces, no-break space, and the Unicode spaces.
unfoldable pub is_space : ℕ → Bool
is_space c =
    leb 9 c && leb c 13
    || c == 32
    || c == 160
    || c == 5760
    || leb 8192 c && leb c 8202
    || c == 8232
    || c == 8233
    || c == 8239
    || c == 8287
    || c == 12288
    || c == 65279

unfoldable pub text_eq : Text → Text → Bool
text_eq [] [] = true
text_eq [] (_ ∷ _) = false
text_eq (_ ∷ _) [] = false
text_eq (x ∷ xs) (y ∷ ys) = x == y && text_eq xs ys

pub text_eq_iff : (s t : Text) → (text_eq s t ≡ true) ↔ (s ≡ t)
unfolding text_eq
text_eq_iff [] [] = ((λ _. refl), (λ _. refl))
text_eq_iff [] (y ∷ t) = ((λ h. cc), (λ h. cc))
text_eq_iff (x ∷ s) [] = ((λ h. cc), (λ h. cc))
text_eq_iff (x ∷ s) (y ∷ t) = ground (arith, text_eq_iff s t)

-- `s.startsWith(p)`
unfoldable pub starts_with : Text → Text → Bool
starts_with s [] = true
starts_with [] (_ ∷ _) = false
starts_with (x ∷ s) (y ∷ p) = x == y && starts_with s p

-- `s.includes(p)`
unfoldable pub includes : Text → Text → Bool
unfolding starts_with
includes [] p = starts_with [] p
includes (x ∷ s) p = starts_with (x ∷ s) p || includes s p

unfoldable pub trim_start : Text → Text
unfolding is_space
trim_start [] = []
trim_start (c ∷ s) = if is_space c then trim_start s else c ∷ s

-- `s.trim()`
unfoldable pub trim : Text → Text
unfolding trim_start
trim s = reverse (trim_start (reverse (trim_start s)))

-- `toLowerCase` on ASCII letters.
unfoldable pub lower : ℕ → ℕ
lower c = if leb 65 c && leb c 90 then c + 32 else c

trim_start-cons : (c : ℕ) (s : Text) → is_space c ≡ false → trim_start (c ∷ s) ≡ c ∷ s
unfolding trim_start
trim_start-cons c s h = rw h

-- A text that neither begins nor ends with a space is left alone.
pub trim_between :
    (c d : ℕ) (s : Text)
    → is_space c ≡ false
    → is_space d ≡ false
    → trim ((c ∷ s) ++ d ∷ []) ≡ (c ∷ s) ++ d ∷ []
unfolding trim
trim_between c d s hc hd =
    rw (trim_start-cons c (s ++ d ∷ []) hc, reverse-append (c ∷ s) (d ∷ []))
      (rw (trim_start-cons d (reverse (c ∷ s)) hd)
        (reverse-cons d (reverse (c ∷ s)) ∙ ap (λ r. r ++ d ∷ []) (reverse-reverse (c ∷ s))))
