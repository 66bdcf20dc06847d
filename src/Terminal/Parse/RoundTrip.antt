-- ===== src/Terminal/Parse/RoundTrip.antt =====
-- Quoting the words of a command line and parsing it again.
use psybot_ai.Base.{
  ◌≡◌, refl, ap, ◌∙◌, ◌≢◌, none, some, List, [], ◌∷◌, ◌++◌, All, ==_ne, append_assoc, append-nil,
}
use psybot_ai.Base.Text.{Text, is_space, trim, trim_between}
use psybot_ai.Terminal.Parse.{Scan, flush, scan_char, scan, command_of, parse_command}

-- A word that can stand between double quotes.
abbrev pub IsWord : Text → Type 0
IsWord w = (w ≢ []) × All (λ c. c ≢ b'"') w

abbrev pub quoted : Text → Text
quoted w = b'"' ∷ (w ++ b'"' ∷ [])

-- The words, each in double quotes, with one space between neighbours.
abbrev pub quote_words : Text → List Text → Text
quote_words w [] = quoted w
quote_words w (v ∷ ws) = quoted w ++ b' ' ∷ quote_words v ws

scan-append : (s : Scan) (a b : Text) → scan s (a ++ b) ≡ scan (scan s a) b
unfolding scan
scan-append s [] b = refl
scan-append s (c ∷ a) b = scan-append (scan_char s.quote s c) a b

-- Inside the quotes every character is taken as it is.
scan_inside :
    (out : List Text) (cur w : Text)
    → All (λ c. c ≢ b'"') w
    → scan (record { out = out; cur = cur; quote = some b'"' }) w
      ≡ record { out = out; cur = cur ++ w; quote = some b'"' }
unfolding scan scan_char
scan_inside out cur [] h = rw (append-nil cur)
scan_inside out cur (c ∷ w) (p, h) = rw (==_ne p) (
    scan_inside out (cur ++ c ∷ []) w h
    ∙ ap (λ t. record { out = out; cur = t; quote = some b'"' }) (append_assoc cur (c ∷ []) w))

scan-quoted :
    (out : List Text) (w : Text)
    → All (λ c. c ≢ b'"') w
    → scan (record { out = out; cur = []; quote = none }) (quoted w)
      ≡ record { out = out; cur = w; quote = none }
unfolding scan scan_char
scan-quoted out w h = rw (scan-append _ w (b'"' ∷ []), scan_inside out [] w h)

flush_word : (out : List Text) (w : Text) → IsWord w → flush out w ≡ out ++ w ∷ []
unfolding flush
flush_word out [] h = absurd (h.0 refl)
flush_word out (c ∷ w) h = refl

-- The tokens that a line yields after those of `out`.
tokens_from : List Text → Text → List Text
tokens_from out input =
    let s = scan (record { out = out; cur = []; quote = none }) input in flush s.out s.cur

after_space :
    (out : List Text) (w rest : Text)
    → IsWord w
    → scan (record { out = out; cur = w; quote = none }) (b' ' ∷ rest)
      ≡ scan (record { out = out ++ w ∷ []; cur = []; quote = none }) rest
unfolding scan scan_char
after_space out w rest h = rw (flush_word out w h)

tokens_from-quote_words :
    (out : List Text) (w : Text) (ws : List Text)
    → All IsWord (w ∷ ws)
    → tokens_from out (quote_words w ws) ≡ out ++ w ∷ ws
unfolding tokens_from
tokens_from-quote_words out w [] (h, _) = rw (scan-quoted out w h.1) (flush_word out w h)
tokens_from-quote_words out w (v ∷ ws) (h, hs) =
    rw (scan-append _ (quoted w) (b' ' ∷ quote_words v ws), scan-quoted out w h.1)
      (rw (after_space out w (quote_words v ws) h)
        (tokens_from-quote_words (out ++ w ∷ []) v ws hs ∙ append_assoc out (w ∷ []) (v ∷ ws)))

-- A quoted line ends in a quote, as it begins with one.
quote_words_ends :
    (w : Text) (ws : List Text) → (s : Text) × (quote_words w ws ≡ (b'"' ∷ s) ++ b'"' ∷ [])
quote_words_ends w [] = (w, refl)
quote_words_ends w (v ∷ ws) =
    let (s, e) = quote_words_ends v ws in (w ++ b'"' ∷ b' ' ∷ b'"' ∷ s, rw e (simp append_assoc))

trim-quote_words : (w : Text) (ws : List Text) → trim (quote_words w ws) ≡ quote_words w ws
unfolding is_space
trim-quote_words w ws =
    let (s, e) = quote_words_ends w ws in rw e (trim_between b'"' b'"' s refl refl)

-- A command line made by putting each word between double quotes parses back to those words: the
-- first is the name and the others are the arguments. The words are not empty and hold no double
-- quote; they may hold spaces and single quotes.
pub parse_command-quote_words :
    (w : Text) (ws : List Text)
    → All IsWord (w ∷ ws)
    → parse_command (quote_words w ws) ≡ record { name = w; args = ws }
unfolding parse_command tokens_from
parse_command-quote_words w ws h =
    rw (trim-quote_words w ws) (ap command_of (tokens_from-quote_words [] w ws h))
