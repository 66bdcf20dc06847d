-- ===== src/Terminal/Parse/Tokens.antt =====
-- What every token of a line is.
use psybot_ai.Base.{ℕ, ◌≢◌, Option, none, some, List, [], ◌∷◌, arith, All, All-append}
use psybot_ai.Base.Text.{Text}
use psybot_ai.Terminal.Parse.{Scan, flush, scan_char, scan, start, tokenize}

abbrev pub IsToken : Text → Type 0
IsToken t = t ≢ []

flush-All : (out : List Text) (cur : Text) → All IsToken out → All IsToken (flush out cur)
unfolding flush
flush-All out [] h = h
flush-All out (c ∷ cur) h = All-append IsToken out ((c ∷ cur) ∷ []) h ((λ e. cc), tt)

scan_char-All :
    (q : Option ℕ) (s : Scan) (ch : ℕ) → All IsToken s.out → All IsToken (scan_char q s ch).out
unfolding scan_char
scan_char-All (some q) s ch h = ground arith
scan_char-All none s ch h = ground (arith, flush-All s.out s.cur h)

scan-All : (s : Scan) (input : Text) → All IsToken s.out → All IsToken (scan s input).out
unfolding scan
scan-All s [] h = h
scan-All s (ch ∷ input) h = scan-All (scan_char s.quote s ch) input (scan_char-All s.quote s ch h)

-- No token of any line is empty.
pub tokenize-All : (input : Text) → All IsToken (tokenize input)
unfolding tokenize
tokenize-All input = flush-All _ (scan start input).cur (scan-All start input tt)
