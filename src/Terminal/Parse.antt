-- ===== src/Terminal/Parse.antt =====
-- packages/terminal-ui/src/commands/parse.ts: a line becomes a command and its arguments.
pub mod Tokens
pub mod RoundTrip
mod Tests
use psybot_ai.Base.{ℕ, Bool, ◌||◌, Option, none, some, List, [], ◌∷◌, ◌++◌, ◌==◌, if◌then◌else◌}
use psybot_ai.Base.Text.{Text, is_space, trim}

pub record ParsedCommand : Type 0 where
  pub name : Text
  pub args : List Text

-- The variables of the loop in `tokenize`.
pub record Scan : Type 0 where
  pub out : List Text
  pub cur : Text
  pub quote : Option ℕ

-- `if (cur) out.push(cur)`
unfoldable pub flush : List Text → Text → List Text
flush out [] = out
flush out (c ∷ cur) = out ++ (c ∷ cur) ∷ []

abbrev pub is_quote : ℕ → Bool
is_quote ch = ch == b'\'' || ch == b'"'

-- One round of the loop, by the open quote.
unfoldable pub scan_char : Option ℕ → Scan → ℕ → Scan
unfolding flush is_space
scan_char (some q) s ch =
    if ch == q then record s { quote = none } else record s { cur = s.cur ++ ch ∷ [] }
scan_char none s ch =
    if is_quote ch
    then record s { quote = some ch }
    else if is_space ch
    then record s { out = flush s.out s.cur; cur = [] }
    else record s { cur = s.cur ++ ch ∷ [] }

unfoldable pub scan : Scan → Text → Scan
unfolding scan_char
scan s [] = s
scan s (ch ∷ input) = scan (scan_char s.quote s ch) input

abbrev pub start : Scan
start = record { out = []; cur = []; quote = none }

unfoldable pub tokenize : Text → List Text
unfolding scan flush
tokenize input = let s = scan start input in flush s.out s.cur

-- `tokens.shift() ?? ""`
unfoldable pub command_of : List Text → ParsedCommand
command_of [] = record { name = []; args = [] }
command_of (name ∷ args) = record { name = name; args = args }

unfoldable pub parse_command : Text → ParsedCommand
unfolding command_of tokenize trim
parse_command line = command_of (tokenize (trim line))
