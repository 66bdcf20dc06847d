-- ===== src/Terminal/Parse/Tests.antt =====
-- Tests of the command line parser.
use psybot_ai.Base.{◌≡◌, refl, [], ◌∷◌, arith}
use psybot_ai.Base.Text.{codes}
use psybot_ai.Terminal.Parse.{parse_command}
use psybot_ai.Terminal.Parse.RoundTrip.{quote_words, parse_command-quote_words}

parse_command_test :
    parse_command (codes "  run 'my module'  --input \"{}\" ")
    ≡ record { name = codes "run"; args = codes "my module" ∷ codes "--input" ∷ codes "{}" ∷ [] }
unfolding parse_command
parse_command_test = refl

parse_command-quote_words_example :
    parse_command (quote_words (codes "a") (codes "b" ∷ []))
    ≡ record { name = codes "a"; args = codes "b" ∷ [] }
parse_command-quote_words_example = parse_command-quote_words (codes "a") (codes "b" ∷ []) (
  ((λ e. cc), ((λ e. absurd (omega arith)), tt)),
  (((λ e. cc), ((λ e. absurd (omega arith)), tt)), tt),
)
