-- ===== src/Agent/Summarizer/Decimal.antt =====
-- The digits that apps-agent/src/cognition/summarizer.ts prints.
use psybot_ai.Base.{◌≡◌, ℕ, zero, suc, ◌+◌, ◌-◌, ◌*◌, ◌/◌, ◌<◌, [], ◌∷◌, reverse, arith, ap, ◌∙◌}
use mathlib.Core.List.{reverse-reverse}
use psybot_ai.Base.Text.{Text}
use psybot_ai.Agent.Summarizer.{decimal_reversed, decimal}

-- The number that digits stand for, the last one first.
abbrev value : Text → ℕ
value [] = 0
value (d ∷ ds) = d - 48 + 10 * value ds

value-decimal_reversed : (fuel n : ℕ) → n < fuel → value (decimal_reversed fuel n) ≡ n
unfolding decimal_reversed
value-decimal_reversed zero n h = absurd (omega arith)
value-decimal_reversed (suc fuel) n h = ground (arith, value-decimal_reversed fuel (n / 10))

-- The fuel is enough: the digits stand for the number.
pub value-decimal : (n : ℕ) → value (reverse (decimal n)) ≡ n
unfolding decimal
value-decimal n =
    ap value (reverse-reverse (decimal_reversed (suc n) n))
    ∙ value-decimal_reversed (suc n) n (omega arith)
