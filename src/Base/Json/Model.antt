-- ===== src/Base/Json/Model.antt =====
-- A platform that meets the laws that the program relies on: JSON values are written as programs
-- of a small stack machine, one number to an instruction or an operand.
use Prim.Native.Nat.{ℕ, zero, suc}
use mathlib.Core.Path.{◌≡◌, refl, sym, ap, ◌∙◌}
use mathlib.Core.Bool.{true, false}
use mathlib.Core.Option.{Option, none, some}
use mathlib.Core.List.{List, [], ◌∷◌}
use psybot_ai.Base.Text.{Text}
use psybot_ai.Base.Int.{pos, negsuc}
use psybot_ai.Base.Json.{
  Json, null, bool, num, str, arr, obj, Items, nil, cons, Fields, end, field, Platform,
}

pub data Entry : Type 0 where
  val : Json → Entry
  text : Text → Entry
  items : Items → Entry
  fields : Fields → Entry

-- An instruction without an operand.
abbrev pub act : ℕ → List Entry → List Entry
act zero st = val null ∷ st
act (suc zero) st = val (bool false) ∷ st
act (suc (suc zero)) st = val (bool true) ∷ st
act (suc (suc (suc zero))) st = text [] ∷ st
act (suc (suc (suc (suc zero)))) (text s ∷ st) = val (str s) ∷ st
act (suc (suc (suc (suc (suc zero))))) st = items nil ∷ st
act (suc (suc (suc (suc (suc (suc zero)))))) (val v ∷ items vs ∷ st) = items (cons v vs) ∷ st
act (suc (suc (suc (suc (suc (suc (suc zero))))))) st = fields end ∷ st
act (suc (suc (suc (suc (suc (suc (suc (suc zero)))))))) (val v ∷ text k ∷ fields fs ∷ st) =
    fields (field k v fs) ∷ st
act (suc (suc (suc (suc (suc (suc (suc (suc (suc zero))))))))) (items vs ∷ st) = val (arr vs) ∷ st
act (suc (suc (suc (suc (suc (suc (suc (suc (suc (suc zero)))))))))) (fields fs ∷ st) =
    val (obj fs) ∷ st
act _ st = st

abbrev pub push_char : ℕ → List Entry → List Entry
push_char c (text s ∷ st) = text (c ∷ s) ∷ st
push_char c st = st

-- The instructions: 0 and an action, 1 and a positive number, 2 and a negative one, 3 and a
-- character.
abbrev pub run : List Entry → List ℕ → List Entry
run st [] = st
run st (op ∷ []) = st
run st (zero ∷ n ∷ code) = run (act n st) code
run st (suc zero ∷ n ∷ code) = run (val (num (pos n)) ∷ st) code
run st (suc (suc zero) ∷ n ∷ code) = run (val (num (negsuc n)) ∷ st) code
run st (suc (suc (suc op)) ∷ n ∷ code) = run (push_char n st) code

text_code : Text → List ℕ → List ℕ
text_code [] k = 0 ∷ 3 ∷ k
text_code (c ∷ s) k = text_code s (3 ∷ c ∷ k)

mutual
  json_code : Json → List ℕ → List ℕ
  json_code null k = 0 ∷ 0 ∷ k
  json_code (bool false) k = 0 ∷ 1 ∷ k
  json_code (bool true) k = 0 ∷ 2 ∷ k
  json_code (num (pos n)) k = 1 ∷ n ∷ k
  json_code (num (negsuc n)) k = 2 ∷ n ∷ k
  json_code (str s) k = text_code s (0 ∷ 4 ∷ k)
  json_code (arr vs) k = items_code vs (0 ∷ 9 ∷ k)
  json_code (obj fs) k = fields_code fs (0 ∷ 10 ∷ k)

  items_code : Items → List ℕ → List ℕ
  items_code nil k = 0 ∷ 5 ∷ k
  items_code (cons v vs) k = items_code vs (json_code v (0 ∷ 6 ∷ k))

  fields_code : Fields → List ℕ → List ℕ
  fields_code end k = 0 ∷ 7 ∷ k
  fields_code (field j v fs) k = fields_code fs (text_code j (json_code v (0 ∷ 8 ∷ k)))

run-text_code :
    (s : Text) (st : List Entry) (k : List ℕ) → run st (text_code s k) ≡ run (text s ∷ st) k
unfolding text_code
run-text_code [] st k = refl
run-text_code (c ∷ s) st k = run-text_code s st (3 ∷ c ∷ k)

mutual
  unfolding json_code items_code fields_code

  run-json_code :
      (j : Json) (st : List Entry) (k : List ℕ) → run st (json_code j k) ≡ run (val j ∷ st) k
  run-json_code null st k = refl
  run-json_code (bool false) st k = refl
  run-json_code (bool true) st k = refl
  run-json_code (num (pos n)) st k = refl
  run-json_code (num (negsuc n)) st k = refl
  run-json_code (str s) st k = run-text_code s st (0 ∷ 4 ∷ k)
  run-json_code (arr vs) st k = run-items_code vs st (0 ∷ 9 ∷ k)
  run-json_code (obj fs) st k = run-fields_code fs st (0 ∷ 10 ∷ k)

  run-items_code :
      (vs : Items) (st : List Entry) (k : List ℕ) → run st (items_code vs k) ≡ run (items vs ∷ st) k
  run-items_code nil st k = refl
  run-items_code (cons v vs) st k =
      run-items_code vs st (json_code v (0 ∷ 6 ∷ k)) ∙ run-json_code v (items vs ∷ st) (0 ∷ 6 ∷ k)

  run-fields_code :
      (fs : Fields) (st : List Entry) (k : List ℕ)
      → run st (fields_code fs k) ≡ run (fields fs ∷ st) k
  run-fields_code end st k = refl
  run-fields_code (field j v fs) st k =
      run-fields_code fs st (text_code j (json_code v (0 ∷ 8 ∷ k)))
      ∙ run-text_code j (fields fs ∷ st) (json_code v (0 ∷ 8 ∷ k))
      ∙ run-json_code v (text j ∷ fields fs ∷ st) (0 ∷ 8 ∷ k)

abbrev pub result : List Entry → Option Json
result (val j ∷ []) = some j
result _ = none

unfoldable pub model_stringify : Json → Text
unfolding json_code items_code fields_code text_code
model_stringify j = json_code j []

unfoldable pub model_parse : Text → Option Json
model_parse t = result (run [] t)

pub model_parse-stringify : (j : Json) → model_parse (model_stringify j) ≡ some j
unfolding model_parse model_stringify
model_parse-stringify j = ap result (run-json_code j [] [])

-- A text stands for its own hash, and for its own bytes.
abbrev pub model_platform : Platform
unfolding model_stringify model_parse
model_platform = record {
  stringify = model_stringify;
  parse = model_parse;
  encode = λ t. t;
  decode = λ t. t;
  sha256_hex = λ t. t;
  parse-stringify = model_parse-stringify;
  decode-encode = λ j. refl;
}

-- No value is printed as the empty text.
pub model_platform-filled : (j : Json) → ¬ (model_platform.stringify j ≡ [])
unfolding model_platform model_parse
model_platform-filled j e =
    let read : none ≡ some j = sym (ap model_platform.parse e) ∙ model_platform.parse-stringify j in
    cc
