-- ===== src/Agent/Llm.antt =====
-- The language model the agent may ask: callLlm of apps-agent/src/cognition/{summarizer,moduleizer,
-- fork-suggester}.ts, and the fenced block of JSON in its answer. A function from the endpoint and
-- the request's body to the answer stands for the network; `none` is a request that throws.
use psybot_ai.Base.{◌≡◌, subst, ℕ, ◌&&◌, Option, none, some, [], ◌∷◌, map, drop, leb, if◌then◌else◌}
use psybot_ai.Base.Text.{Text, codes, starts_with, trim_start, lower}
use psybot_ai.Base.Json.{Json, arr, cons, obj, str, end, field, get, get_field}

pub data Mode : Type 0 where
  heuristic llm : Mode

pub record LlmConfig : Type 0 where
  pub mode : Mode
  pub endpoint : Option Text
  pub model : Text

pub record Answer : Type 0 where
  pub status : ℕ
  pub text : Text

abbrev pub Ask : Type 0
Ask = Text → Json → Option Answer

-- What a step of the agent fails with.
pub data Failure : Type 0 where
  endpoint_required network_error : Failure
  llm_error : ℕ → Failure
  invalid_repo : Failure
  -- the client has no such method
  no_method : Failure

pub data Result (A : Type 0) : Type 0 where
  fail : Failure → Result A
  ok : A → Result A

-- What holds of a result if there is one.
abbrev pub Holds : {A : Type 0} → (A → Type 0) → Result A → Type 0
Holds P (fail e) = Unit
Holds P (ok a) = P a

pub Holds-ok : {A : Type 0} (P : A → Type 0) (r : Result A) (a : A) → Holds P r → r ≡ ok a → P a
Holds-ok P r a h e = subst (Holds P) e h

-- How a step of thought begins: the plain way in the heuristic mode and when the prompt's file is
-- missing or empty, and else the way that uses the prompt.
unfoldable pub by_prompt : {A : Type 0} → Mode → Option Text → A → (Text → A) → A
by_prompt heuristic prompt plain f = plain
by_prompt llm none plain f = plain
by_prompt llm (some []) plain f = plain
by_prompt llm (some (c ∷ p)) plain f = f (c ∷ p)

pub by_prompt-Holds :
    {A : Type 0} (P : A → Type 0) (mode : Mode) (prompt : Option Text) (plain : A) (f : Text → A)
    → P plain
    → ((p : Text) → P (f p))
    → P (by_prompt mode prompt plain f)
unfolding by_prompt
by_prompt-Holds P heuristic prompt plain f h k = h
by_prompt-Holds P llm none plain f h k = h
by_prompt-Holds P llm (some []) plain f h k = h
by_prompt-Holds P llm (some (c ∷ p)) plain f h k = k (c ∷ p)

abbrev string_field : Text → Json → Option Text
string_field k j = elim (get k j) [ some (str s) ↦ some s | _ ↦ none ]

-- `x?.[0]`
abbrev first_of : Option Json → Option Json
first_of (some (arr (cons x _))) = some x
first_of (some (obj fs)) = get_field (codes "0") fs
first_of _ = none

abbrev get_in : Text → Option Json → Option Json
get_in k none = none
get_in k (some j) = get k j

abbrev content_of : Json → Option Text
content_of j =
    elim (get_in (codes "content")
      (get_in (codes "message") (first_of (get (codes "choices") j)))) [
        | some (str s) ↦ some s
        | _ ↦ none
      ]

-- The text of a good answer; the raw text when it is none of the known forms.
unfoldable pub reply_text : (Text → Option Json) → Text → Text
unfolding get
reply_text parse raw = elim (parse raw) [
  | none ↦ raw
  | some json ↦ elim (string_field (codes "output") json) [
    | some s ↦ s
    | none ↦ elim (string_field (codes "text") json) [
      | some s ↦ s
      | none ↦ elim (content_of json) [ some s ↦ s | none ↦ raw ]
    ]
  ]
]

abbrev request_body : Text → Text → Json
request_body model message =
    obj (field (codes "model") (str model) (field (codes "input") (str message) end))

abbrev answered : (Text → Option Json) → Option Answer → Result Text
answered parse none = fail network_error
answered parse (some a) =
    if leb 200 a.status && leb a.status 299
    then ok (reply_text parse a.text)
    else fail (llm_error a.status)

-- `callLlm`
unfoldable pub call_llm : (Text → Option Json) → Ask → LlmConfig → Text → Result Text
unfolding reply_text
call_llm parse ask cfg message = elim cfg.endpoint [
  | none ↦ fail endpoint_required
  | some [] ↦ fail endpoint_required
  | some (c ∷ url) ↦ answered parse (ask (c ∷ url) (request_body cfg.model message))
]

-- The text after the first "```json", in any case.
unfoldable pub open_fence : Text → Option Text
unfolding starts_with lower
open_fence [] = none
open_fence (c ∷ s) =
    if starts_with (map lower (c ∷ s)) (codes "```json")
    then some (drop 7 (c ∷ s))
    else open_fence s

-- The text up to the first "```" and the spaces before it.
unfoldable pub close_fence : Text → Option Text
unfolding starts_with trim_start
close_fence [] = none
close_fence (c ∷ s) =
    if starts_with (trim_start (c ∷ s)) (codes "```")
    then some []
    else elim (close_fence s) [ none ↦ none | some t ↦ some (c ∷ t) ]

-- The first group of /```json\s*([\s\S]*?)\s*```/i, where `none` also stands for an empty group.
unfoldable pub fenced_json : Text → Option Text
unfolding open_fence close_fence trim_start
fenced_json text = elim (open_fence text) [
  | none ↦ none
  | some rest ↦ elim (close_fence (trim_start rest)) [ some (c ∷ t) ↦ some (c ∷ t) | _ ↦ none ]
]

-- A chain that stops at the first missing value.
infixl 5 ◌>>=◌
abbrev pub ◌>>=◌ : {A B : Type 0} → Option A → (A → Option B) → Option B
none >>= f = none
some a >>= f = f a
