-- ===== src/Base/Json.antt =====
-- JSON values, and what the program relies on of the platform's JSON, text and hash functions.
-- Numbers are the integers; the program computes with no other number that it reads from JSON.
pub mod Model
use mathlib.Core.Path.{◌≡◌}
use mathlib.Core.Bool.{Bool}
use mathlib.Core.Option.{Option, none, some}
use mathlib.Core.List.{List, [], ◌∷◌}
use psybot_ai.Base.Tests.{if◌then◌else◌}
use psybot_ai.Base.Text.{Text, text_eq}
use psybot_ai.Base.Int.{ℤ}

mutual
  pub data Json : Type 0 where
    null : Json
    bool : Bool → Json
    num : ℤ → Json
    str : Text → Json
    arr : Items → Json
    obj : Fields → Json

  pub data Items : Type 0 where
    nil : Items
    cons : Json → Items → Items

  pub data Fields : Type 0 where
    end : Fields
    field : Text → Json → Fields → Fields

-- A property of an object; `none` is undefined. Of two fields with one key the last counts.
unfoldable pub get_field : Text → Fields → Option Json
unfolding text_eq
get_field k end = none
get_field k (field j v fs) =
    let later = get_field k fs in
    elim later [ some w ↦ some w | none ↦ if text_eq j k then some v else none ]

-- `x.k` of any JSON value.
unfoldable pub get : Text → Json → Option Json
unfolding get_field
get k (obj fs) = get_field k fs
get k _ = none

unfoldable pub items_list : Items → List Json
items_list nil = []
items_list (cons x xs) = x ∷ items_list xs

unfoldable pub list_items : List Json → Items
list_items [] = nil
list_items (x ∷ xs) = cons x (list_items xs)

-- The platform: `JSON.stringify` and `JSON.parse` (`none` is a throw), `TextEncoder` and
-- `TextDecoder`, and the hex digest of SHA-256.
pub record Platform : Type 0 where
  pub stringify : Json → Text
  pub parse : Text → Option Json
  pub encode : Text → Text
  pub decode : Text → Text
  pub sha256_hex : Text → Text
  pub parse-stringify : (j : Json) → parse (stringify j) ≡ some j
  -- The output of `JSON.stringify` holds no lone surrogate, so UTF-8 gives it back.
  pub decode-encode : (j : Json) → decode (encode (stringify j)) ≡ stringify j
