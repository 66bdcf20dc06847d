-- ===== src/Agent/Forks.antt =====
-- apps-agent/src/cognition/fork-suggester.ts: the forks that a plan suggests.
use psybot_ai.Base.{Option, none, some, List, [], ◌∷◌, ◌++◌, map, take, or_default}
use psybot_ai.Base.Text.{Text, codes}
use psybot_ai.Base.Json.{Json, null, str, arr, obj, Items, nil, cons, end, field, get, list_items}
use psybot_ai.Agent.Sources.{text_or}
use psybot_ai.Agent.Llm.{LlmConfig, Result, fail, ok, call_llm, fenced_json, by_prompt, ◌>>=◌}
use psybot_ai.Agent.Summarizer.{Mind}
use psybot_ai.Agent.Moduleizer.{PlannedModule, ModuleizationPlan}

pub record ForkSuggestion : Type 0 where
  pub module_name : Text
  pub rationale : Text
  pub suggested_fork_notes : Text

abbrev plain_suggestion : PlannedModule → ForkSuggestion
plain_suggestion m = record {
  module_name = m.name;
  rationale =
      codes "A fork can introduce alternative policies or I/O schemas while preserving lineage.";
  suggested_fork_notes =
      codes "Fork to adjust runtime limits and input validation; keep outputs stable.";
}

-- `heuristicForks`
unfoldable pub heuristic_forks : ModuleizationPlan → List ForkSuggestion
heuristic_forks plan = map plain_suggestion (take 3 plan.modules)

-- `a ?? b` of two properties.
abbrev either_field : Text → Text → Json → Option Json
either_field j k x = elim (get j x) [ none ↦ get k x | some null ↦ get k x | some v ↦ some v ]

unfoldable pub suggestion : (Json → Text) → Json → Option ForkSuggestion
unfolding get
suggestion other null = none
suggestion other x = some (record {
  module_name =
      text_or other (either_field (codes "moduleName") (codes "module") x) (codes "module");
  rationale = text_or other (get (codes "rationale") x) [];
  suggested_fork_notes =
      text_or other (either_field (codes "suggestedForkNotes") (codes "notes") x) [];
})

abbrev add_suggestion :
    Option ForkSuggestion → Option (List ForkSuggestion) → Option (List ForkSuggestion)
add_suggestion (some s) (some ss) = some (s ∷ ss)
add_suggestion _ _ = none

unfoldable pub suggestions : (Json → Text) → Items → Option (List ForkSuggestion)
unfolding suggestion
suggestions other nil = some []
suggestions other (cons x xs) = add_suggestion (suggestion other x) (suggestions other xs)

abbrev suggestions_of : (Json → Text) → Json → Option (List ForkSuggestion)
suggestions_of other (arr xs) = suggestions other xs
suggestions_of other j = elim (get (codes "suggestions") j) [
  | some (arr xs) ↦ suggestions other xs
  | _ ↦ none
]

-- `parseSuggestions`; `none` is its null.
unfoldable pub parse_suggestions :
    (Text → Option Json) → (Json → Text) → Text → Option (List ForkSuggestion)
unfolding fenced_json suggestions get
parse_suggestions parse other text = do
  json_text ← fenced_json text
  json ← parse json_text
  suggestions_of other json

abbrev module_json : PlannedModule → Json
module_json m = obj (
    field (codes "name") (str m.name) (
      field (codes "version") (str m.version) (
        field (codes "description") (str m.description) (
          field (codes "suggestedInputs") m.suggested_inputs (
            field (codes "suggestedOutputs") m.suggested_outputs
              (field (codes "safetyNotes") (arr (list_items (map str m.safety_notes))) end))))))

unfoldable pub plan_json : ModuleizationPlan → Json
unfolding list_items
plan_json plan = obj (
    field (codes "fingerprint") (str plan.fingerprint)
      (field (codes "modules") (arr (list_items (map module_json plan.modules))) end))

abbrev forks_or :
    (Text → Option (List ForkSuggestion))
    → List ForkSuggestion
    → Result Text
    → Result (List ForkSuggestion)
forks_or parse_it plain (fail e) = fail e
forks_or parse_it plain (ok text) = ok (or_default (parse_it text) plain)

-- `suggestForks`
unfoldable pub suggest_forks :
    Mind → LlmConfig → ModuleizationPlan → Text → Result (List ForkSuggestion)
unfolding heuristic_forks parse_suggestions plan_json call_llm by_prompt
suggest_forks m cfg plan summary =
    let plain = heuristic_forks plan in
    by_prompt cfg.mode (m.prompt (codes "fork.md")) (ok plain) (λ p.
      forks_or (parse_suggestions m.parse m.string_of) plain (
        call_llm m.parse m.ask cfg (
          p
          ++ 10 ∷ 10 ∷ codes "SUMMARY:"
          ++ 10 ∷ summary
          ++ 10 ∷ 10 ∷ codes "PLAN_JSON:"
          ++ 10 ∷ m.pretty (plan_json plan))))
