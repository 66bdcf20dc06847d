-- ===== src/Agent/Moduleizer.antt =====
-- apps-agent/src/cognition/moduleizer.ts: the modules an observation suggests.
use psybot_ai.Base.{
  ◌≡◌, refl, ◌%◌, Option, none, some, List, [], ◌∷◌, ◌++◌, map, length, ◌==◌, if◌then◌else◌,
  or_default,
}
use psybot_ai.Base.Text.{Text, codes}
use psybot_ai.Base.Json.{Json, null, str, arr, obj, Items, nil, cons, end, field, get, items_list}
use psybot_ai.Agent.Sources.{text_or}
use psybot_ai.Agent.Observer.{Observation}
use psybot_ai.Agent.Llm.{
  LlmConfig, Result, fail, ok, call_llm, fenced_json, by_prompt, by_prompt-Holds, Holds, Holds-ok,
  ◌>>=◌,
}
use psybot_ai.Agent.Summarizer.{Mind, observation_json}

pub record PlannedModule : Type 0 where
  pub name : Text
  pub version : Text
  pub description : Text
  pub suggested_inputs : Json
  pub suggested_outputs : Json
  pub safety_notes : List Text

pub record ModuleizationPlan : Type 0 where
  pub fingerprint : Text
  pub modules : List PlannedModule

-- `heuristicModuleize`
unfoldable pub heuristic_moduleize : Text → Text → ModuleizationPlan
heuristic_moduleize fingerprint summary = record {
  fingerprint = fingerprint;
  modules =
      record {
        name = if length summary % 7 % 2 == 0 then codes "repo-intake" else codes "signal-scan";
        version = codes "0.1.0";
        description = codes "A minimal module suggested by the agent to bootstrap modularization.";
        suggested_inputs = obj (
            field (codes "source") (str (codes "string"))
              (field (codes "mode") (str (codes "string")) end));
        suggested_outputs = obj (
            field (codes "report") (str (codes "string"))
              (field (codes "fingerprint") (str (codes "string")) end));
        safety_notes =
            codes "Validate inputs"
            ∷ codes "Avoid exfiltration"
            ∷ codes "Rate limit external calls"
            ∷ [];
      }
      ∷ [];
}

-- `v ?? {}`
abbrev or_empty : Option Json → Json
or_empty none = obj end
or_empty (some null) = obj end
or_empty (some v) = v

-- `String(v)`, with the text of a value that is no string as a parameter.
abbrev pub string_or : (Json → Text) → Json → Text
string_or other (str s) = s
string_or other v = other v

abbrev notes_of : (Json → Text) → Option Json → List Text
notes_of other (some (arr xs)) = map (string_or other) (items_list xs)
notes_of other _ = []

-- One entry of `obj.modules`, on which the access to `name` throws when it is null.
unfoldable pub planned_module : (Json → Text) → Json → Option PlannedModule
unfolding get items_list
planned_module other null = none
planned_module other x = some (record {
  name = text_or other (get (codes "name") x) (codes "module");
  version = text_or other (get (codes "version") x) (codes "0.1.0");
  description = text_or other (get (codes "description") x) [];
  suggested_inputs = or_empty (get (codes "suggestedInputs") x);
  suggested_outputs = or_empty (get (codes "suggestedOutputs") x);
  safety_notes = notes_of other (get (codes "safetyNotes") x);
})

abbrev add_module : Option PlannedModule → Option (List PlannedModule) → Option (List PlannedModule)
add_module (some m) (some ms) = some (m ∷ ms)
add_module _ _ = none

unfoldable pub planned_modules : (Json → Text) → Items → Option (List PlannedModule)
unfolding planned_module
planned_modules other nil = some []
planned_modules other (cons x xs) = add_module (planned_module other x) (planned_modules other xs)

abbrev modules_of : (Json → Text) → Option Json → Option (List PlannedModule)
modules_of other (some (arr xs)) = planned_modules other xs
modules_of other _ = none

abbrev plan_of : Text → Option (List PlannedModule) → Option ModuleizationPlan
plan_of fingerprint none = none
plan_of fingerprint (some ms) = some (record { fingerprint = fingerprint; modules = ms })

-- `parsePlan`; `none` is its null, also for a value that throws inside its `try`.
unfoldable pub parse_plan :
    (Text → Option Json) → (Json → Text) → Text → Text → Option ModuleizationPlan
unfolding fenced_json planned_modules get
parse_plan parse other text fingerprint = plan_of fingerprint do
  json_text ← fenced_json text
  json ← parse json_text
  modules_of other (get (codes "modules") json)

abbrev plan_or :
    (Text → Option ModuleizationPlan) → ModuleizationPlan → Result Text → Result ModuleizationPlan
plan_or parse_it plain (fail e) = fail e
plan_or parse_it plain (ok text) = ok (or_default (parse_it text) plain)

-- `moduleize`
unfoldable pub moduleize : Mind → LlmConfig → Observation → Text → Result ModuleizationPlan
unfolding heuristic_moduleize parse_plan observation_json call_llm by_prompt
moduleize m cfg o summary =
    let json = observation_json o in
    let fingerprint = m.sha256_hex (summary ++ m.stringify json) in
    let plain = heuristic_moduleize fingerprint summary in
    by_prompt cfg.mode (m.prompt (codes "moduleize.md")) (ok plain) (λ p.
      plan_or (λ t. parse_plan m.parse m.string_of t fingerprint) plain
        (call_llm m.parse m.ask cfg (
          p
          ++ 10 ∷ 10 ∷ codes "SUMMARY:"
          ++ 10 ∷ summary
          ++ 10 ∷ 10 ∷ codes "OBSERVATION_JSON:"
          ++ 10 ∷ m.pretty json)))

abbrev Marked : Text → ModuleizationPlan → Type 0
Marked fingerprint plan = plan.fingerprint ≡ fingerprint

plan_of-Marked :
    (fingerprint : Text) (ms : Option (List PlannedModule)) (plain : ModuleizationPlan)
    → Marked fingerprint plain
    → Marked fingerprint (or_default (plan_of fingerprint ms) plain)
plan_of-Marked fingerprint none plain h = h
plan_of-Marked fingerprint (some ms) plain h = refl

plan_or-Holds :
    (P : ModuleizationPlan → Type 0) (f : Text → Option ModuleizationPlan)
    (plain : ModuleizationPlan) (r : Result Text)
    → ((t : Text) → P (or_default (f t) plain))
    → Holds P (plan_or f plain r)
plan_or-Holds P f plain (fail e) h = tt
plan_or-Holds P f plain (ok t) h = h t

-- A plan of the step carries the fingerprint of the summary and the observation, whether the model
-- wrote it or not.
pub moduleize-fingerprint :
    (m : Mind) (cfg : LlmConfig) (o : Observation) (summary : Text) (plan : ModuleizationPlan)
    → moduleize m cfg o summary ≡ ok plan
    → plan.fingerprint ≡ m.sha256_hex (summary ++ m.stringify (observation_json o))
unfolding moduleize heuristic_moduleize parse_plan
moduleize-fingerprint m cfg o summary plan e =
    let fp = m.sha256_hex (summary ++ m.stringify (observation_json o)) in
    let plain = heuristic_moduleize fp summary in
    let parse_it : Text → Option ModuleizationPlan = λ t. parse_plan m.parse m.string_of t fp in
    Holds-ok (Marked fp) (moduleize m cfg o summary) plan
      (by_prompt-Holds (Holds (Marked fp)) cfg.mode _ _ _ refl
        (λ p. plan_or-Holds (Marked fp) parse_it plain _ (λ t. plan_of-Marked fp _ plain refl)))
      e
