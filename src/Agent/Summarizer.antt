-- ===== src/Agent/Summarizer.antt =====
-- apps-agent/src/cognition/summarizer.ts: the summary of an observation. `toISOString`, the reading
-- of the prompt, the indented `JSON.stringify` and SHA-256 are arguments.
pub mod Decimal
use psybot_ai.Base.{
  ℕ, zero, suc, ◌+◌, ◌/◌, ◌%◌, Option, none, some, List, [], ◌∷◌, ◌++◌, map, length, reverse, ltb,
  if◌then◌else◌, or_default,
}
use psybot_ai.Base.Text.{Text, codes, trim}
use psybot_ai.Base.Int.{pos}
use psybot_ai.Base.Json.{Json, num, str, arr, obj, Fields, end, field, list_items}
use psybot_ai.Agent.Observer.{RepoObs, PackageObs, OnchainObs, Observation}
use psybot_ai.Agent.Llm.{LlmConfig, Ask, Result, fail, ok, call_llm, by_prompt}

-- The digits of a number, the last one first; one unit of fuel for each digit is enough.
unfoldable decimal_reversed : ℕ → ℕ → Text
decimal_reversed zero n = []
decimal_reversed (suc fuel) n =
    let rest = decimal_reversed fuel (n / 10) in
    if ltb n 10 then (48 + n) ∷ [] else (48 + n % 10) ∷ rest

-- `${n}`
unfoldable pub decimal : ℕ → Text
unfolding decimal_reversed
decimal n = reverse (decimal_reversed (suc n) n)

-- `parts.join(sep)`
unfoldable pub join_text : Text → List Text → Text
join_text sep [] = []
join_text sep (p ∷ []) = p
join_text sep (p ∷ q ∷ ps) = p ++ sep ++ join_text sep (q ∷ ps)

abbrev repo_line : RepoObs → Text
repo_line r = codes "- " ++ r.repo ++ codes " head=" ++ or_default r.head_sha (codes "unknown")

abbrev package_line : PackageObs → Text
package_line p = codes "- " ++ p.pkg ++ codes " version=" ++ or_default p.version (codes "unknown")

abbrev github_lines : List RepoObs → List Text
github_lines [] = codes "GitHub: none" ∷ []
github_lines (r ∷ rs) =
    (codes "GitHub: " ++ decimal (length (r ∷ rs)) ++ codes " repo(s) checked")
    ∷ map repo_line (r ∷ rs)

abbrev npm_lines : List PackageObs → List Text
npm_lines [] = codes "NPM: none" ∷ []
npm_lines (p ∷ ps) =
    (codes "NPM: " ++ decimal (length (p ∷ ps)) ++ codes " package(s) checked")
    ∷ map package_line (p ∷ ps)

abbrev onchain_line : List OnchainObs → Text
onchain_line [] = codes "Onchain: none"
onchain_line (x ∷ xs) =
    codes "Onchain: "
    ++ join_text (codes ", ") (map (λ (o : OnchainObs). o.kind ++ codes ":" ++ o.note) (x ∷ xs))

unfoldable pub summary_lines : (ℕ → Text) → Observation → List Text
unfolding decimal join_text
summary_lines iso o =
    (codes "Observation @ " ++ iso o.at) ∷ github_lines o.github
    ++ npm_lines o.npm
    ++ onchain_line o.onchain ∷ []

-- `heuristicSummary`
unfoldable pub heuristic_summary : (ℕ → Text) → Observation → Text
unfolding summary_lines join_text
heuristic_summary iso o = join_text (10 ∷ []) (summary_lines iso o)

-- A field that `JSON.stringify` leaves out when it is undefined.
abbrev optional : Text → Option Text → Fields → Fields
optional k none fs = fs
optional k (some v) fs = field k (str v) fs

abbrev repo_json : RepoObs → Json
repo_json r = obj (
    field (codes "repo") (str r.repo)
      (optional (codes "headSha") r.head_sha (optional (codes "note") r.note end)))

abbrev package_json : PackageObs → Json
package_json p = obj (
    field (codes "pkg") (str p.pkg)
      (optional (codes "version") p.version (optional (codes "note") p.note end)))

abbrev onchain_json : OnchainObs → Json
onchain_json o = obj (field (codes "kind") (str o.kind) (field (codes "note") (str o.note) end))

unfoldable pub observation_json : Observation → Json
unfolding list_items
observation_json o = obj (
    field (codes "at") (num (pos o.at)) (
      field (codes "github") (arr (list_items (map repo_json o.github))) (
        field (codes "npm") (arr (list_items (map package_json o.npm)))
          (field (codes "onchain") (arr (list_items (map onchain_json o.onchain))) end))))

-- What the three steps of thought are given by the platform and the surroundings.
pub record Mind : Type 0 where
  pub iso : ℕ → Text
  pub stringify : Json → Text
  pub pretty : Json → Text
  pub parse : Text → Option Json
  pub string_of : Json → Text
  pub sha256_hex : Text → Text
  pub prompt : Text → Option Text
  pub ask : Ask

-- `text.trim()` of the model's reply.
abbrev trimmed : Text → Result Text → Result (Text × Text)
trimmed fingerprint (fail e) = fail e
trimmed fingerprint (ok s) = ok (trim s, fingerprint)

-- `summarize`: the summary and the fingerprint. An empty prompt counts as a missing one.
unfoldable pub summarize : Mind → LlmConfig → Observation → Result (Text × Text)
unfolding heuristic_summary observation_json call_llm trim by_prompt
summarize m cfg o =
    let json = observation_json o in
    let fingerprint = m.sha256_hex (m.stringify json) in
    let plain : Result (Text × Text) = ok (heuristic_summary m.iso o, fingerprint) in
    by_prompt cfg.mode (m.prompt (codes "summarize.md")) plain (λ p.
      trimmed fingerprint (
        call_llm m.parse m.ask cfg
          (p ++ 10 ∷ 10 ∷ codes "OBSERVATION_JSON:" ++ 10 ∷ m.pretty json)))
