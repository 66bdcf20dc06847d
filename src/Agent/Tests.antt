-- ===== src/Agent/Tests.antt =====
-- The theorems about the agent at concrete inputs.
use psybot_ai.Base.{
  ◌≡◌, refl, if◌then◌else◌, ℕ, suc, ◌+◌, ◌*◌, ◌≤◌, true, false, none, some, List, [], ◌∷◌, length,
  arith,
}
use psybot_ai.Base.Text.{Text, codes, text_eq}
use psybot_ai.Agent.State.{AgentState, create_initial_state}
use psybot_ai.Agent.Cache.Replay.{Call, get_at, set_at, delete_it, run, replay, run-replay}
use psybot_ai.Agent.Cache.{MemoryCache, get, set, delete}
use psybot_ai.Agent.Cache.Lookup.{view}
use psybot_ai.Agent.Policies.{
  default_allowlist, default_limits, default_safety_policy, SafetyPolicy,
}
use psybot_ai.Agent.Sources.{get_default_branch_head, get_package_meta}
use psybot_ai.Agent.Observer.{Observation, ObserveConfig, Etags, observe, parse_repo}
use psybot_ai.Agent.Llm.{heuristic, llm, LlmConfig, endpoint_required, no_method, fail, ok}
use psybot_ai.Agent.Summarizer.{Mind}
use psybot_ai.Agent.Moduleizer.{ModuleizationPlan, moduleize, heuristic_moduleize}
use psybot_ai.Agent.Forks.{ForkSuggestion}
use psybot_ai.Agent.Actions.{Client, Created, done, caught, nuttoo_client}
use psybot_ai.Agent.Loop.{Setup, Surroundings, act, step, rounds}
use psybot_ai.Agent.Loop.Policy.{rounds-blocked, rounds-calls}
use psybot_ai.Agent.Loop.Failing.{step-failed, would_publish, rounds-nuttoo_client}
use psybot_ai.Agent.Loop.Rounds.{IsBounded, rounds-IsBounded}

abbrev observe_cfg : List Text → ObserveConfig
observe_cfg repos = record {
  github_enabled = true;
  repos = repos;
  npm_enabled = true;
  packages = codes "left" ∷ [];
  onchain_enabled = false;
  api_base_url = none;
}

abbrev seen : Observation
seen = record {
  at = 5;
  github = record { repo = codes "a/b"; head_sha = none; note = some (codes "unavailable") } ∷ [];
  npm = record { pkg = codes "left"; version = none; note = some (codes "unavailable") } ∷ [];
  onchain = [];
}

abbrev no_etags : Etags
no_etags = record { github = none; npm = none }

observed :
    observe (λ j. []) (λ s. s) (λ url. none) (observe_cfg (codes "a/b" ∷ [])) 5
    ≡ some (seen, no_etags)
unfolding observe parse_repo get_default_branch_head get_package_meta
observed = refl

abbrev mind : Mind
mind = record {
  iso = λ n. codes "now";
  stringify = λ j. codes "{}";
  pretty = λ j. codes "{}";
  parse = λ s. none;
  string_of = λ j. [];
  sha256_hex = λ s. s;
  prompt = λ s. some (codes "p");
  ask = λ url body. none;
}

abbrev plain_cfg : LlmConfig
plain_cfg = record { mode = heuristic; endpoint = none; model = codes "m" }

abbrev llm_cfg : LlmConfig
llm_cfg = record { mode = llm; endpoint = none; model = codes "m" }

abbrev plan : ModuleizationPlan
plan = heuristic_moduleize (codes "s{}") (codes "s")

planned : moduleize mind plain_cfg seen (codes "s") ≡ ok plan
unfolding moduleize
planned = refl

-- A registry whose world is the number of calls it has served.
abbrev client : Client ℕ
client = record {
  create_module = λ m w. (done (record { id = codes "i"; name = m.name }), suc w);
  create_fork = λ id notes w. (done (codes "f"), suc w);
  create_run = λ run w. (caught, suc w);
}

abbrev setup : List Text → LlmConfig → SafetyPolicy → Setup
setup repos cfg safety = record {
  observe_cfg = observe_cfg repos;
  summarize_cfg = plain_cfg;
  moduleize_cfg = cfg;
  fork_cfg = plain_cfg;
  allowlist = default_allowlist;
  limits = default_limits;
  safety = safety;
  string_of = λ j. [];
  encode_component = λ s. s;
  error_text = λ e. codes "failed";
}

abbrev open_policy : SafetyPolicy
open_policy = record { allow_network = true; allow_publishing = true; allow_running = true }

abbrev around : Surroundings
around = record {
  net = λ url. none;
  mind = mind;
  beat_at = 1;
  observed_at = 2;
  summarized_at = 3;
  failed_at = 4;
  stack = none;
}

abbrev initial : AgentState
initial = create_initial_state (codes "agent") 0

abbrev usual : Setup
usual = setup (codes "a/b" ∷ []) plain_cfg default_safety_policy

abbrev willing : Setup
willing = setup (codes "a/b" ∷ []) plain_cfg open_policy

-- The third step fails: no endpoint is configured.
abbrev failing : Setup
failing = setup (codes "a/b" ∷ []) llm_cfg open_policy

rounds-blocked_example : (rounds client usual (around ∷ around ∷ []) (initial, 0)).1 ≡ 0
rounds-blocked_example = rounds-blocked client usual (around ∷ around ∷ []) initial 0 refl

abbrev begun : AgentState
begun = record initial { tick = suc initial.tick }

step_fails : (step client failing around begun 0).result ≡ fail endpoint_required
unfolding step observe parse_repo
step_fails = refl

step-failed_example : (step client failing around begun 0).world ≡ 0
step-failed_example =
    step-failed client failing around begun 0 endpoint_required step_fails (λ h. cc)

rounds-calls_example :
    (rounds client willing (around ∷ []) (initial, 0)).1 ≤ length (around ∷ []) * (2 + 3) + 0
rounds-calls_example =
    rounds-calls client (λ w. w) (λ m w. omega arith) (λ i n w. omega arith) willing (around ∷ [])
      initial 0

-- One module and one fork of it are asked for.
willing_calls : (rounds client willing (around ∷ []) (initial, 0)).1 ≡ 2
unfolding rounds get_default_branch_head get_package_meta
willing_calls = refl

rounds-nuttoo_client_example :
    ((rounds {W = ℕ} nuttoo_client willing (around ∷ around ∷ []) (initial, 0)).1 ≡ 0)
    × (act {W = ℕ} nuttoo_client willing plan [] 0
        ≡ (if would_publish willing plan then (fail no_method, 0) else (ok [], 0)))
rounds-nuttoo_client_example = rounds-nuttoo_client willing (around ∷ around ∷ []) initial 0 plan []

-- A step that would publish fails.
step_throws : (step {W = ℕ} nuttoo_client willing around begun 0).result ≡ fail no_method
unfolding step get_default_branch_head get_package_meta
step_throws = refl

rounds-IsBounded_example :
    ((rounds client willing (around ∷ []) (initial, 0)).0.tick
      ≡ length (around ∷ []) + initial.tick)
    × IsBounded (rounds client willing (around ∷ []) (initial, 0)).0
unfolding create_initial_state
rounds-IsBounded_example = rounds-IsBounded client willing (around ∷ []) initial 0 (omega arith)

abbrev made : List Created
made = record { id = codes "i"; name = codes "n" } ∷ []

abbrev wanted : List ForkSuggestion
wanted =
    record { module_name = codes "n"; rationale = []; suggested_fork_notes = [] }
    ∷ record { module_name = codes "other"; rationale = []; suggested_fork_notes = [] }
    ∷ []

abbrev cache : MemoryCache ℕ
cache = record {
  map =
      (codes "a", record { value = 1; expires_at = 10 })
      ∷ (codes "b", record { value = 2; expires_at = 20 })
      ∷ [];
  default_ttl_ms = 5;
}

abbrev calls : List (Call ℕ)
calls =
    get_at 9 (codes "a")
    ∷ get_at 12 (codes "a")
    ∷ set_at 13 (codes "a") 7 none
    ∷ delete_it (codes "b")
    ∷ get_at 14 (codes "a")
    ∷ []

run-replay_example : run calls cache ≡ replay cache.default_ttl_ms calls (λ now j. view now j cache)
run-replay_example =
    run-replay calls 0 cache (omega arith, (omega arith, (omega arith, (omega arith, tt))))

run_calls : run calls cache ≡ some 1 ∷ none ∷ some 7 ∷ []
unfolding run get set delete text_eq
run_calls = refl
