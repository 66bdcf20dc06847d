-- ===== src/Agent/Policies.antt =====
-- apps-agent/src/policies: what the agent may do, and how much of it in one tick.
use psybot_ai.Base.{ℕ, Bool, true, false, ◌||◌, List, [], ◌∷◌}
use psybot_ai.Base.Text.{Text}

pub data Action : Type 0 where
  publish_module propose_fork run_module : Action

pub record Allowlist : Type 0 where
  pub github_repos : List Text
  pub npm_packages : List Text
  pub actions : List Action

abbrev pub default_allowlist : Allowlist
default_allowlist = record {
  github_repos = [];
  npm_packages = [];
  actions = publish_module ∷ propose_fork ∷ run_module ∷ [];
}

abbrev pub same_action : Action → Action → Bool
same_action publish_module publish_module = true
same_action propose_fork propose_fork = true
same_action run_module run_module = true
same_action _ _ = false

unfoldable pub listed : List Action → Action → Bool
listed [] a = false
listed (b ∷ bs) a = same_action b a || listed bs a

-- `isActionAllowed`
unfoldable pub is_action_allowed : Allowlist → Action → Bool
unfolding listed
is_action_allowed allow a = listed allow.actions a

pub record Limits : Type 0 where
  pub max_modules_per_tick : ℕ
  pub max_fork_suggestions_per_tick : ℕ
  pub max_actions_per_tick : ℕ
  pub max_payload_bytes : ℕ

abbrev pub default_limits : Limits
default_limits = record {
  max_modules_per_tick = 2;
  max_fork_suggestions_per_tick = 3;
  max_actions_per_tick = 3;
  max_payload_bytes = 2000000;
}

pub record SafetyPolicy : Type 0 where
  pub allow_network : Bool
  pub allow_publishing : Bool
  pub allow_running : Bool

abbrev pub default_safety_policy : SafetyPolicy
default_safety_policy = record {
  allow_network = true;
  allow_publishing = false;
  allow_running = false;
}
