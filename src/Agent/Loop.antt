-- ===== src/Agent/Loop.antt =====
-- apps-agent/src/main.ts: the rounds of the agent.
pub mod Induction
pub mod Policy
pub mod Failing
pub mod Rounds
use psybot_ai.Base.{
  ℕ, suc, ◌%◌, Option, none, some, List, [], ◌∷◌, take, ◌==◌, if◌then◌else◌, or_else,
}
use psybot_ai.Base.Text.{Text, codes}
use psybot_ai.Base.Json.{Json}
use psybot_ai.Agent.State.{
  AgentPhase, AgentState, Heartbeat, sleep, record_error, push_summary, heartbeat,
}
use psybot_ai.Agent.Policies.{Allowlist, Limits, SafetyPolicy}
use psybot_ai.Agent.Sources.{Network}
use psybot_ai.Agent.Observer.{Observation, ObserveConfig, Etags, observe}
use psybot_ai.Agent.Llm.{LlmConfig, Failure, invalid_repo, Result, fail, ok}
use psybot_ai.Agent.Summarizer.{Mind, summarize}
use psybot_ai.Agent.Moduleizer.{ModuleizationPlan, moduleize}
use psybot_ai.Agent.Forks.{ForkSuggestion, suggest_forks}
use psybot_ai.Agent.Actions.{Client, Created, ForkCreated, publish_modules, propose_forks}

-- What does not change between the rounds.
pub record Setup : Type 0 where
  pub observe_cfg : ObserveConfig
  pub summarize_cfg : LlmConfig
  pub moduleize_cfg : LlmConfig
  pub fork_cfg : LlmConfig
  pub allowlist : Allowlist
  pub limits : Limits
  pub safety : SafetyPolicy
  pub string_of : Json → Text
  pub encode_component : Text → Text
  pub error_text : Failure → Text

-- What one round finds: the network, the platform with the prompts and the model, and the clock.
pub record Surroundings : Type 0 where
  pub net : Network
  pub mind : Mind
  pub beat_at : ℕ
  pub observed_at : ℕ
  pub summarized_at : ℕ
  pub failed_at : ℕ
  pub stack : Option Text

-- What a step gives: what the heartbeat's sink received, and the new state with the world, or the
-- failure it throws. The world is the registry's.
pub record Step (W : Type 0) : Type 0 where
  pub beats : List Heartbeat
  pub result : Result AgentState
  pub world : W

-- The state once the observation is made.
unfoldable pub remember : AgentState → Observation → Etags → AgentState
remember state o etags = record state {
  phase = AgentPhase.observe;
  memory = record (state.memory) {
    last_observed = some o.at;
    last_github_etag = or_else etags.github state.memory.last_github_etag;
    last_npm_etag = or_else etags.npm state.memory.last_npm_etag;
  };
}

module _ {W : Type 0} (client : Client W) (setup : Setup) where
  -- The forks of what was published, or the failure of publishing.
  abbrev pub proposed :
      List ForkSuggestion → Result (List Created) × W → Result (List ForkCreated) × W
  proposed forks (fail e, w) = (fail e, w)
  proposed forks (ok published, w) =
      propose_forks client setup.allowlist setup.safety published
        (take setup.limits.max_fork_suggestions_per_tick forks) w

  -- The actions, once every thought is made: publish, then propose forks of what was published.
  unfoldable pub act : ModuleizationPlan → List ForkSuggestion → W → Result (List ForkCreated) × W
  unfolding publish_modules propose_forks
  act plan forks w = proposed forks (
      publish_modules client setup.allowlist setup.safety
        (take setup.limits.max_modules_per_tick plan.modules) w)

  -- The end of a step: a call of a method that is not there throws.
  abbrev pub acted : AgentState → Result (List ForkCreated) × W → Result AgentState × W
  acted state (fail e, w) = (fail e, w)
  acted state (ok forks, w) = (ok (record state { phase = sleep }), w)

  -- The rest of `step` after the heartbeat, written from its end.
  abbrev pub with_forks :
      AgentState → ModuleizationPlan → W → Result (List ForkSuggestion) → Result AgentState × W
  with_forks state plan w (fail e) = (fail e, w)
  with_forks state plan w (ok forks) = acted state (act plan forks w)

  abbrev pub with_plan :
      Surroundings → AgentState → Text → W → Result ModuleizationPlan → Result AgentState × W
  with_plan s state summary w (fail e) = (fail e, w)
  with_plan s state summary w (ok plan) =
      let cut = record plan { modules = take setup.limits.max_modules_per_tick plan.modules } in
      with_forks state plan w (suggest_forks s.mind setup.fork_cfg cut summary)

  abbrev pub with_summary :
      Surroundings → AgentState → Observation → W → Result (Text × Text) → Result AgentState × W
  with_summary s state o w (fail e) = (fail e, w)
  with_summary s state o w (ok (summary, fingerprint)) =
      with_plan s (push_summary state s.summarized_at (codes "observation") summary) summary w
        (moduleize s.mind setup.moduleize_cfg o summary)

  abbrev pub with_observation :
      Surroundings → AgentState → W → Option (Observation × Etags) → Result AgentState × W
  with_observation s state w none = (fail invalid_repo, w)
  with_observation s state w (some (o, etags)) =
      with_summary s (remember state o etags) o w (summarize s.mind setup.summarize_cfg o)

  -- `step`. The heartbeat is sent every third round, whatever the schedule says.
  unfoldable pub step : Surroundings → AgentState → W → Step W
  unfolding act remember push_summary suggest_forks moduleize summarize observe heartbeat
  step s state w =
      let (beating, beat) = heartbeat state s.beat_at in
      let due = state.tick % 3 == 0 in
      let (result, world) =
        with_observation s (if due then beating else state) w
          (observe setup.string_of setup.encode_component s.net setup.observe_cfg s.observed_at) in
      record { beats = if due then beat ∷ [] else []; result = result; world = world }

  -- The state after a step: a failed one only leaves its error.
  abbrev pub settled : Surroundings → AgentState → Result AgentState → AgentState
  settled s state (fail e) = record_error state s.failed_at (setup.error_text e) s.stack
  settled s state (ok next) = next

  -- One round of the loop of `main`, without the sleep.
  unfoldable pub round : Surroundings → AgentState × W → AgentState × W
  unfolding step record_error
  round s (state, w) =
      let begun = record state { tick = suc state.tick } in
      let r = step s begun w in (record (settled s begun r.result) { phase = sleep }, r.world)

  -- As many rounds as surroundings are given.
  unfoldable pub rounds : List Surroundings → AgentState × W → AgentState × W
  unfolding round
  rounds [] x = x
  rounds (s ∷ ss) x = rounds ss (round s x)
