-- ===== src/Agent/Loop/Induction.antt =====
-- How to prove a statement of every outcome of a step of apps-agent/src/main.ts.
use psybot_ai.Base.{if_holds, ◌==◌, ◌%◌, ℕ, Option, none, some, List}
use psybot_ai.Base.Text.{Text}
use psybot_ai.Agent.State.{AgentState, heartbeat, sleep, push_summary}
use psybot_ai.Agent.Observer.{Observation, Etags}
use psybot_ai.Agent.Llm.{Failure, invalid_repo, Result, fail, ok}
use psybot_ai.Agent.Moduleizer.{ModuleizationPlan}
use psybot_ai.Agent.Forks.{ForkSuggestion}
use psybot_ai.Agent.Actions.{Client, ForkCreated}
use psybot_ai.Agent.Loop.{
  Setup, Surroundings, step, remember, act, acted, with_forks, with_plan, with_summary,
  with_observation,
}

-- What holds of every end of a step.
pub acted-ind :
    {W : Type 0} (client : Client W) (setup : Setup) (P : Result AgentState × W → Type 0)
    (state : AgentState)
    → ((e : Failure) (v : W) → P (fail e, v))
    → ((v : W) → P (ok (record state { phase = sleep }), v))
    → (x : Result (List ForkCreated) × W) → P (acted client setup state x)
acted-ind client setup P state failing acting (fail e, v) = failing e v
acted-ind client setup P state failing acting (ok forks, v) = acting v

-- `Q` is kept by what a step does to the state, and `P` holds of a failure and of a step that acts.
module _ {W : Type 0} (client : Client W) (setup : Setup) (s : Surroundings) (w : W)
    (Q : AgentState → Type 0) (P : Result AgentState × W → Type 0)
    (failing : (e : Failure) → P (fail e, w))
    (acting : (state : AgentState) (plan : ModuleizationPlan) (forks : List ForkSuggestion)
      → Q state
      → P (acted client setup state (act client setup plan forks w)))
    (remembering : (state : AgentState) (o : Observation) (etags : Etags)
      → Q state
      → Q (remember state o etags))
    (pushing : (state : AgentState) (now : ℕ) (source summary : Text)
      → Q state
      → Q (push_summary state now source summary)) where
  with_forks-ind :
      (state : AgentState) (plan : ModuleizationPlan) (r : Result (List ForkSuggestion))
      → Q state
      → P (with_forks client setup state plan w r)
  with_forks-ind state plan (fail e) q = failing e
  with_forks-ind state plan (ok forks) q = acting state plan forks q

  with_plan-ind :
      (state : AgentState) (summary : Text) (r : Result ModuleizationPlan)
      → Q state
      → P (with_plan client setup s state summary w r)
  with_plan-ind state summary (fail e) q = failing e
  with_plan-ind state summary (ok plan) q = with_forks-ind state plan _ q

  with_summary-ind :
      (state : AgentState) (o : Observation) (r : Result (Text × Text))
      → Q state
      → P (with_summary client setup s state o w r)
  with_summary-ind state o (fail e) q = failing e
  with_summary-ind state o (ok (summary, fingerprint)) q =
      with_plan-ind _ summary _ (pushing state _ _ summary q)

  with_observation-ind :
      (state : AgentState) (x : Option (Observation × Etags))
      → Q state
      → P (with_observation client setup s state w x)
  with_observation-ind state none q = failing invalid_repo
  with_observation-ind state (some (o, etags)) q =
      with_summary-ind _ o _ (remembering state o etags q)

  pub step-ind :
      (state : AgentState)
      → Q state
      → Q (heartbeat state s.beat_at).0
      → P ((step client setup s state w).result, (step client setup s state w).world)
  unfolding step heartbeat
  step-ind state q h =
      with_observation-ind _ _
        (if_holds Q (state.tick % 3 == 0) (heartbeat state s.beat_at).0 state h q)
