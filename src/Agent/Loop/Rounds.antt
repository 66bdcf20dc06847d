-- ===== src/Agent/Loop/Rounds.antt =====
-- What the rounds of apps-agent/src/main.ts do to the agent's state.
use psybot_ai.Base.{◌≡◌, refl, ℕ, suc, ◌+◌, ◌≤◌, Option, List, [], ◌∷◌, length, length-take, arith}
use psybot_ai.Agent.State.{AgentState, sleep, record_error, push_summary, heartbeat}
use psybot_ai.Base.Text.{Text}
use psybot_ai.Agent.Observer.{Observation, Etags}
use psybot_ai.Agent.Actions.{Client}
use psybot_ai.Agent.Loop.{Setup, Surroundings, round, rounds, act, settled, remember}
use psybot_ai.Agent.Loop.Induction.{acted-ind, step-ind}

-- The state that `main` keeps: at most fifty summaries, and the round it has counted.
abbrev pub IsBounded : AgentState → Type 0
IsBounded state = length state.memory.recent_summaries ≤ 50

module _ {W : Type 0} (client : Client W) (setup : Setup) where
  -- What every change of a step keeps, a round keeps.
  round-ind :
      (Q : AgentState → Type 0)
      → ((state : AgentState) (now : ℕ) → Q state → Q (heartbeat state now).0)
      → ((state : AgentState) (o : Observation) (etags : Etags)
          → Q state
          → Q (remember state o etags))
      → ((state : AgentState) (now : ℕ) (source summary : Text)
          → Q state
          → Q (push_summary state now source summary))
      → ((state : AgentState) (now : ℕ) (message : Text) (stack : Option Text)
          → Q state
          → Q (record_error state now message stack))
      → ((state : AgentState) → Q state → Q (record state { phase = sleep }))
      → (s : Surroundings) (state : AgentState) (w : W) → Q (record state { tick = suc state.tick })
      → Q (round client setup s (state, w)).0
  unfolding round
  round-ind Q beating remembering pushing erring sleeping s state w q =
      let begun = record state { tick = suc state.tick } in
      sleeping _ (
        step-ind client setup s w Q (λ r. Q (settled client setup s begun r.0))
          (λ e. erring begun s.failed_at (setup.error_text e) s.stack q)
          (λ st plan forks p.
            acted-ind client setup (λ r. Q (settled client setup s begun r.0)) st
              (λ e v. erring begun s.failed_at (setup.error_text e) s.stack q) (λ v. sleeping st p)
              (act client setup plan forks w))
          remembering pushing begun q (beating begun s.beat_at q))

  round-IsBounded :
      (s : Surroundings) (state : AgentState) (w : W)
      → IsBounded state
      → IsBounded (round client setup s (state, w)).0
  unfolding heartbeat remember push_summary record_error
  round-IsBounded s state w h =
      round-ind IsBounded (λ st now b. b) (λ st o etags b. b)
        (λ st now source summary b. omega (
          arith,
          length-take 50 (
              record { at = now; source = source; summary = summary } ∷ st.memory.recent_summaries),
        ))
        (λ st now message stack b. b) (λ st b. b) s state w h

  round-tick :
      (s : Surroundings) (state : AgentState) (w : W)
      → (round client setup s (state, w)).0.tick ≡ suc state.tick
  unfolding heartbeat remember push_summary record_error
  round-tick s state w =
      round-ind (λ st. st.tick ≡ suc state.tick) (λ st now b. b) (λ st o etags b. b)
        (λ st now source summary b. b) (λ st now message stack b. b) (λ st b. b) s state w refl

  -- However the rounds go, the agent counts each of them, and it keeps at most fifty summaries if it
  -- kept no more before.
  pub rounds-IsBounded :
      (ss : List Surroundings) (state : AgentState) (w : W)
      → IsBounded state
      → ((rounds client setup ss (state, w)).0.tick ≡ length ss + state.tick)
        × IsBounded (rounds client setup ss (state, w)).0
  unfolding rounds
  rounds-IsBounded [] state w h = (omega arith, h)
  rounds-IsBounded (s ∷ ss) state w h =
      let next = round client setup s (state, w) in
      let (t, b) = rounds-IsBounded ss next.0 next.1 (round-IsBounded s state w h) in
      (omega (arith, t, round-tick s state w), b)
