-- ===== src/Agent/Loop/Failing.antt =====
-- What the agent does when the client of the registry has no such method, and when a step fails:
-- apps-agent/src/actions and apps-agent/src/main.ts.
use psybot_ai.Base.{
  ◌≡◌, ◌≢◌, refl, ap, sym, suc, ◌∙◌, List, [], ◌∷◌, take, inl, inr, Option-cases, Bool, true, false,
  ◌&&◌, if◌then◌else◌, if_holds,
}
use psybot_ai.Base.Tests.{guarded}
use psybot_ai.Agent.State.{AgentState}
use psybot_ai.Agent.Policies.{is_action_allowed, publish_module, propose_fork}
use psybot_ai.Agent.Llm.{Failure, no_method, Result, fail, ok}
use psybot_ai.Agent.Moduleizer.{PlannedModule, ModuleizationPlan}
use psybot_ai.Agent.Forks.{ForkSuggestion}
use psybot_ai.Agent.Actions.{
  Client, Call-cases, Created, ForkCreated, lookup_id, publish_modules, propose_forks, publish_each,
  propose_each, nuttoo_client,
}
use psybot_ai.Agent.Loop.{Setup, Surroundings, proposed, act, acted, step, round, rounds}
use psybot_ai.Agent.Loop.Policy.{acted-world}
use psybot_ai.Agent.Loop.Induction.{step-ind}

-- A failure is that of a missing method.
abbrev LacksMethod : {A : Type 0} → Result A → Type 0
LacksMethod (fail e) = e ≡ no_method
LacksMethod (ok a) = Unit

abbrev failure_of : {A : Type 0} → Result A → Failure
failure_of (fail e) = e
failure_of (ok a) = no_method

ok-fail : {A : Type 0} {a : A} {e : Failure} → ok a ≡ fail e → ⊥
ok-fail h = cc

module _ {W : Type 0} (client : Client W) where
  publish_each-LacksMethod :
      (ms : List PlannedModule) (made : List Created) (w : W)
      → LacksMethod (publish_each client ms made w).0
  unfolding publish_each
  publish_each-LacksMethod [] made w = tt
  publish_each-LacksMethod (m ∷ ms) made w = elim (Call-cases (client.create_module m w).0) [
    | inl (x, d) ↦ rw (publish_each, d) (publish_each-LacksMethod ms _ _)
    | inr (inl d) ↦ rw (publish_each, d) (publish_each-LacksMethod ms made _)
    | inr (inr d) ↦ rw (publish_each, d) refl
  ]

  propose_each-LacksMethod :
      (made : List Created) (ss : List ForkSuggestion) (out : List ForkCreated) (w : W)
      → LacksMethod (propose_each client made ss out w).0
  unfolding propose_each
  propose_each-LacksMethod made [] out w = tt
  propose_each-LacksMethod made (s ∷ ss) out w =
      elim (Option-cases (lookup_id s.module_name made)) [
        | inl h ↦ rw (propose_each, h) (propose_each-LacksMethod made ss out w)
        | inr ([], h) ↦ rw (propose_each, h) (propose_each-LacksMethod made ss out w)
        | inr (c ∷ id, h) ↦
            elim (Call-cases (client.create_fork (c ∷ id) s.suggested_fork_notes w).0) [
              | inl (f, d) ↦ rw (propose_each, h, d) (propose_each-LacksMethod made ss _ _)
              | inr (inl d) ↦ rw (propose_each, h, d) (propose_each-LacksMethod made ss out _)
              | inr (inr d) ↦ rw (propose_each, h, d) refl
            ]
      ]

  module _ (setup : Setup) where
    proposed-LacksMethod :
        (forks : List ForkSuggestion) (x : Result (List Created) × W)
        → LacksMethod x.0
        → LacksMethod (proposed client setup forks x).0
    unfolding propose_forks
    proposed-LacksMethod forks (fail e, w) h = h
    proposed-LacksMethod forks (ok made, w) h =
        guarded (λ (x : Result (List ForkCreated) × W). LacksMethod x.0)
          (is_action_allowed setup.allowlist propose_fork) setup.safety.allow_publishing _ _
          (propose_each-LacksMethod made (take setup.limits.max_fork_suggestions_per_tick forks) []
            w)
          tt

    act-LacksMethod :
        (plan : ModuleizationPlan) (forks : List ForkSuggestion) (w : W)
        → LacksMethod (act client setup plan forks w).0
    unfolding act publish_modules
    act-LacksMethod plan forks w = proposed-LacksMethod forks _ (
        guarded (λ (x : Result (List Created) × W). LacksMethod x.0)
          (is_action_allowed setup.allowlist publish_module) setup.safety.allow_publishing _ _
          (publish_each-LacksMethod (take setup.limits.max_modules_per_tick plan.modules) [] w) tt)

    acted-untouched :
        (state : AgentState) (x : Result (List ForkCreated) × W) (w : W) (e : Failure)
        → LacksMethod x.0
        → e ≢ no_method
        → (acted client setup state x).0 ≡ fail e
        → (acted client setup state x).1 ≡ w
    acted-untouched state (fail e', v) w e h n k = absurd (n (sym (ap failure_of k) ∙ h))
    acted-untouched state (ok forks, v) w e h n k = absurd (ok-fail k)

    -- A step that fails has not touched the registry, unless it fails in its actions, which only a
    -- method that the client does not have can make it do.
    pub step-failed :
        (s : Surroundings) (state : AgentState) (w : W) (e : Failure)
        → (step client setup s state w).result ≡ fail e
        → e ≢ no_method
        → (step client setup s state w).world ≡ w
    unfolding step
    step-failed s state w e h n =
        step-ind client setup s w (λ st. Unit) (λ r. r.0 ≡ fail e → r.1 ≡ w) (λ e' k. refl)
          (λ st plan forks q k.
            acted-untouched st (act client setup plan forks w) w e (act-LacksMethod plan forks w) n
              k)
          (λ st o etags q. tt) (λ st now source summary q. tt) state tt tt h

abbrev pub holds_any : List PlannedModule → Bool
holds_any [] = false
holds_any (_ ∷ _) = true

-- Whether the actions of a step reach a call of the client.
abbrev pub would_publish : Setup → ModuleizationPlan → Bool
would_publish setup plan =
    is_action_allowed setup.allowlist publish_module
    && setup.safety.allow_publishing
    && holds_any (take setup.limits.max_modules_per_tick plan.modules)

-- The client that the source has.
module _ {W : Type 0} where
  publishes :
      (a b : Bool) (ms : List PlannedModule) (w : W)
      → (if a then (if b then publish_each nuttoo_client ms [] w else (ok [], w)) else (ok [], w))
        ≡ (if a && b && holds_any ms then (fail no_method, w) else (ok [], w))
  unfolding publish_each
  publishes true true [] w = refl
  publishes true true (m ∷ ms) w = refl
  publishes true false ms w = refl
  publishes false b ms w = refl

  -- No fork is proposed of a module that was not made.
  propose_each-none :
      (ss : List ForkSuggestion) (w : W) → propose_each nuttoo_client [] ss [] w ≡ (ok [], w)
  unfolding propose_each lookup_id
  propose_each-none [] w = refl
  propose_each-none (s ∷ ss) w = propose_each-none ss w

module _ {W : Type 0} (setup : Setup) where
  proposes :
      (c : Bool) (forks : List ForkSuggestion) (w : W)
      → proposed nuttoo_client setup forks (if c then (fail no_method, w) else (ok [], w))
        ≡ (if c then (fail no_method, w) else (ok [], w))
  unfolding propose_forks
  proposes true forks w = refl
  proposes false forks w =
      guarded (λ (x : Result (List ForkCreated) × W). x ≡ (ok [], w))
        (is_action_allowed setup.allowlist propose_fork) setup.safety.allow_publishing _ _
        (propose_each-none (take setup.limits.max_fork_suggestions_per_tick forks) w) refl

  act-nuttoo_client :
      (plan : ModuleizationPlan) (forks : List ForkSuggestion) (w : W)
      → act nuttoo_client setup plan forks w
        ≡ (if would_publish setup plan then (fail no_method, w) else (ok [], w))
  unfolding act publish_modules
  act-nuttoo_client plan forks w =
      ap (proposed nuttoo_client setup forks) (
        publishes (is_action_allowed setup.allowlist publish_module) setup.safety.allow_publishing
          (take setup.limits.max_modules_per_tick plan.modules) w)
      ∙ proposes (would_publish setup plan) forks w

  step-nuttoo_client :
      (s : Surroundings) (state : AgentState) (w : W)
      → (step nuttoo_client setup s state w).world ≡ w
  unfolding step
  step-nuttoo_client s state w =
      step-ind nuttoo_client setup s w (λ st. Unit) (λ r. r.1 ≡ w) (λ e. refl)
        (λ st plan forks q.
          acted-world nuttoo_client setup st (act nuttoo_client setup plan forks w)
          ∙ rw (act-nuttoo_client plan forks w) (
              if_holds (λ (x : Result (List ForkCreated) × W). x.1 ≡ w) (would_publish setup plan) _
                _ refl refl))
        (λ st o etags q. tt) (λ st now source summary q. tt) state tt tt

  rounds-untouched :
      (ss : List Surroundings) (state : AgentState) (w : W)
      → (rounds nuttoo_client setup ss (state, w)).1 ≡ w
  unfolding rounds round
  rounds-untouched [] state w = refl
  rounds-untouched (s ∷ ss) state w =
      rounds-untouched ss _ _ ∙ step-nuttoo_client s (record state { tick = suc state.tick }) w

  -- With the client of packages/sdk, which has none of the three methods, no number of rounds
  -- touches the registry. The actions of a step fail for the missing method just if the policies
  -- allow publishing and a module is planned within the limit; otherwise they do nothing.
  pub rounds-nuttoo_client :
      (ss : List Surroundings) (state : AgentState) (w : W) (plan : ModuleizationPlan)
      (forks : List ForkSuggestion)
      → ((rounds nuttoo_client setup ss (state, w)).1 ≡ w)
        × (act nuttoo_client setup plan forks w
            ≡ (if would_publish setup plan then (fail no_method, w) else (ok [], w)))
  rounds-nuttoo_client ss state w plan forks =
      (rounds-untouched ss state w, act-nuttoo_client plan forks w)
