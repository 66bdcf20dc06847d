-- ===== src/Agent/Loop/Policy.antt =====
-- What the agent's policies stop, and how much they let through: apps-agent/src/actions as
-- apps-agent/src/main.ts uses them.
use psybot_ai.Base.{
  ◌≡◌, refl, ap, ◌∙◌, ℕ, suc, Option-cases, ◌+◌, ◌*◌, ◌≤◌, Bool, true, false, List, [], ◌∷◌, take,
  length, inl, inr, arith, if◌then◌else◌, length-take,
}
use psybot_ai.Base.Text.{Text}
use psybot_ai.Agent.State.{AgentState}
use psybot_ai.Agent.Policies.{
  is_action_allowed, Allowlist, SafetyPolicy, publish_module, propose_fork,
}
use psybot_ai.Agent.Llm.{Result, fail, ok}
use psybot_ai.Agent.Moduleizer.{PlannedModule, ModuleizationPlan}
use psybot_ai.Agent.Forks.{ForkSuggestion}
use psybot_ai.Agent.Actions.{
  Client, Created, ForkCreated, lookup_id, publish_modules, propose_forks, publish_each,
  propose_each, Call-cases,
}
use psybot_ai.Base.Tests.{guarded}
use psybot_ai.Agent.Loop.{Setup, Surroundings, act, step, round, rounds, acted, proposed}
use psybot_ai.Agent.Loop.Induction.{step-ind}

-- A guard of two tests whose second is off.
second_off :
    {X : Type 0} (a b : Bool) (x y : X) → b ≡ false → (if a then (if b then x else y) else y) ≡ y
second_off true true x y h = absurd cc
second_off true false x y h = refl
second_off false b x y h = refl

module _ {W : Type 0} (client : Client W) where
  publish_modules-blocked :
      (allow : Allowlist) (safety : SafetyPolicy) (ms : List PlannedModule) (w : W)
      → safety.allow_publishing ≡ false
      → publish_modules client allow safety ms w ≡ (ok [], w)
  unfolding publish_modules
  publish_modules-blocked allow safety ms w h =
      second_off (is_action_allowed allow publish_module) safety.allow_publishing _ _ h

  propose_forks-blocked :
      (allow : Allowlist) (safety : SafetyPolicy) (made : List Created) (ss : List ForkSuggestion)
      (w : W)
      → safety.allow_publishing ≡ false
      → propose_forks client allow safety made ss w ≡ (ok [], w)
  unfolding propose_forks
  propose_forks-blocked allow safety made ss w h =
      second_off (is_action_allowed allow propose_fork) safety.allow_publishing _ _ h

  module _ (setup : Setup) where
    -- The world after a step that acts is the one after its actions.
    pub acted-world :
        (state : AgentState) (x : Result (List ForkCreated) × W)
        → (acted client setup state x).1 ≡ x.1
    acted-world state (fail e, v) = refl
    acted-world state (ok forks, v) = refl

    act-blocked :
        (plan : ModuleizationPlan) (forks : List ForkSuggestion) (w : W)
        → setup.safety.allow_publishing ≡ false
        → act client setup plan forks w ≡ (ok [], w)
    unfolding act
    act-blocked plan forks w h =
        let ms = take setup.limits.max_modules_per_tick plan.modules in
        ap (proposed client setup forks)
          (publish_modules-blocked setup.allowlist setup.safety ms w h)
        ∙ propose_forks-blocked setup.allowlist setup.safety []
            (take setup.limits.max_fork_suggestions_per_tick forks) w h

    step-blocked :
        (s : Surroundings) (state : AgentState) (w : W)
        → setup.safety.allow_publishing ≡ false
        → (step client setup s state w).world ≡ w
    unfolding step
    step-blocked s state w h =
        step-ind client setup s w (λ st. Unit) (λ r. r.1 ≡ w) (λ e. refl)
          (λ st plan forks q.
            acted-world st (act client setup plan forks w)
            ∙ ap (λ (x : Result (List ForkCreated) × W). x.1) (act-blocked plan forks w h))
          (λ st o etags q. tt) (λ st now source summary q. tt) state tt tt

    -- With publishing off, which is the default, no number of rounds touches the registry, whatever
    -- the network, the prompts and the model say.
    pub rounds-blocked :
        (ss : List Surroundings) (state : AgentState) (w : W)
        → setup.safety.allow_publishing ≡ false
        → (rounds client setup ss (state, w)).1 ≡ w
    unfolding rounds round
    rounds-blocked [] state w h = refl
    rounds-blocked (s ∷ ss) state w h =
        rounds-blocked ss _ _ h ∙ step-blocked s (record state { tick = suc state.tick }) w h

one_more : (n k a b c : ℕ) → a ≤ n * k + b → b ≤ k + c → a ≤ suc n * k + c
one_more n k a b c h g = grind arith

-- How many calls the registry has served, as its world counts them.
module _ {W : Type 0} (client : Client W) (calls : W → ℕ)
    (module_call : (m : PlannedModule) (w : W) → calls (client.create_module m w).1 ≤ suc (calls w))
    (fork_call : (i n : Text) (w : W) → calls (client.create_fork i n w).1 ≤ suc (calls w)) where
  publish_each-calls :
      (ms : List PlannedModule) (made : List Created) (w : W)
      → calls (publish_each client ms made w).1 ≤ length ms + calls w
  unfolding publish_each
  publish_each-calls [] made w = omega arith
  publish_each-calls (m ∷ ms) made w = elim (Call-cases (client.create_module m w).0) [
    | inl (x, d) ↦ rw (publish_each, d) (omega (arith, publish_each-calls ms _ _, module_call m w))
    | inr (inl d) ↦
        rw (publish_each, d) (omega (arith, publish_each-calls ms made _, module_call m w))
    | inr (inr d) ↦ rw (publish_each, d) (omega (arith, module_call m w))
  ]

  propose_each-calls :
      (made : List Created) (ss : List ForkSuggestion) (out : List ForkCreated) (w : W)
      → calls (propose_each client made ss out w).1 ≤ length ss + calls w
  unfolding propose_each
  propose_each-calls made [] out w = omega arith
  propose_each-calls made (s ∷ ss) out w = elim (Option-cases (lookup_id s.module_name made)) [
    | inl h ↦ rw (propose_each, h) (omega (arith, propose_each-calls made ss out w))
    | inr ([], h) ↦ rw (propose_each, h) (omega (arith, propose_each-calls made ss out w))
    | inr (c ∷ id, h) ↦
        let one = fork_call (c ∷ id) s.suggested_fork_notes w in
        elim (Call-cases (client.create_fork (c ∷ id) s.suggested_fork_notes w).0) [
          | inl (f, d) ↦
              rw (propose_each, h, d) (omega (arith, propose_each-calls made ss _ _, one))
          | inr (inl d) ↦
              rw (propose_each, h, d) (omega (arith, propose_each-calls made ss out _, one))
          | inr (inr d) ↦ rw (propose_each, h, d) (omega (arith, one))
        ]
  ]

  publish_modules-calls :
      (allow : Allowlist) (safety : SafetyPolicy) (ms : List PlannedModule) (w : W)
      → calls (publish_modules client allow safety ms w).1 ≤ length ms + calls w
  unfolding publish_modules
  publish_modules-calls allow safety ms w =
      guarded (λ (x : Result (List Created) × W). calls x.1 ≤ length ms + calls w)
        (is_action_allowed allow publish_module) safety.allow_publishing _ _
        (omega (arith, publish_each-calls ms [] w)) (omega arith)

  propose_forks-calls :
      (allow : Allowlist) (safety : SafetyPolicy) (made : List Created) (ss : List ForkSuggestion)
      (w : W)
      → calls (propose_forks client allow safety made ss w).1 ≤ length ss + calls w
  unfolding propose_forks
  propose_forks-calls allow safety made ss w =
      guarded (λ (x : Result (List ForkCreated) × W). calls x.1 ≤ length ss + calls w)
        (is_action_allowed allow propose_fork) safety.allow_publishing _ _
        (propose_each-calls made ss [] w) (omega arith)

  module _ (setup : Setup) where
    proposed-calls :
        (forks : List ForkSuggestion) (x : Result (List Created) × W)
        → calls (proposed client setup forks x).1
          ≤ setup.limits.max_fork_suggestions_per_tick + calls x.1
    proposed-calls forks (fail e, w) = omega arith
    proposed-calls forks (ok made, w) =
        let fs = take setup.limits.max_fork_suggestions_per_tick forks in
        omega (
          arith,
          propose_forks-calls setup.allowlist setup.safety made fs w,
          length-take setup.limits.max_fork_suggestions_per_tick forks,
        )

    act-calls :
        (plan : ModuleizationPlan) (forks : List ForkSuggestion) (w : W)
        → calls (act client setup plan forks w).1
          ≤ setup.limits.max_modules_per_tick + setup.limits.max_fork_suggestions_per_tick + calls w
    unfolding act
    act-calls plan forks w =
        let ms = take setup.limits.max_modules_per_tick plan.modules in
        omega (
          arith,
          proposed-calls forks (publish_modules client setup.allowlist setup.safety ms w),
          publish_modules-calls setup.allowlist setup.safety ms w,
          length-take setup.limits.max_modules_per_tick plan.modules,
        )

    step-calls :
        (s : Surroundings) (state : AgentState) (w : W)
        → calls (step client setup s state w).world
          ≤ setup.limits.max_modules_per_tick + setup.limits.max_fork_suggestions_per_tick + calls w
    step-calls s state w =
        step-ind client setup s w (λ st. Unit)
          (λ r.
            calls r.1
            ≤ setup.limits.max_modules_per_tick
              + setup.limits.max_fork_suggestions_per_tick
              + calls w)
          (λ e'. omega arith)
          (λ st plan forks q.
            rw (acted-world client setup st (act client setup plan forks w))
              (act-calls plan forks w))
          (λ st o etags q. tt) (λ st now source summary q. tt) state tt tt

    -- Where the world counts the calls that make a module or a fork, the rounds add at most the
    -- configured numbers of modules and of forks each, whatever the plans and the suggestions say.
    pub rounds-calls :
        (ss : List Surroundings) (state : AgentState) (w : W)
        → calls (rounds client setup ss (state, w)).1
          ≤ length ss
              * (setup.limits.max_modules_per_tick + setup.limits.max_fork_suggestions_per_tick)
            + calls w
    unfolding rounds round
    rounds-calls [] state w = omega arith
    rounds-calls (s ∷ ss) state w =
        let begun = record state { tick = suc state.tick } in
        let next = round client setup s (state, w) in
        one_more (length ss)
          (setup.limits.max_modules_per_tick + setup.limits.max_fork_suggestions_per_tick) _ _ _
          (rounds-calls ss next.0 next.1) (step-calls s begun w)
