-- ===== src/Agent/Actions.antt =====
-- apps-agent/src/actions: what the agent asks of the registry. The client of the registry and its
-- world are parameters; NuttooClient of packages/sdk is one of the clients.
pub mod Made
use psybot_ai.Base.{
  ◌≡◌, refl, ◌⊎◌, inl, inr, Option, none, some, List, [], ◌∷◌, ◌++◌, if◌then◌else◌,
}
use psybot_ai.Base.Text.{Text, text_eq}
use psybot_ai.Base.Json.{Json}
use psybot_ai.Agent.Policies.{
  publish_module, propose_fork, run_module, Allowlist, is_action_allowed, SafetyPolicy,
}
use psybot_ai.Agent.Llm.{no_method, Result, fail, ok}
use psybot_ai.Agent.Moduleizer.{PlannedModule}
use psybot_ai.Agent.Forks.{ForkSuggestion}

pub record Created : Type 0 where
  pub id : Text
  pub name : Text

pub record ForkCreated : Type 0 where
  pub id : Text
  pub module_id : Text

pub record NewRun : Type 0 where
  pub module_id : Text
  pub fork_id : Option Text
  pub input : Json

-- What a call gives: a value, an error of the promise, which the source catches, or an error before
-- there is a promise, as of a method that the client does not have, which `.catch` does not see.
pub data Call (A : Type 0) : Type 0 where
  done : A → Call A
  caught threw : Call A

pub Call-cases : {A : Type 0} (c : Call A) → ((a : A) × (c ≡ done a)) ⊎ ((c ≡ caught) ⊎ (c ≡ threw))
Call-cases (done a) = inl (a, refl)
Call-cases caught = inr (inl refl)
Call-cases threw = inr (inr refl)

pub record Client (W : Type 0) : Type 0 where
  pub create_module : PlannedModule → W → Call Created × W
  pub create_fork : Text → Text → W → Call Text × W
  pub create_run : NewRun → W → Call Text × W

-- `Map.get` on a map that is made of these pairs: of two with one key the last counts.
unfoldable pub lookup_id : Text → List Created → Option Text
unfolding text_eq
lookup_id name [] = none
lookup_id name (m ∷ ms) =
    let later = lookup_id name ms in
    elim later [ some id ↦ some id | none ↦ if text_eq m.name name then some m.id else none ]

-- NuttooClient as the agent uses it: the class has `get`, `post` and `request` only.
abbrev pub nuttoo_client : {W : Type 0} → Client W
nuttoo_client = record {
  create_module = λ m w. (threw, w);
  create_fork = λ module_id notes w. (threw, w);
  create_run = λ run w. (threw, w);
}

module _ {W : Type 0} (client : Client W) where
  -- The loop of `publishModules`, with the modules made so far.
  unfoldable pub publish_each : List PlannedModule → List Created → W → Result (List Created) × W
  publish_each [] created w = (ok created, w)
  publish_each (m ∷ ms) created w =
      let (res, next) = client.create_module m w in
      elim res [
        | done x ↦ publish_each ms (created ++ x ∷ []) next
        | caught ↦ publish_each ms created next
        | threw ↦ (fail no_method, next)
      ]

  -- `publishModules`
  unfoldable pub publish_modules :
      Allowlist → SafetyPolicy → List PlannedModule → W → Result (List Created) × W
  unfolding publish_each is_action_allowed
  publish_modules allow safety ms w =
      if is_action_allowed allow publish_module
      then (if safety.allow_publishing then publish_each ms [] w else (ok [], w))
      else (ok [], w)

  -- The loop of `proposeForks`. A suggestion for a module that was not made, or whose id is empty,
  -- is passed over.
  unfoldable pub propose_each :
      List Created → List ForkSuggestion → List ForkCreated → W → Result (List ForkCreated) × W
  unfolding lookup_id
  propose_each made [] out w = (ok out, w)
  propose_each made (s ∷ ss) out w = elim (lookup_id s.module_name made) [
    | none ↦ propose_each made ss out w
    | some [] ↦ propose_each made ss out w
    | some (c ∷ id) ↦
        let (fork, next) = client.create_fork (c ∷ id) s.suggested_fork_notes w in
        elim fork [
          | done f ↦ propose_each made ss (out ++ record { id = f; module_id = c ∷ id } ∷ []) next
          | caught ↦ propose_each made ss out next
          | threw ↦ (fail no_method, next)
        ]
  ]

  -- `proposeForks`
  unfoldable pub propose_forks :
      Allowlist
      → SafetyPolicy
      → List Created
      → List ForkSuggestion
      → W
      → Result (List ForkCreated) × W
  unfolding propose_each is_action_allowed
  propose_forks allow safety made ss w =
      if is_action_allowed allow propose_fork
      then (if safety.allow_publishing then propose_each made ss [] w else (ok [], w))
      else (ok [], w)

  abbrev run_made : Call Text × W → Result (Option Text) × W
  run_made (done id, w) = (ok (some id), w)
  run_made (caught, w) = (ok none, w)
  run_made (threw, w) = (fail no_method, w)

  -- `runModule`, which the loop does not call.
  unfoldable pub run_module_action :
      Allowlist → SafetyPolicy → NewRun → W → Result (Option Text) × W
  unfolding is_action_allowed
  run_module_action allow safety run w =
      if is_action_allowed allow run_module
      then (if safety.allow_running then run_made (client.create_run run w) else (ok none, w))
      else (ok none, w)
