-- ===== src/Agent/Actions/Made.antt =====
-- Which modules apps-agent/src/actions/propose-fork.ts asks forks of.
use psybot_ai.Base.{
  ◌≡◌, sym, ap, ◌∙◌, subst, Bool, true, false, none, some, List, [], ◌∷◌, map, All, All-append,
  Option-cases, inl, inr, if◌then◌else◌, or_default,
}
use mathlib.Core.List.{Mem, mem-cons_self, mem-cons_of_mem}
use psybot_ai.Base.Tests.{guarded}
use psybot_ai.Base.Text.{Text, text_eq}
use psybot_ai.Agent.Policies.{Allowlist, SafetyPolicy, is_action_allowed, propose_fork}
use psybot_ai.Agent.Llm.{Result, Holds}
use psybot_ai.Agent.Forks.{ForkSuggestion}
use psybot_ai.Agent.Actions.{
  Client, Created, ForkCreated, lookup_id, propose_each, propose_forks, Call-cases,
}

abbrev ids : List Created → List Text
ids made = map (λ (m : Created). m.id) made

lookup_here :
    (m : Created) (b : Bool) (id : Text) → (if b then some m.id else none) ≡ some id → m.id ≡ id
lookup_here m true id h = ap (λ o. or_default o m.id) h
lookup_here m false id h = absurd cc

none-some : {A : Type 0} {a : A} → none ≡ some a → ⊥
none-some e = cc

lookup_id-none :
    (name : Text) (m : Created) (ms : List Created)
    → lookup_id name ms ≡ none
    → lookup_id name (m ∷ ms) ≡ (if text_eq m.name name then some m.id else none)
unfolding lookup_id
lookup_id-none name m ms h = rw h

lookup_id-some :
    (name : Text) (m : Created) (ms : List Created) (later : Text)
    → lookup_id name ms ≡ some later
    → lookup_id name (m ∷ ms) ≡ some later
unfolding lookup_id
lookup_id-some name m ms later h = rw h

lookup_id-Mem :
    (name : Text) (made : List Created) (id : Text)
    → lookup_id name made ≡ some id
    → Mem id (ids made)
unfolding lookup_id
lookup_id-Mem name [] id h = absurd (none-some h)
lookup_id-Mem name (m ∷ ms) id h = elim (Option-cases (lookup_id name ms)) [
  | inl e ↦
      subst (λ i. Mem i (ids (m ∷ ms)))
        (lookup_here m (text_eq m.name name) id (sym (lookup_id-none name m ms e) ∙ h))
        mem-cons_self
  | inr (later, e) ↦
      mem-cons_of_mem m.id
        (lookup_id-Mem name ms id (e ∙ sym (lookup_id-some name m ms later e) ∙ h))
]

abbrev IsMade : List Created → ForkCreated → Type 0
IsMade made f = Mem f.module_id (ids made)

module _ {W : Type 0} (client : Client W) where
  propose_each-All :
      (made : List Created) (ss : List ForkSuggestion) (out : List ForkCreated) (w : W)
      → All (IsMade made) out
      → Holds (All (IsMade made)) (propose_each client made ss out w).0
  unfolding propose_each
  propose_each-All made [] out w h = h
  propose_each-All made (s ∷ ss) out w h = elim (Option-cases (lookup_id s.module_name made)) [
    | inl e ↦ rw (propose_each, e) (propose_each-All made ss out w h)
    | inr ([], e) ↦ rw (propose_each, e) (propose_each-All made ss out w h)
    | inr (c ∷ id, e) ↦
        let mem = lookup_id-Mem s.module_name made (c ∷ id) e in
        elim (Call-cases (client.create_fork (c ∷ id) s.suggested_fork_notes w).0) [
          | inl (f, d) ↦
              rw (propose_each, e, d)
                (propose_each-All made ss _ _ (All-append (IsMade made) out _ h (mem, tt)))
          | inr (inl d) ↦ rw (propose_each, e, d) (propose_each-All made ss out _ h)
          | inr (inr d) ↦ rw (propose_each, e, d) tt
        ]
  ]

  -- Every fork that a round proposes is one of a module that the round has published.
  pub propose_forks-All :
      (allow : Allowlist) (safety : SafetyPolicy) (made : List Created) (ss : List ForkSuggestion)
      (w : W)
      → Holds
          (All (λ (f : ForkCreated). Mem f.module_id (map (λ (m : Created). m.id) made)))
          (propose_forks client allow safety made ss w).0
  unfolding propose_forks
  propose_forks-All allow safety made ss w =
      guarded (λ (x : Result (List ForkCreated) × W). Holds (All (IsMade made)) x.0)
        (is_action_allowed allow propose_fork) safety.allow_publishing _ _
        (propose_each-All made ss [] w tt) tt
