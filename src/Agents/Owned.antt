-- ===== src/Agents/Owned.antt =====
-- A member's calls reach only the member's own agents.
use loon_site.Prelude.{
  ℕ, ◌≡◌, refl, ap, Bool, true, false, Option, none, some, List, [], ◌∷◌, ◌++◌, String, ◌&&◌, not,
  ◌==◌, nat_eq, string_eq, any, keep, arith, beq_refl, Bool-cases, inl, inr,
}
use loon_site.Prelude.Rows.{keep-update_where}
use loon_site.Agents.{
  Agent, Fleet, has_name, has_token_hash, is_own, owned_by, clashes, new_agent, with_token,
  insert_agent, set_token, create_with, create_agent_owned, rotate_agent_token_owned,
}
use loon_site.Agents.Reports.{delete_agent_owned}

-- The agents that are not the member's.
abbrev pub not_of : ℕ → Fleet → List Agent
not_of owner fleet = keep (λ a. not (owned_by owner a.user_id)) fleet.agents

keep-append_one :
    (k : Agent → Bool) (agents : List Agent) (a : Agent)
    → k a ≡ false
    → keep k (agents ++ a ∷ []) ≡ keep k agents
keep-append_one k [] a away = rw away refl
keep-append_one k (r ∷ agents) a away = elim (Bool-cases (k r)) [
  | inl kept ↦ rw kept (ap (λ rows. r ∷ rows) (keep-append_one k agents a away))
  | inr left ↦ rw left (keep-append_one k agents a away)
]

keep-keep :
    (k p : Agent → Bool) (agents : List Agent)
    → ((a : Agent) → k a ≡ true → p a ≡ true)
    → keep k (keep p agents) ≡ keep k agents
keep-keep k p [] more = refl
keep-keep k p (r ∷ agents) more = elim (Bool-cases (p r)) [
  | inl kept ↦ rw kept (ground (arith, keep-keep k p agents more))
  | inr left ↦ rw left (ground (arith, more r, keep-keep k p agents more))
]

insert-not_of :
    (now : ℕ) (name h : String) (owner : ℕ) (fleet : Fleet)
    → not_of owner (insert_agent now name h (some owner) fleet).0 ≡ not_of owner fleet
unfolding insert_agent
insert-not_of now name h owner fleet = elim (Bool-cases (any (has_token_hash h) fleet.agents)) [
  | inl taken ↦ rw taken refl
  | inr free ↦ rw free (
      keep-append_one (λ a. not (owned_by owner a.user_id)) fleet.agents
        (new_agent fleet.next_id now name h (some owner)) (rw (beq_refl owner) refl))
]

set_token-not_of :
    (owner id : ℕ) (h : String) (fleet : Fleet)
    → not_of owner (set_token (is_own owner id) h fleet).0 ≡ not_of owner fleet
unfolding set_token
set_token-not_of owner id h fleet =
    let p = is_own owner id in
    elim (Bool-cases (any p fleet.agents && clashes p h fleet.agents)) [
      | inl refused ↦ rw refused refl
      | inr fits ↦ rw fits (
          keep-update_where (λ a. not (owned_by owner a.user_id)) p (with_token h) fleet.agents
            (λ a own. (ground arith, ground arith)))
    ]

module _ (hash : String → String) where
  create-not_of :
      (now : ℕ) (drawn : Option String) (owner : ℕ) (name : String) (fleet : Fleet)
      → not_of owner (create_agent_owned hash now drawn owner name fleet).0 ≡ not_of owner fleet
  unfolding create_agent_owned create_with
  create-not_of now none owner name fleet = refl
  create-not_of now (some tok) owner name fleet = elim (Bool-cases (owner == 0)) [
    | inl nobody ↦ rw nobody refl
    | inr member ↦ elim (Bool-cases (any (has_name name) fleet.agents)) [
      | inl taken ↦ rw (member, taken) refl
      | inr new ↦ rw (member, new) (insert-not_of now name (hash tok) owner fleet)
    ]
  ]

  rotate-not_of :
      (drawn : Option String) (owner id : ℕ) (fleet : Fleet)
      → not_of owner (rotate_agent_token_owned hash drawn owner id fleet).0 ≡ not_of owner fleet
  unfolding rotate_agent_token_owned
  rotate-not_of none owner id fleet = refl
  rotate-not_of (some tok) owner id fleet = set_token-not_of owner id (hash tok) fleet

  -- What a member may do on their own page, creating an agent, also under a name that is taken,
  -- rotating a token and deleting an agent, leaves every agent of another member, and every agent
  -- of nobody, as it was, whatever name or id is sent.
  pub own_calls_stay :
      (now : ℕ) (drawn : Option String) (owner id : ℕ) (name : String) (fleet : Fleet)
      → (not_of owner (create_agent_owned hash now drawn owner name fleet).0 ≡ not_of owner fleet)
        × (not_of owner (rotate_agent_token_owned hash drawn owner id fleet).0 ≡ not_of owner fleet)
        × (not_of owner (delete_agent_owned owner id fleet).0 ≡ not_of owner fleet)
  unfolding delete_agent_owned
  own_calls_stay now drawn owner id name fleet = (
    create-not_of now drawn owner name fleet,
    rotate-not_of drawn owner id fleet,
    keep-keep (λ a. not (owned_by owner a.user_id)) (λ a. not (is_own owner id a)) fleet.agents
        (λ a other. ground arith),
  )
