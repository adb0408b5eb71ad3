-- ===== src/Agents/Unused.antt =====
-- A hash that no agent has stays unused while no call draws a token with it.
use loon_site.Prelude.{
  ℕ, ◌≡◌, ◌≢◌, refl, Bool, Option, none, some, List, [], ◌∷◌, String, ◌&&◌, ◌==◌, nat_eq, string_eq,
  any, All, beq_ne, Bool-cases, Option-cases, inl, inr,
}
use loon_site.Prelude.Rows.{update_where, first_where}
use loon_site.Prelude.Keys.{Absent, Absent-update, Absent-update_same, Absent-append, Absent-keep}
use loon_site.Agents.{
  Agent, Fleet, has_name, has_token_hash, has_id, is_own, clashes, new_agent, with_token, refreshed,
  insert_agent, upsert_agent, set_token, ensure_agent, create_with, create_agent_owned,
  rotate_agent_token_owned, regenerate_agent_token, known_owner,
}
use loon_site.Agents.Reports.{
  delete_agent_owned, delete_agent, set_agent_max_concurrent, record_status, touch_agent,
  complete_task, set_show_agents_on_profile,
}
use loon_site.Agents.Calls.{
  AgentOp, ensure_op, create_op, rotate_op, regenerate_op, remove_own_op, remove_op, limit_op,
  status_op, touch_op, complete_op, show_op, after_agent_op, after_agent_ops, DrawsUnlike,
  DrawsOtherHash,
}
use loon_site.Agents.Unique.{hash_of}

-- No agent has the hash.
abbrev pub IsUnused : String → Fleet → Type 0
IsUnused h fleet = Absent hash_of h fleet.agents

insert-IsUnused :
    (now : ℕ) (name new h : String) (owner : Option ℕ) (fleet : Fleet)
    → new ≢ h
    → IsUnused h fleet
    → IsUnused h (insert_agent now name new owner fleet).0
unfolding insert_agent
insert-IsUnused now name new h owner fleet differ u =
    elim (Bool-cases (any (has_token_hash new) fleet.agents)) [
      | inl taken ↦ rw taken u
      | inr free ↦ rw free (
          Absent-append hash_of h fleet.agents (new_agent fleet.next_id now name new owner) u
            (beq_ne new h differ))
    ]

upsert-IsUnused :
    (now : ℕ) (name new h : String) (owner : Option ℕ) (fleet : Fleet)
    → new ≢ h
    → IsUnused h fleet
    → IsUnused h (upsert_agent now name new owner fleet).0
unfolding upsert_agent
upsert-IsUnused now name new h owner fleet differ u =
    elim (Option-cases (first_where (has_name name) fleet.agents)) [
      | inl missing ↦
          rw (missing, upsert_agent) (insert-IsUnused now name new h owner fleet differ u)
      | inr (a, there) ↦ elim (Bool-cases (clashes (has_name name) new fleet.agents)) [
        | inl clash ↦ rw (there, upsert_agent, clash) u
        | inr free ↦
            rw (there, upsert_agent, free)
              (Absent-update hash_of (has_name name) (refreshed new owner) h fleet.agents
                (λ r hit. beq_ne new h differ) u)
      ]
    ]

set_token-IsUnused :
    (p : Agent → Bool) (new h : String) (fleet : Fleet)
    → new ≢ h
    → IsUnused h fleet
    → IsUnused h (set_token p new fleet).0
unfolding set_token
set_token-IsUnused p new h fleet differ u =
    elim (Bool-cases (any p fleet.agents && clashes p new fleet.agents)) [
      | inl refused ↦ rw refused u
      | inr fits ↦
          rw fits (
            Absent-update hash_of p (with_token new) h fleet.agents (λ r hit. beq_ne new h differ)
              u)
    ]

restate-IsUnused :
    (p : Agent → Bool) (f : Agent → Agent) (h : String) (agents : List Agent)
    → ((a : Agent) → (f a).token_hash ≡ a.token_hash)
    → Absent hash_of h agents
    → Absent hash_of h (update_where p f agents)
restate-IsUnused p f h agents same u = Absent-update_same hash_of p f h agents same u

module _ (hash : String → String) where
  create_owned-IsUnused :
      (now : ℕ) (drawn : Option String) (name h : String) (owner : ℕ) (fleet : Fleet)
      → DrawsUnlike hash h drawn
      → IsUnused h fleet
      → IsUnused h (create_agent_owned hash now drawn owner name fleet).0
  unfolding create_agent_owned create_with
  create_owned-IsUnused now none name h owner fleet differ u = u
  create_owned-IsUnused now (some tok) name h owner fleet differ u =
      elim (Bool-cases (owner == 0)) [
        | inl nobody ↦ rw nobody u
        | inr member ↦ elim (Bool-cases (any (has_name name) fleet.agents)) [
          | inl taken ↦ rw (member, taken) u
          | inr new ↦
              rw (member, new) (insert-IsUnused now name (hash tok) h (some owner) fleet differ u)
        ]
      ]

  after_agent_op-IsUnused :
      (op : AgentOp) (h : String) (fleet : Fleet)
      → DrawsOtherHash hash h op
      → IsUnused h fleet
      → IsUnused h (after_agent_op hash op fleet)
  unfolding after_agent_op ensure_agent rotate_agent_token_owned regenerate_agent_token
      delete_agent_owned delete_agent set_agent_max_concurrent record_status touch_agent
      complete_task set_show_agents_on_profile
  after_agent_op-IsUnused (ensure_op now none name user) h fleet differ u = u
  after_agent_op-IsUnused (ensure_op now (some tok) name user) h fleet differ u =
      upsert-IsUnused now name (hash tok) h (known_owner user) fleet differ u
  after_agent_op-IsUnused (create_op now drawn owner name) h fleet differ u =
      create_owned-IsUnused now drawn name h owner fleet differ u
  after_agent_op-IsUnused (rotate_op none owner id) h fleet differ u = u
  after_agent_op-IsUnused (rotate_op (some tok) owner id) h fleet differ u =
      set_token-IsUnused (is_own owner id) (hash tok) h fleet differ u
  after_agent_op-IsUnused (regenerate_op none id) h fleet differ u = u
  after_agent_op-IsUnused (regenerate_op (some tok) id) h fleet differ u =
      set_token-IsUnused (has_id id) (hash tok) h fleet differ u
  after_agent_op-IsUnused (remove_own_op owner id) h fleet differ u =
      Absent-keep hash_of h _ fleet.agents u
  after_agent_op-IsUnused (remove_op id) h fleet differ u = Absent-keep hash_of h _ fleet.agents u
  after_agent_op-IsUnused (limit_op id n) h fleet differ u =
      restate-IsUnused _ _ h fleet.agents (λ a. refl) u
  after_agent_op-IsUnused (status_op now id protocol version phase title none) h fleet differ u = u
  after_agent_op-IsUnused (status_op now id protocol version phase title (some json)) h fleet differ
        u =
      restate-IsUnused _ _ h fleet.agents (λ a. refl) u
  after_agent_op-IsUnused (touch_op now id) h fleet differ u =
      restate-IsUnused _ _ h fleet.agents (λ a. refl) u
  after_agent_op-IsUnused (complete_op now id) h fleet differ u =
      restate-IsUnused _ _ h fleet.agents (λ a. refl) u
  after_agent_op-IsUnused (show_op user show) h fleet differ u = u

  pub after_agent_ops-IsUnused :
      (ops : List AgentOp) (h : String) (fleet : Fleet)
      → All (DrawsOtherHash hash h) ops
      → IsUnused h fleet
      → IsUnused h (after_agent_ops hash ops fleet)
  unfolding after_agent_ops
  after_agent_ops-IsUnused [] h fleet others u = u
  after_agent_ops-IsUnused (op ∷ ops) h fleet (other, others) u =
      after_agent_ops-IsUnused ops h (after_agent_op hash op fleet) others
        (after_agent_op-IsUnused op h fleet other u)
