-- ===== src/Agents/Unique.antt =====
-- Ids, names and token hashes stay unique, so that a token names one agent.
use loon_site.Prelude.{
  ℕ, ◌+◌, ◌<◌, ◌≤◌, ◌≡◌, refl, Bool, true, false, Option, none, some, List, [], ◌∷◌, String, ◌&&◌,
  ◌==◌, nat_eq, nat_beq_iff, eq_iff, string_eq, any, keep, count_if, All, All-append, All-keep,
  arith, Bool-cases, Option-cases, inl, inr,
}
use loon_site.Prelude.Rows.{
  update_where, first_where, All-update_where, update_where-none, any-count, none-any,
}
use loon_site.Prelude.Keys.{
  Absent, IsKey, IsKey-append, IsKey-keep, IsKey-update_same, IsKey-update_one, IsKey-count,
}
use loon_site.Agents.{
  Agent, Fleet, has_name, has_token_hash, has_id, is_own, clashes, new_agent, with_token, refreshed,
  insert_agent, upsert_agent, set_token, ensure_agent, create_with, create_agent_owned,
  rotate_agent_token_owned, regenerate_agent_token, known_owner,
}
use loon_site.Agents.Reports.{
  delete_agent_owned, delete_agent, set_agent_max_concurrent, record_status, touch_agent,
  complete_task, set_show_agents_on_profile,
}
use loon_site.Agents.Calls.{
  AgentOp, ensure_op, create_op, rotate_op, regenerate_op, remove_own_op, remove_op, limit_op,
  status_op, touch_op, complete_op, show_op, after_agent_op, after_agent_ops,
}

abbrev pub id_of : Agent → ℕ
id_of a = a.id

abbrev pub name_of : Agent → String
name_of a = a.name

abbrev pub hash_of : Agent → String
hash_of a = a.token_hash

-- The columns that are keys, and the sequence past every id.
abbrev pub IsValidFleet : Fleet → Type 0
IsValidFleet fleet =
    IsKey id_of fleet.agents
    × IsKey name_of fleet.agents
    × IsKey hash_of fleet.agents
    × All (λ a. a.id < fleet.next_id) fleet.agents

below_next : (n : ℕ) (agents : List Agent) → All (λ a. a.id < n) agents → Absent id_of n agents
below_next n [] h = refl
below_next n (a ∷ agents) (here, h) = ground (arith, below_next n agents h)

next_id-IsValid :
    (fleet : Fleet)
    → IsValidFleet fleet
    → IsValidFleet (record fleet { next_id = fleet.next_id + 1 })
next_id-IsValid fleet (ids, names, hashes, below) = (ids, names, hashes, raised fleet.agents below)
  where
    raised :
        (agents : List Agent)
        → All (λ a. a.id < fleet.next_id) agents
        → All (λ a. a.id < fleet.next_id + 1) agents
    raised [] h = tt
    raised (a ∷ agents) (here, h) = (omega arith, raised agents h)

insert-IsValid :
    (now : ℕ) (name h : String) (owner : Option ℕ) (fleet : Fleet)
    → any (has_name name) fleet.agents ≡ false
    → IsValidFleet fleet
    → IsValidFleet (insert_agent now name h owner fleet).0
unfolding insert_agent
insert-IsValid now name h owner fleet new v =
    let (ids, names, hashes, below) = v in
    elim (Bool-cases (any (has_token_hash h) fleet.agents)) [
      | inl taken ↦ rw taken (next_id-IsValid fleet v)
      | inr free ↦
          let a = new_agent fleet.next_id now name h owner in
          let (_, _, _, raised) = next_id-IsValid fleet v in
          rw free (
            IsKey-append id_of fleet.agents a (below_next fleet.next_id fleet.agents below) ids,
            IsKey-append name_of fleet.agents a new names,
            IsKey-append hash_of fleet.agents a free hashes,
            All-append (λ r. r.id < fleet.next_id + 1) fleet.agents (a ∷ []) raised
                (omega arith, tt),
          )
    ]

-- A new token for one agent, with or without a new owner.
retoken-IsValid :
    (p : Agent → Bool) (f : Agent → Agent) (h : String) (fleet : Fleet)
    → ((a : Agent) → ((f a).id ≡ a.id) × ((f a).name ≡ a.name) × ((f a).token_hash ≡ h))
    → count_if p fleet.agents ≤ 1
    → clashes p h fleet.agents ≡ false
    → IsValidFleet fleet
    → IsValidFleet (record fleet { agents = update_where p f fleet.agents })
retoken-IsValid p f h fleet keeps one free (ids, names, hashes, below) = (
  IsKey-update_same id_of p f fleet.agents (λ a. (keeps a).0) ids,
  IsKey-update_same name_of p f fleet.agents (λ a. (keeps a).1) names,
  IsKey-update_one hash_of p f h (λ a picked. (keeps a).2) fleet.agents one free hashes,
  All-update_where (λ a. a.id < fleet.next_id) p f fleet.agents
      (λ a old picked. let same = (keeps a).0 in omega (arith, same)) below,
)

-- A change of other columns.
restate-IsValid :
    (p : Agent → Bool) (f : Agent → Agent) (fleet : Fleet)
    → ((a : Agent) → ((f a).id ≡ a.id) × ((f a).name ≡ a.name) × ((f a).token_hash ≡ a.token_hash))
    → IsValidFleet fleet
    → IsValidFleet (record fleet { agents = update_where p f fleet.agents })
restate-IsValid p f fleet keeps (ids, names, hashes, below) = (
  IsKey-update_same id_of p f fleet.agents (λ a. (keeps a).0) ids,
  IsKey-update_same name_of p f fleet.agents (λ a. (keeps a).1) names,
  IsKey-update_same hash_of p f fleet.agents (λ a. (keeps a).2) hashes,
  All-update_where (λ a. a.id < fleet.next_id) p f fleet.agents
      (λ a old picked. let same = (keeps a).0 in omega (arith, same)) below,
)

remove-IsValid :
    (p : Agent → Bool) (fleet : Fleet)
    → IsValidFleet fleet
    → IsValidFleet (record fleet { agents = keep p fleet.agents })
remove-IsValid p fleet (ids, names, hashes, below) = (
  IsKey-keep id_of p fleet.agents ids,
  IsKey-keep name_of p fleet.agents names,
  IsKey-keep hash_of p fleet.agents hashes,
  All-keep (λ a. a.id < fleet.next_id) p fleet.agents below,
)

set_token-IsValid :
    (p : Agent → Bool) (id : ℕ) (h : String) (fleet : Fleet)
    → ((a : Agent) → p a ≡ true → a.id ≡ id)
    → IsValidFleet fleet
    → IsValidFleet (set_token p h fleet).0
unfolding set_token
set_token-IsValid p id h fleet only v =
    elim (Bool-cases (any p fleet.agents && clashes p h fleet.agents)) [
      | inl refused ↦ rw refused v
      | inr fits ↦ rw fits (elim (Bool-cases (clashes p h fleet.agents)) [
        | inr free ↦
            retoken-IsValid p (with_token h) h fleet (λ a. (refl, refl, refl))
              (IsKey-count id_of id p fleet.agents only v.0) free v
        | inl clash ↦
            let nobody : any p fleet.agents ≡ false = ground arith in
            rw (update_where-none p (with_token h) fleet.agents (any-count p fleet.agents nobody)) v
      ])
    ]

upsert-IsValid :
    (now : ℕ) (name h : String) (owner : Option ℕ) (fleet : Fleet)
    → IsValidFleet fleet
    → IsValidFleet (upsert_agent now name h owner fleet).0
unfolding upsert_agent
upsert-IsValid now name h owner fleet v =
    elim (Option-cases (first_where (has_name name) fleet.agents)) [
      | inl missing ↦
          rw (missing, upsert_agent)
            (insert-IsValid now name h owner fleet (none-any (has_name name) fleet.agents missing)
              v)
      | inr (a, there) ↦ elim (Bool-cases (clashes (has_name name) h fleet.agents)) [
        | inl clash ↦ rw (there, upsert_agent, clash) (next_id-IsValid fleet v)
        | inr free ↦
            let one =
              IsKey-count name_of name (has_name name) fleet.agents
                (λ r hit. (eq_iff r.name name).0 hit) v.1 in
            rw (there, upsert_agent, free)
              (next_id-IsValid
                (record fleet {
                  agents = update_where (has_name name) (refreshed h owner) fleet.agents;
                })
                (retoken-IsValid (has_name name) (refreshed h owner) h fleet
                  (λ r. (refl, refl, refl)) one free v))
      ]
    ]

module _ (hash : String → String) where
  create-IsValid :
      (now : ℕ) (tok name : String) (owner : ℕ) (fleet : Fleet)
      → IsValidFleet fleet
      → IsValidFleet (create_with hash now tok name owner fleet).0
  unfolding create_with
  create-IsValid now tok name owner fleet v = elim (Bool-cases (any (has_name name) fleet.agents)) [
    | inl taken ↦ rw taken (next_id-IsValid fleet v)
    | inr new ↦ rw new (insert-IsValid now name (hash tok) (some owner) fleet new v)
  ]

  create_owned-IsValid :
      (now : ℕ) (drawn : Option String) (name : String) (owner : ℕ) (fleet : Fleet)
      → IsValidFleet fleet
      → IsValidFleet (create_agent_owned hash now drawn owner name fleet).0
  unfolding create_agent_owned
  create_owned-IsValid now none name owner fleet v = v
  create_owned-IsValid now (some tok) name owner fleet v = elim (Bool-cases (owner == 0)) [
    | inl nobody ↦ rw nobody v
    | inr member ↦ rw member (create-IsValid now tok name owner fleet v)
  ]

  after_agent_op-IsValid :
      (op : AgentOp) (fleet : Fleet)
      → IsValidFleet fleet
      → IsValidFleet (after_agent_op hash op fleet)
  unfolding after_agent_op ensure_agent rotate_agent_token_owned regenerate_agent_token
      delete_agent_owned delete_agent set_agent_max_concurrent record_status touch_agent
      complete_task set_show_agents_on_profile
  after_agent_op-IsValid (ensure_op now none name user) fleet v = v
  after_agent_op-IsValid (ensure_op now (some tok) name user) fleet v =
      upsert-IsValid now name (hash tok) (known_owner user) fleet v
  after_agent_op-IsValid (create_op now drawn owner name) fleet v =
      create_owned-IsValid now drawn name owner fleet v
  after_agent_op-IsValid (rotate_op none owner id) fleet v = v
  after_agent_op-IsValid (rotate_op (some tok) owner id) fleet v =
      set_token-IsValid (is_own owner id) id (hash tok) fleet (λ a own. ground arith) v
  after_agent_op-IsValid (regenerate_op none id) fleet v = v
  after_agent_op-IsValid (regenerate_op (some tok) id) fleet v =
      set_token-IsValid (has_id id) id (hash tok) fleet (λ a hit. (nat_beq_iff a.id id).0 hit) v
  after_agent_op-IsValid (remove_own_op owner id) fleet v = remove-IsValid _ fleet v
  after_agent_op-IsValid (remove_op id) fleet v = remove-IsValid _ fleet v
  after_agent_op-IsValid (limit_op id n) fleet v =
      restate-IsValid _ _ fleet (λ a. (refl, refl, refl)) v
  after_agent_op-IsValid (status_op now id protocol version phase title none) fleet v = v
  after_agent_op-IsValid (status_op now id protocol version phase title (some json)) fleet v =
      restate-IsValid _ _ fleet (λ a. (refl, refl, refl)) v
  after_agent_op-IsValid (touch_op now id) fleet v =
      restate-IsValid _ _ fleet (λ a. (refl, refl, refl)) v
  after_agent_op-IsValid (complete_op now id) fleet v =
      restate-IsValid _ _ fleet (λ a. (refl, refl, refl)) v
  after_agent_op-IsValid (show_op user show) fleet v = v

  -- Whatever calls run, in any order, the ids, the names and the hashes of the tokens stay unique,
  -- so that a token names one agent at most, and the sequence stays past every id.
  pub after_agent_ops-IsValid :
      (ops : List AgentOp) (fleet : Fleet)
      → IsValidFleet fleet
      → IsValidFleet (after_agent_ops hash ops fleet)
  unfolding after_agent_ops
  after_agent_ops-IsValid [] fleet v = v
  after_agent_ops-IsValid (op ∷ ops) fleet v =
      after_agent_ops-IsValid ops (after_agent_op hash op fleet) (after_agent_op-IsValid op fleet v)
