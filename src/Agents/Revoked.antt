-- ===== src/Agents/Revoked.antt =====
-- A rotated token is dead from then on, and the new one works.
use loon_site.Prelude.{
  ℕ, ◌≤◌, ◌≡◌, ◌≢◌, refl, sym, ap, Bool, true, false, none, some, List, [], ◌∷◌, String, ◌==◌,
  nat_eq, nat_beq_iff, eq_iff, string_eq, any, count_if, All, arith, beq_ne, beq_refl, Bool-cases,
  inl, inr,
}
use loon_site.Prelude.Rows.{update_where, first_where, first_where-none}
use loon_site.Prelude.Keys.{Absent, IsKey, Absent-update}
use loon_site.Agents.{
  Agent, Fleet, has_token_hash, is_own, owned_by, clashes, with_token, set_token,
  rotate_agent_token_owned, agent_by_token, rotated,
}
use loon_site.Agents.Calls.{AgentOp, after_agent_ops, DrawsOtherHash}
use loon_site.Agents.Unused.{IsUnused, after_agent_ops-IsUnused}
use loon_site.Agents.Unique.{id_of, hash_of, IsValidFleet}

-- The one agent with a hash gets another.
module _ (old new : String) (a : Agent) (p : Agent → Bool) (picks : p a ≡ true)
    (only : (r : Agent) → p r ≡ true → r.id ≡ a.id) where
  swapped :
      (agents : List Agent)
      → new ≢ old
      → first_where (has_token_hash old) agents ≡ some a
      → IsKey hash_of agents
      → Absent hash_of old (update_where p (with_token new) agents)
  unfolding update_where first_where
  swapped [] differ found hashes = absurd (cc)
  swapped (r ∷ agents) differ found (here, hashes) = elim (Bool-cases (has_token_hash old r)) [
    | inl match ↦
        let e : r ≡ a = (let w = rw match at found in cc) in
        let hit : p r ≡ true = rw e picks in
        let gone : Absent hash_of old agents = rw ((eq_iff r.token_hash old).0 match) at here in
        rw (hit, beq_ne new old differ)
          (Absent-update hash_of p (with_token new) old agents (λ s picked. beq_ne new old differ)
            gone)
    | inr other ↦
        let rest = swapped agents differ (rw other at found) hashes in
        elim (Bool-cases (p r)) [
          | inl hit ↦ rw (hit, beq_ne new old differ) rest
          | inr miss ↦ rw (miss, other) rest
        ]
  ]

  found_apart :
      (agents : List Agent) (id : ℕ)
      → first_where (has_token_hash old) agents ≡ some a
      → Absent id_of id agents
      → (a.id == id) ≡ false
  unfolding first_where
  found_apart [] id found absent = absurd (cc)
  found_apart (r ∷ agents) id found absent = elim (Bool-cases (has_token_hash old r)) [
    | inl match ↦
        let e : r ≡ a = (let w = rw match at found in cc) in
        let away : (r.id == id) ≡ false = ground arith in rw e at away
    | inr other ↦ found_apart agents id (rw other at found) (ground arith)
  ]

  answers :
      (agents : List Agent)
      → first_where (has_token_hash old) agents ≡ some a
      → IsKey id_of agents
      → Absent hash_of new agents
      → first_where (has_token_hash new) (update_where p (with_token new) agents)
        ≡ some (with_token new a)
  unfolding update_where first_where
  answers [] found ids free = absurd (cc)
  answers (r ∷ agents) found (here, ids) free = elim (Bool-cases (has_token_hash old r)) [
    | inl match ↦
        let e : r ≡ a = (let w = rw match at found in cc) in
        let hit : p r ≡ true = rw e picks in
        rw (hit, beq_refl new) (ap (λ s. some (with_token new s)) e)
    | inr other ↦
        let later : first_where (has_token_hash old) agents ≡ some a = rw other at found in
        let apart = found_apart agents r.id later here in
        let rest = answers agents later ids (ground arith) in
        let away : has_token_hash new r ≡ false = ground arith in
        elim (Bool-cases (p r)) [
          | inl hit ↦ absurd (let same = (nat_beq_iff a.id r.id).1 (sym (only r hit)) in cc)
          | inr miss ↦ rw (miss, away) rest
        ]
  ]

clashes_free :
    (p : Agent → Bool) (h : String) (agents : List Agent)
    → Absent hash_of h agents
    → clashes p h agents ≡ false
clashes_free p h [] free = refl
clashes_free p h (r ∷ agents) free = ground (arith, clashes_free p h agents)

found_count :
    (q p : Agent → Bool) (a : Agent) (agents : List Agent)
    → first_where q agents ≡ some a
    → p a ≡ true
    → 1 ≤ count_if p agents
unfolding first_where
found_count q p a [] found picks = absurd (cc)
found_count q p a (r ∷ agents) found picks = elim (Bool-cases (q r)) [
  | inl match ↦
      let e : r ≡ a = (let w = rw match at found in cc) in
      let hit : p r ≡ true = rw e picks in rw hit (omega arith)
  | inr other ↦ let more = found_count q p a agents (rw other at found) picks in omega (arith, more)
]

set_token_lem :
    (p : Agent → Bool) (h : String) (fleet : Fleet)
    → Absent hash_of h fleet.agents
    → set_token p h fleet ≡ (
      record fleet { agents = update_where p (with_token h) fleet.agents },
      some (count_if p fleet.agents),
    )
unfolding set_token
set_token_lem p h fleet free = elim (Bool-cases (any p fleet.agents)) [
  | inl some_row ↦ rw (some_row, clashes_free p h fleet.agents free) refl
  | inr no_row ↦ rw no_row refl
]

module _ (hash : String → String) where
  named-hash :
      (token : String) (a : Agent) (fleet : Fleet)
      → agent_by_token hash token fleet ≡ some a
      → first_where (has_token_hash (hash token)) fleet.agents ≡ some a
  unfolding agent_by_token
  named-hash token a fleet found = elim (Bool-cases (token == "")) [
    | inl blank ↦ absurd (let w = rw blank at found in cc)
    | inr real ↦ rw real at found
  ]

  unused-token :
      (token : String) (fleet : Fleet)
      → IsUnused (hash token) fleet
      → agent_by_token hash token fleet ≡ none
  unfolding agent_by_token
  unused-token token fleet u = elim (Bool-cases (token == "")) [
    | inl blank ↦ rw blank refl
    | inr real ↦ rw real (first_where-none (has_token_hash (hash token)) fleet.agents u)
  ]

  -- Rotation: the owner of an agent that a token names gets a new token for it, when the hash of
  -- the new one is in no row; the new token names that agent then, and the old one names no agent,
  -- now and after any calls that draw no token with the hash of the old one.
  pub rotate_revokes :
      (tok old : String) (owner : ℕ) (a : Agent) (fleet : Fleet) (ops : List AgentOp)
      → IsValidFleet fleet
      → agent_by_token hash old fleet ≡ some a
      → owned_by owner a.user_id ≡ true
      → tok ≢ ""
      → Absent hash_of (hash tok) fleet.agents
      → hash tok ≢ hash old
      → All (DrawsOtherHash hash (hash old)) ops
      → let after = rotate_agent_token_owned hash (some tok) owner a.id fleet in
        (after.1 ≡ rotated tok)
        × (agent_by_token hash tok after.0 ≡ some (with_token (hash tok) a))
        × (agent_by_token hash old (after_agent_ops hash ops after.0) ≡ none)
  unfolding agent_by_token rotate_agent_token_owned set_token
  rotate_revokes tok old owner a fleet ops (ids, names, hashes, below) found own real free differ
        others =
      let match = named-hash old a fleet found in
      let p = is_own owner a.id in
      let picks : p a ≡ true = rw (beq_refl a.id, own) refl in
      let only = λ (r : Agent) (hit : p r ≡ true). (nat_beq_iff r.id a.id).0 (ground arith) in
      let more = found_count (has_token_hash (hash old)) p a fleet.agents match picks in
      let some_row : (count_if p fleet.agents == 0) ≡ false = ground (arith, more) in
      let unused = swapped (hash old) (hash tok) a p picks only fleet.agents differ match hashes in
      let swap : Fleet = record fleet {
        agents = update_where p (with_token (hash tok)) fleet.agents;
      } in
      rw (set_token_lem p (hash tok) fleet free) (
        rw some_row refl,
        rw (beq_ne tok "" real)
            (answers (hash old) (hash tok) a p picks only fleet.agents match ids free),
        unused-token old (after_agent_ops hash ops swap)
            (after_agent_ops-IsUnused hash ops (hash old) swap others unused),
      )
