-- ===== src/Agents.antt =====
-- internal/storage/agents.go: the agents of the fleet and their tokens. The table agent is the
-- list of its rows in the order of insertion with the next number of its sequence, and agent_prefs
-- a table of one choice for each member. Each SQL statement runs in one piece. The hash of a token
-- and the JSON of a status are parameters, and so is what the system's randomness gives for a new
-- token: nothing when it fails. A member's id that the code tests with `<= 0` is 0. Times are in
-- seconds.
pub mod Reports
pub mod Calls
pub mod Unique
pub mod Owned
pub mod Unused
pub mod Revoked
mod Tests
use loon_site.Prelude.{
  ℕ, ◌+◌, Bool, true, false, ◌&&◌, ◌||◌, not, Option, none, some, List, [], ◌∷◌, ◌++◌, String, ltb,
  leb, ◌==◌, nat_eq, string_eq, if◌then◌else◌, any, keep, count_if, length, lookup, insert,
}
use loon_site.Prelude.Rows.{update_where, first_where}

pub record Agent : Type 0 where
  pub id : ℕ
  pub name : String
  pub token_hash : String
  pub user_id : Option ℕ
  pub max_concurrent : ℕ
  pub protocol : Option ℕ
  pub version : Option String
  pub last_seen_at : Option ℕ
  pub created_at : ℕ
  pub completed : ℕ
  pub phase : Option String
  pub task_title : Option String
  pub status_json : Option String
  pub status_at : Option ℕ

pub record Fleet : Type 0 where
  pub agents : List Agent
  pub next_id : ℕ
  pub prefs : List (ℕ × Bool)

-- What the calls fail with: the two sentinels, no randomness for a token, and an error of the
-- database.
pub data AgentError : Type 0 where
  agent_name_taken agent_not_owned no_token database_failed : AgentError

-- An agent with the token in plain text, the one time that it is shown.
pub data Minted : Type 0 where
  minted : Agent → String → Minted
  unminted : AgentError → Minted

pub data Rotated : Type 0 where
  rotated : String → Rotated
  unrotated : AgentError → Rotated

-- `COALESCE(a, b)` and `NULLIF(s, '')`
abbrev pub coalesce : {A : Type 0} → Option A → Option A → Option A
coalesce none b = b
coalesce (some a) b = some a

abbrev pub null_if_blank : String → Option String
null_if_blank s = if s == "" then none else some s

abbrev pub has_name : String → Agent → Bool
has_name name a = a.name == name

abbrev pub has_token_hash : String → Agent → Bool
has_token_hash hash a = a.token_hash == hash

abbrev pub has_id : ℕ → Agent → Bool
has_id id a = a.id == id

abbrev pub owned_by : ℕ → Option ℕ → Bool
owned_by owner none = false
owned_by owner (some user) = user == owner

-- `WHERE id = $1 AND user_id = $2`
abbrev pub is_own : ℕ → ℕ → Agent → Bool
is_own owner id a = a.id == id && owned_by owner a.user_id

-- The owner that `EnsureAgent` writes: none for 0.
abbrev pub known_owner : ℕ → Option ℕ
known_owner user = if user == 0 then none else some user

abbrev pub new_agent : ℕ → ℕ → String → String → Option ℕ → Agent
new_agent id now name hash owner = record {
  id = id;
  name = name;
  token_hash = hash;
  user_id = owner;
  max_concurrent = 2;
  protocol = none;
  version = none;
  last_seen_at = none;
  created_at = now;
  completed = 0;
  phase = none;
  task_title = none;
  status_json = none;
  status_at = none;
}

abbrev pub with_token : String → Agent → Agent
with_token hash a = record a { token_hash = hash }

-- A row other than those a statement updates holds the hash already, which the table refuses.
abbrev pub clashes : (Agent → Bool) → String → List Agent → Bool
clashes p hash agents = any (λ a. not (p a) && has_token_hash hash a) agents

-- An `INSERT` that no name stands against: the sequence moves on also when the row is refused.
unfoldable pub insert_agent : ℕ → String → String → Option ℕ → Fleet → Fleet × Option Agent
insert_agent now name hash owner fleet =
    let a = new_agent fleet.next_id now name hash owner in
    if any (has_token_hash hash) fleet.agents
    then (record fleet { next_id = fleet.next_id + 1 }, none)
    else (record fleet { agents = fleet.agents ++ a ∷ []; next_id = fleet.next_id + 1 }, some a)

abbrev pub refreshed : String → Option ℕ → Agent → Agent
refreshed hash owner a = record a { token_hash = hash; user_id = coalesce owner a.user_id }

-- `INSERT ... ON CONFLICT (name) DO UPDATE ... RETURNING *`
unfoldable pub upsert_agent : ℕ → String → String → Option ℕ → Fleet → Fleet × Option Agent
unfolding insert_agent
upsert_agent now name hash owner fleet = elim (first_where (has_name name) fleet.agents) [
  | none ↦ insert_agent now name hash owner fleet
  | some a ↦
      if clashes (has_name name) hash fleet.agents
      then (record fleet { next_id = fleet.next_id + 1 }, none)
      else (
        record fleet {
          agents = update_where (has_name name) (refreshed hash owner) fleet.agents;
          next_id = fleet.next_id + 1;
        },
        some (refreshed hash owner a),
      )
]

-- `UPDATE agent SET token_hash`, where the selection has at most one row, with the number of rows.
unfoldable pub set_token : (Agent → Bool) → String → Fleet → Fleet × Option ℕ
set_token p hash fleet =
    if any p fleet.agents && clashes p hash fleet.agents then (fleet, none) else (
      record fleet { agents = update_where p (with_token hash) fleet.agents },
      some (count_if p fleet.agents),
    )

abbrev pub shown : String → Option Agent → Minted
shown tok none = unminted database_failed
shown tok (some a) = minted a tok

abbrev pub rotation : String → Option ℕ → Rotated
rotation tok none = unrotated database_failed
rotation tok (some n) = if n == 0 then unrotated agent_not_owned else rotated tok

abbrev pub regeneration : String → Option ℕ → Rotated
regeneration tok none = unrotated database_failed
regeneration tok (some n) = rotated tok

module _ (hash : String → String) where
  -- `EnsureAgent`, behind the master token
  unfoldable pub ensure_agent : ℕ → Option String → String → ℕ → Fleet → Fleet × Minted
  unfolding upsert_agent
  ensure_agent now none name user fleet = (fleet, unminted no_token)
  ensure_agent now (some tok) name user fleet =
      let after = upsert_agent now name (hash tok) (known_owner user) fleet in
      (after.0, shown tok after.1)

  -- `INSERT ... ON CONFLICT (name) DO NOTHING RETURNING *`
  unfoldable pub create_with : ℕ → String → String → ℕ → Fleet → Fleet × Minted
  unfolding insert_agent
  create_with now tok name owner fleet =
      if any (has_name name) fleet.agents
      then (record fleet { next_id = fleet.next_id + 1 }, unminted agent_name_taken)
      else (let after = insert_agent now name (hash tok) (some owner) fleet in
          (after.0, shown tok after.1))

  -- `CreateAgentOwned`
  unfoldable pub create_agent_owned : ℕ → Option String → ℕ → String → Fleet → Fleet × Minted
  unfolding create_with
  create_agent_owned now none owner name fleet =
      (fleet, unminted (if owner == 0 then agent_not_owned else no_token))
  create_agent_owned now (some tok) owner name fleet =
      if owner == 0 then (fleet, unminted agent_not_owned) else create_with now tok name owner fleet

  -- `RotateAgentTokenOwned`
  unfoldable pub rotate_agent_token_owned : Option String → ℕ → ℕ → Fleet → Fleet × Rotated
  unfolding set_token
  rotate_agent_token_owned none owner id fleet = (fleet, unrotated no_token)
  rotate_agent_token_owned (some tok) owner id fleet =
      let after = set_token (is_own owner id) (hash tok) fleet in (after.0, rotation tok after.1)

  -- `RegenerateAgentToken`
  unfoldable pub regenerate_agent_token : Option String → ℕ → Fleet → Fleet × Rotated
  unfolding set_token
  regenerate_agent_token none id fleet = (fleet, unrotated no_token)
  regenerate_agent_token (some tok) id fleet =
      let after = set_token (has_id id) (hash tok) fleet in (after.0, regeneration tok after.1)

  -- `AgentByToken`
  unfoldable pub agent_by_token : String → Fleet → Option Agent
  agent_by_token token fleet =
      if token == "" then none else first_where (has_token_hash (hash token)) fleet.agents
