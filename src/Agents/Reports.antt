-- ===== src/Agents/Reports.antt =====
-- internal/storage/agents.go: what is changed and read of an agent once it is there.
use loon_site.Prelude.{
  ℕ, ◌+◌, Bool, false, not, Option, none, some, String, ltb, leb, ◌==◌, nat_eq, if◌then◌else◌, any,
  keep, count_if, length, lookup, insert,
}
use loon_site.Prelude.Rows.{update_where}
use loon_site.Agents.{Fleet, is_own, has_id, coalesce, null_if_blank}

-- `DeleteAgentOwned`, with false for the error that the agent is not the member's.
unfoldable pub delete_agent_owned : ℕ → ℕ → Fleet → Fleet × Bool
delete_agent_owned owner id fleet = (
  record fleet { agents = keep (λ a. not (is_own owner id a)) fleet.agents },
  any (is_own owner id) fleet.agents,
)

-- `DeleteAgent`
unfoldable pub delete_agent : ℕ → Fleet → Fleet
delete_agent id fleet = record fleet { agents = keep (λ a. not (has_id id a)) fleet.agents }

-- `SetAgentMaxConcurrent`
unfoldable pub set_agent_max_concurrent : ℕ → ℕ → Fleet → Fleet
set_agent_max_concurrent id n fleet =
    let most = if ltb n 1 then 1 else n in
    record fleet {
      agents = update_where (has_id id) (λ a. record a { max_concurrent = most }) fleet.agents;
    }

-- `RecordStatus`, with the phase, the title and the JSON of the status; a status that has no JSON
-- changes nothing.
unfoldable pub record_status : ℕ → ℕ → ℕ → String → String → String → Option String → Fleet → Fleet
record_status now id protocol version phase title none fleet = fleet
record_status now id protocol version phase title (some json) fleet = record fleet {
  agents =
      update_where (has_id id)
        (λ a. record a {
          last_seen_at = some now;
          protocol = coalesce (if protocol == 0 then none else some protocol) a.protocol;
          version = coalesce (null_if_blank version) a.version;
          phase = null_if_blank phase;
          task_title = null_if_blank title;
          status_json = some json;
          status_at = some now;
        })
        fleet.agents;
}

-- `TouchAgent`
unfoldable pub touch_agent : ℕ → ℕ → Fleet → Fleet
touch_agent now id fleet = record fleet {
  agents = update_where (has_id id) (λ a. record a { last_seen_at = some now }) fleet.agents;
}

-- `CompleteTask`
unfoldable pub complete_task : ℕ → ℕ → Fleet → Fleet
complete_task now id fleet = record fleet {
  agents =
      update_where (has_id id)
        (λ a. record a { completed = a.completed + 1; last_seen_at = some now }) fleet.agents;
}

-- `ShowAgentsOnProfile`: no row means hidden.
abbrev pub or_hidden : Option Bool → Bool
or_hidden none = false
or_hidden (some show) = show

unfoldable pub show_agents_on_profile : ℕ → Fleet → Bool
show_agents_on_profile user fleet = or_hidden (lookup user fleet.prefs)

-- `SetShowAgentsOnProfile`
unfoldable pub set_show_agents_on_profile : ℕ → Bool → Fleet → Fleet
set_show_agents_on_profile user show fleet = record fleet { prefs = insert user show fleet.prefs }

-- `CountAgents`: those seen since a time, and all.
abbrev pub seen_since : ℕ → Option ℕ → Bool
seen_since since none = false
seen_since since (some at) = leb since at

unfoldable pub count_agents : ℕ → Fleet → ℕ × ℕ
count_agents since fleet =
    (count_if (λ a. seen_since since a.last_seen_at) fleet.agents, length fleet.agents)
