-- ===== src/Agents/Calls.antt =====
-- The calls on the fleet's agents, in any order.
use loon_site.Prelude.{ℕ, ◌≢◌, Bool, Option, none, some, List, [], ◌∷◌, String}
use loon_site.Agents.{
  Fleet, ensure_agent, create_agent_owned, rotate_agent_token_owned, regenerate_agent_token,
}
use loon_site.Agents.Reports.{
  delete_agent_owned, delete_agent, set_agent_max_concurrent, record_status, touch_agent,
  complete_task, set_show_agents_on_profile,
}

pub data AgentOp : Type 0 where
  ensure_op : ℕ → Option String → String → ℕ → AgentOp
  create_op : ℕ → Option String → ℕ → String → AgentOp
  rotate_op : Option String → ℕ → ℕ → AgentOp
  regenerate_op : Option String → ℕ → AgentOp
  remove_own_op : ℕ → ℕ → AgentOp
  remove_op : ℕ → AgentOp
  limit_op : ℕ → ℕ → AgentOp
  status_op : ℕ → ℕ → ℕ → String → String → String → Option String → AgentOp
  touch_op : ℕ → ℕ → AgentOp
  complete_op : ℕ → ℕ → AgentOp
  show_op : ℕ → Bool → AgentOp

module _ (hash : String → String) where
  unfoldable pub after_agent_op : AgentOp → Fleet → Fleet
  after_agent_op (ensure_op now drawn name user) fleet =
      (ensure_agent hash now drawn name user fleet).0
  after_agent_op (create_op now drawn owner name) fleet =
      (create_agent_owned hash now drawn owner name fleet).0
  after_agent_op (rotate_op drawn owner id) fleet =
      (rotate_agent_token_owned hash drawn owner id fleet).0
  after_agent_op (regenerate_op drawn id) fleet = (regenerate_agent_token hash drawn id fleet).0
  after_agent_op (remove_own_op owner id) fleet = (delete_agent_owned owner id fleet).0
  after_agent_op (remove_op id) fleet = delete_agent id fleet
  after_agent_op (limit_op id n) fleet = set_agent_max_concurrent id n fleet
  after_agent_op (status_op now id protocol version phase title json) fleet =
      record_status now id protocol version phase title json fleet
  after_agent_op (touch_op now id) fleet = touch_agent now id fleet
  after_agent_op (complete_op now id) fleet = complete_task now id fleet
  after_agent_op (show_op user show) fleet = set_show_agents_on_profile user show fleet

  unfoldable pub after_agent_ops : List AgentOp → Fleet → Fleet
  after_agent_ops [] fleet = fleet
  after_agent_ops (op ∷ ops) fleet = after_agent_ops ops (after_agent_op op fleet)

  -- A token that is drawn has another hash.
  abbrev pub DrawsUnlike : String → Option String → Type 0
  DrawsUnlike h none = Unit
  DrawsUnlike h (some tok) = hash tok ≢ h

  abbrev pub DrawsOtherHash : String → AgentOp → Type 0
  DrawsOtherHash h (ensure_op now drawn name user) = DrawsUnlike h drawn
  DrawsOtherHash h (create_op now drawn owner name) = DrawsUnlike h drawn
  DrawsOtherHash h (rotate_op drawn owner id) = DrawsUnlike h drawn
  DrawsOtherHash h (regenerate_op drawn id) = DrawsUnlike h drawn
  DrawsOtherHash h (remove_own_op owner id) = Unit
  DrawsOtherHash h (remove_op id) = Unit
  DrawsOtherHash h (limit_op id n) = Unit
  DrawsOtherHash h (status_op now id protocol version phase title json) = Unit
  DrawsOtherHash h (touch_op now id) = Unit
  DrawsOtherHash h (complete_op now id) = Unit
  DrawsOtherHash h (show_op user show) = Unit
