-- ===== src/Agents/Tests.antt =====
-- Tests of the model of the agents, and its theorems at concrete inputs.
use loon_site.Prelude.{
  ℕ, ◌≡◌, ◌≢◌, refl, true, false, none, some, List, [], ◌∷◌, String, arith, eq_iff, All, string_eq,
}
use loon_site.Agents.{
  Agent, Fleet, new_agent, with_token, agent_by_token, rotate_agent_token_owned, create_agent_owned,
  unminted, agent_name_taken, rotated, unrotated, agent_not_owned,
}
use loon_site.Agents.Reports.{
  delete_agent_owned, count_agents, record_status, show_agents_on_profile,
  set_show_agents_on_profile,
}
use loon_site.Agents.Calls.{
  AgentOp, ensure_op, create_op, regenerate_op, remove_op, touch_op, after_agent_ops,
}
use loon_site.Agents.Unique.{IsValidFleet, after_agent_ops-IsValid}
use loon_site.Agents.Revoked.{rotate_revokes}
use loon_site.Agents.Owned.{not_of, own_calls_stay}

-- A hash that is plain to see.
abbrev shown_hash : String → String
shown_hash tok = tok

abbrev box : Agent
box = new_agent 1 100 "seedbox" "aa" (some 7)

abbrev pair : Fleet
pair = record {
  agents = box ∷ new_agent 2 110 "mule" "bb" none ∷ [];
  next_id = 3;
  prefs = (7, true) ∷ [];
}

pair-IsValid : IsValidFleet pair
pair-IsValid =
    ((refl, (refl, tt)), (refl, (refl, tt)), (refl, (refl, tt)), (omega arith, (omega arith, tt)))

abbrev calls : List AgentOp
calls =
    ensure_op 200 (some "dd") "mule" 8
    ∷ create_op 210 (some "ee") 9 "third"
    ∷ touch_op 220 1
    ∷ regenerate_op none 2
    ∷ remove_op 3
    ∷ []

after_agent_ops-IsValid_example : IsValidFleet (after_agent_ops shown_hash calls pair)
after_agent_ops-IsValid_example = after_agent_ops-IsValid shown_hash calls pair pair-IsValid

new_is_real : ◌≢◌ {A = String} "cc" ""
new_is_real same = let test = (eq_iff "cc" "").1 same in cc

new_differs : ◌≢◌ {A = String} "cc" "aa"
new_differs same = let test = (eq_iff "cc" "aa").1 same in cc

fourth_differs : ◌≢◌ {A = String} "dd" "aa"
fourth_differs same = let test = (eq_iff "dd" "aa").1 same in cc

fifth_differs : ◌≢◌ {A = String} "ee" "aa"
fifth_differs same = let test = (eq_iff "ee" "aa").1 same in cc

rotate_revokes_example :
    let after = rotate_agent_token_owned shown_hash (some "cc") 7 1 pair in
    (after.1 ≡ rotated "cc")
    × (agent_by_token shown_hash "cc" after.0 ≡ some (with_token "cc" box))
    × (agent_by_token shown_hash "aa" (after_agent_ops shown_hash calls after.0) ≡ none)
unfolding agent_by_token loon_site.Prelude.Rows.first_where
rotate_revokes_example =
    rotate_revokes shown_hash "cc" "aa" 7 box pair calls pair-IsValid refl refl new_is_real refl
      new_differs (fourth_differs, (fifth_differs, (tt, (tt, (tt, tt)))))

own_calls_stay_example :
    (not_of 8 (create_agent_owned shown_hash 300 (some "ff") 8 "seedbox" pair).0 ≡ not_of 8 pair)
    × (not_of 8 (rotate_agent_token_owned shown_hash (some "ff") 8 1 pair).0 ≡ not_of 8 pair)
    × (not_of 8 (delete_agent_owned 8 1 pair).0 ≡ not_of 8 pair)
own_calls_stay_example = own_calls_stay shown_hash 300 (some "ff") 8 1 "seedbox" pair

taken_name :
    (create_agent_owned shown_hash 300 (some "ff") 8 "seedbox" pair).1 ≡ unminted agent_name_taken
unfolding create_agent_owned
taken_name = refl

not_yours : (rotate_agent_token_owned shown_hash (some "ff") 8 1 pair).1 ≡ unrotated agent_not_owned
unfolding rotate_agent_token_owned
not_yours = refl

hidden_by_default : show_agents_on_profile 9 pair ≡ false
unfolding show_agents_on_profile loon_site.Prelude.lookup
hidden_by_default = refl

shown_when_set : show_agents_on_profile 9 (set_show_agents_on_profile 9 true pair) ≡ true
unfolding show_agents_on_profile loon_site.Prelude.lookup set_show_agents_on_profile
    loon_site.Prelude.insert
shown_when_set = refl

seen : count_agents 50 (record_status 60 2 1 "1.0" "posting" "" (some "{}") pair) ≡ (1, 2)
unfolding count_agents record_status loon_site.Prelude.Rows.update_where
seen = refl
