-- ===== src/Tests/Fleet.antt =====
-- Runs and instances for the fleet.
use simply_se.Base.{
  ℕ, ◌≤◌, ◌<◌, ◌≡◌, ◌≢◌, ◌↔◌, refl, Bool, true, false, none, some, List, [], ◌∷◌, String, map, any,
  get_elem?, arith,
}
use simply_se.Fleet.Agent.{Agent, Alert}
use simply_se.Fleet.Compliance.{
  AgentCompliance, evaluate_agent, evaluate_fleet, fleet_score, passes,
}
use simply_se.Fleet.Compliance.Scores.{
  fails, has_alert, alert_check, evaluate_agent_score, evaluate_fleet_alerts, fleet_score-bounds,
}
use simply_se.Fleet.Attention.{majority, agents_needing_attention}
use simply_se.Fleet.Attention.Majority.{votes, majority_iff}
use simply_se.Fleet.Attention.Listing.{Attends, agents_needing_attention-Attends}

abbrev agent : String → String → String → Bool → Agent
agent id mode version connected = record {
  id = id;
  hostname = id;
  ip = "10.0.0.1";
  os_release = "";
  kernel_version = "";
  agent_version = version;
  mode = mode;
  policy_name = "targeted";
  policy_version = "33";
  group = "";
  status = "online";
  enrolled_at = "";
  last_seen_at = none;
  connected = connected;
}

abbrev alert : String → Alert
alert agent_id = record {
  id = "1";
  type = "denial";
  title = "";
  message = "";
  agent_id = agent_id;
  scontext = "";
  tcontext = "";
  tclass = "";
  severity = "low";
  status = "open";
  created_at = "";
  acknowledged_at = none;
  acknowledged_by = "";
}

abbrev fleet : List Agent
fleet =
    agent "a" "enforcing" "1.2" true
    ∷ agent "b" "permissive" "1.2" true
    ∷ agent "c" "unknown" "1.1" false
    ∷ []

three_quarters : (evaluate_agent (agent "b" "permissive" "1.2" true) []).score ≡ 75
unfolding evaluate_agent
three_quarters = refl

most_common : majority ("1.2" ∷ "" ∷ "1.1" ∷ "1.2" ∷ []) ≡ some "1.2"
unfolding majority
most_common = refl

evaluate_agent_score_example :
    ((evaluate_agent (agent "c" "unknown" "1.1" false) (("c", 2) ∷ [])).score ≤ 100)
    × ((((evaluate_agent (agent "c" "unknown" "1.1" false) (("c", 2) ∷ [])).score ≡ 100) ↔ (
          any fails (evaluate_agent (agent "c" "unknown" "1.1" false) (("c", 2) ∷ [])).checks
          ≡ false))
        × (((evaluate_agent (agent "c" "unknown" "1.1" false) (("c", 2) ∷ [])).score ≡ 0) ↔ (
            any passes (evaluate_agent (agent "c" "unknown" "1.1" false) (("c", 2) ∷ [])).checks
            ≡ false)))
evaluate_agent_score_example =
    evaluate_agent_score (agent "c" "unknown" "1.1" false) (("c", 2) ∷ [])

evaluate_fleet_alerts_example :
    (map (λ r. r.agent) (evaluate_fleet fleet (alert "b" ∷ [])) ≡ fleet)
    × (map (λ r. get_elem? r.checks 3) (evaluate_fleet fleet (alert "b" ∷ []))
        ≡ map (λ a. some (alert_check (has_alert (alert "b" ∷ []) a))) fleet)
evaluate_fleet_alerts_example = evaluate_fleet_alerts fleet (alert "b" ∷ [])

abbrev result : ℕ → AgentCompliance
result n = record { agent = agent "a" "enforcing" "1.2" true; checks = []; score = n }

fleet_score-bounds_example :
    (50 ≤ fleet_score (result 50 ∷ result 75 ∷ []))
    × (fleet_score (result 50 ∷ result 75 ∷ []) ≤ 75)
fleet_score-bounds_example =
    fleet_score-bounds 50 75 (result 50) (result 75 ∷ [])
      ((omega arith, omega arith), ((omega arith, omega arith), tt))

majority_iff_example : (majority ("1.2" ∷ "" ∷ "1.1" ∷ "1.2" ∷ []) ≡ some "1.2") ↔ (
    ((w : String)
      → w ≢ "1.2"
      → votes w ("1.2" ∷ "" ∷ "1.1" ∷ "1.2" ∷ []) < votes "1.2" ("1.2" ∷ "" ∷ "1.1" ∷ "1.2" ∷ []))
    × ((w : String) × ((w ≢ "1.2") × (0 < votes w ("1.2" ∷ "" ∷ "1.1" ∷ "1.2" ∷ [])))))
majority_iff_example = majority_iff "1.2" ("1.2" ∷ "" ∷ "1.1" ∷ "1.2" ∷ [])

abbrev any_order : String → String → Bool
any_order a b = true

agents_needing_attention-Attends_example :
    Attends any_order
      (majority (map (λ a. a.agent_version) fleet))
      (majority (map (λ a. a.policy_version) fleet))
      fleet
      (agents_needing_attention any_order fleet)
agents_needing_attention-Attends_example =
    agents_needing_attention-Attends any_order (λ a b h. refl) fleet
