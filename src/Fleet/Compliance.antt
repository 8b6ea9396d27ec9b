-- ===== src/Fleet/Compliance.antt =====
-- The compliance checks of frontend/src/lib/compliance.ts. A score is a rounded quotient of whole
-- numbers; with fewer than 2^40 agents the quotient of floating-point numbers rounds the same way.
pub mod Scores
use simply_se.Base.{
  ℕ, ◌+◌, ◌*◌, ◌/◌, Bool, true, false, not, List, [], ◌∷◌, String, str_eq, ◌==◌, if◌then◌else◌,
  filter, map, length,
}
use simply_se.Fleet.Agent.{Agent, Alert}

pub data CheckStatus : Type 0 where
  pass fail unknown : CheckStatus

pub record CheckResult : Type 0 where
  pub id : String
  pub label : String
  pub status : CheckStatus

pub record AgentCompliance : Type 0 where
  pub agent : Agent
  pub checks : List CheckResult
  pub score : ℕ

-- `Math.round(a / b)`: half of the divisor is added, and the quotient rounded down.
abbrev pub round_div : ℕ → ℕ → ℕ
round_div a b = (2 * a + b) / (2 * b)

-- `counts.get(k) ?? 0`.
abbrev pub count_at : String → List (String × ℕ) → ℕ
count_at k [] = 0
count_at k ((j, n) ∷ counts) = if str_eq j k then n else count_at k counts

-- `counts.set(k, (counts.get(k) ?? 0) + 1)`.
abbrev pub count_up : String → List (String × ℕ) → List (String × ℕ)
count_up k [] = (k, 1) ∷ []
count_up k ((j, n) ∷ counts) =
    if str_eq j k then (j, n + 1) ∷ counts else (j, n) ∷ count_up k counts

abbrev pub applies : CheckResult → Bool
applies c = elim c.status [ pass ↦ true | fail ↦ true | unknown ↦ false ]

abbrev pub passes : CheckResult → Bool
passes c = elim c.status [ pass ↦ true | fail ↦ false | unknown ↦ false ]

abbrev pub verdict : Bool → CheckStatus
verdict ok = if ok then pass else fail

abbrev pub checks_of : Agent → List (String × ℕ) → List CheckResult
checks_of agent counts =
    let seen = not (str_eq agent.mode "unknown") in
    record {
      id = "enforcing";
      label = "Mode enforcing";
      status = if seen then verdict (str_eq agent.mode "enforcing") else unknown;
    }
    ∷ record { id = "connected"; label = "Agent joignable"; status = verdict agent.connected }
    ∷ record {
      id = "policy";
      label = "Politique targeted";
      status = if seen then verdict (str_eq agent.policy_name "targeted") else unknown;
    }
    ∷ record {
      id = "no_open_alerts";
      label = "Aucune alerte ouverte";
      status = verdict (count_at agent.id counts == 0);
    }
    ∷ []

abbrev pub score_of : List CheckResult → ℕ
score_of checks =
    let applicable = filter applies checks in
    let passed = length (filter passes applicable) in
    if length applicable == 0 then 100 else round_div (100 * passed) (length applicable)

unfoldable pub evaluate_agent : Agent → List (String × ℕ) → AgentCompliance
evaluate_agent agent counts = record {
  agent = agent;
  checks = checks_of agent counts;
  score = score_of (checks_of agent counts);
}

pub count_alerts : List (String × ℕ) → List Alert → List (String × ℕ)
count_alerts counts [] = counts
count_alerts counts (a ∷ alerts) = count_alerts (count_up a.agent_id counts) alerts

unfoldable pub evaluate_fleet : List Agent → List Alert → List AgentCompliance
unfolding count_alerts evaluate_agent
evaluate_fleet agents alerts =
    let counts = count_alerts [] alerts in map (λ agent. evaluate_agent agent counts) agents

pub sum_scores : ℕ → List AgentCompliance → ℕ
sum_scores sum [] = sum
sum_scores sum (r ∷ results) = sum_scores (sum + r.score) results

unfoldable pub fleet_score : List AgentCompliance → ℕ
unfolding sum_scores
fleet_score results =
    if length results == 0 then 100 else round_div (sum_scores 0 results) (length results)
