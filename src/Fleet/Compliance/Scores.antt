-- ===== src/Fleet/Compliance/Scores.antt =====
-- What the compliance scores of frontend/src/lib/compliance.ts mean.
use native.Mathlib.Nat.{div-lt_iff_lt-mul}
use simply_se.Base.{
  ℕ, suc, ◌+◌, ◌*◌, ◌/◌, ◌≤◌, ◌<◌, ◌≡◌, ◌↔◌, refl, Bool, true, false, not, List, [], ◌∷◌, String,
  str_eq, eq_iff, ◌==◌, if◌then◌else◌, map, length, any, count, arith, All, Bool-cases, inl, inr,
  get_elem?, some, ap, ap₂, ◌∙◌,
}
use simply_se.Fleet.Agent.{Agent, Alert}
use simply_se.Fleet.Compliance.{
  CheckResult, AgentCompliance, pass, fail, unknown, round_div, count_at, count_up, passes,
  evaluate_agent, count_alerts, evaluate_fleet, sum_scores, fleet_score,
}

pub count_at-count_up :
    (j k : String) (counts : List (String × ℕ))
    → count_at j (count_up k counts) ≡ (if str_eq k j then 1 else 0) + count_at j counts
count_at-count_up j k [] = ground arith
count_at-count_up j k ((i, n) ∷ counts) =
    ground (arith, eq_iff i k, eq_iff i j, eq_iff k j, count_at-count_up j k counts)

-- The map of open alerts counts the alerts of each agent.
count_at-count_alerts :
    (k : String) (counts : List (String × ℕ)) (alerts : List Alert)
    → count_at k (count_alerts counts alerts)
      ≡ count (λ a. str_eq a.agent_id k) alerts + count_at k counts
unfolding count_alerts
count_at-count_alerts k counts [] = omega arith
count_at-count_alerts k counts (a ∷ alerts) = omega (
  arith,
  count_at-count_alerts k (count_up a.agent_id counts) alerts,
  count_at-count_up k a.agent_id counts,
)

abbrev pub fails : CheckResult → Bool
fails c = elim c.status [ pass ↦ false | fail ↦ true | unknown ↦ false ]

-- The score of an agent is at most 100, it is 100 exactly if no check failed, and 0 exactly if no
-- check passed; checks that do not apply count for nothing.
pub evaluate_agent_score :
    (agent : Agent) (counts : List (String × ℕ))
    → ((evaluate_agent agent counts).score ≤ 100)
      × ((((evaluate_agent agent counts).score ≡ 100)
            ↔ (any fails (evaluate_agent agent counts).checks ≡ false))
          × (((evaluate_agent agent counts).score ≡ 0)
              ↔ (any passes (evaluate_agent agent counts).checks ≡ false)))
unfolding evaluate_agent
evaluate_agent_score agent counts = ground arith

count_none :
    (k : String) (alerts : List Alert)
    → (count (λ a. str_eq a.agent_id k) alerts == 0) ≡ not (any (λ a. str_eq a.agent_id k) alerts)
count_none k [] = refl
count_none k (a ∷ alerts) = ground (arith, count_none k alerts)

sum_scores-bounds :
    (lo hi sum : ℕ) (results : List AgentCompliance)
    → All (λ r. (lo ≤ r.score) × (r.score ≤ hi)) results
    → (sum + lo * length results ≤ sum_scores sum results)
      × (sum_scores sum results ≤ sum + hi * length results)
unfolding sum_scores
sum_scores-bounds lo hi sum [] h = omega arith
sum_scores-bounds lo hi sum (r ∷ results) ((p, q), h) =
    let ih = sum_scores-bounds lo hi (sum + r.score) results h in let (l, u) = ih in omega arith

round_div-bounds :
    (lo hi a n : ℕ) → 0 < n → lo * n ≤ a → a ≤ hi * n → (lo ≤ round_div a n) × (round_div a n ≤ hi)
round_div-bounds lo hi a n p l h =
    let x = 2 * a + n in
    let low = div-lt_iff_lt-mul {k = 2 * n} {x = x} {y = lo} (omega arith) in
    let high = div-lt_iff_lt-mul {k = 2 * n} {x = x} {y = suc hi} (omega arith) in
    let above : x / (2 * n) < suc hi = high.1 (omega arith) in (grind (arith, low), omega arith)

-- The score of a fleet lies between the lowest and the highest score of its agents.
pub fleet_score-bounds :
    (lo hi : ℕ) (r : AgentCompliance) (results : List AgentCompliance)
    → All (λ r. (lo ≤ r.score) × (r.score ≤ hi)) (r ∷ results)
    → (lo ≤ fleet_score (r ∷ results)) × (fleet_score (r ∷ results) ≤ hi)
unfolding fleet_score
fleet_score-bounds lo hi r results h =
    let (l, u) = sum_scores-bounds lo hi 0 (r ∷ results) h in
    let some : (length (r ∷ results) == 0) ≡ false = ground arith in
    rw some (
      round_div-bounds lo hi (sum_scores 0 (r ∷ results)) (length (r ∷ results)) (omega arith)
        (omega arith) (omega arith))

-- The check of open alerts of an agent in the fleet.
abbrev pub has_alert : List Alert → Agent → Bool
has_alert alerts agent = any (λ a. str_eq a.agent_id agent.id) alerts

abbrev pub alert_check : Bool → CheckResult
alert_check bad = record {
  id = "no_open_alerts";
  label = "Aucune alerte ouverte";
  status = if bad then fail else pass;
}

evaluate_agents :
    (counts : List (String × ℕ)) (alerts : List Alert) (agents : List Agent)
    → ((k : String) → (count_at k counts == 0) ≡ not (any (λ a. str_eq a.agent_id k) alerts))
    → (map (λ r. r.agent) (map (λ agent. evaluate_agent agent counts) agents) ≡ agents)
      × (map (λ r. get_elem? r.checks 3) (map (λ agent. evaluate_agent agent counts) agents)
          ≡ map (λ agent. some (alert_check (has_alert alerts agent))) agents)
unfolding evaluate_agent
evaluate_agents counts alerts [] h = (refl, refl)
evaluate_agents counts alerts (agent ∷ agents) h =
    let (same, checks) = evaluate_agents counts alerts agents h in
    (
      ap (λ l. agent ∷ l) same,
      ap₂ (λ c l. some c ∷ l)
          (elim (Bool-cases (has_alert alerts agent)) [
            | inl e ↦ rw (h agent.id, e)
            | inr e ↦ rw (h agent.id, e)
          ])
          checks,
    )

-- Every agent of the fleet is judged, in the same order, and the check of open alerts fails exactly
-- for the agents that one of the open alerts names.
pub evaluate_fleet_alerts :
    (agents : List Agent) (alerts : List Alert)
    → (map (λ r. r.agent) (evaluate_fleet agents alerts) ≡ agents)
      × (map (λ r. get_elem? r.checks 3) (evaluate_fleet agents alerts)
          ≡ map (λ agent. some (alert_check (has_alert alerts agent))) agents)
unfolding evaluate_fleet
evaluate_fleet_alerts agents alerts = evaluate_agents (count_alerts [] alerts) alerts agents λ k.
    let counted : count_at k (count_alerts [] alerts) ≡ count (λ a. str_eq a.agent_id k) alerts =
      omega (arith, count_at-count_alerts k [] alerts) in
    ap (λ n. n == 0) counted ∙ count_none k alerts
