-- ===== src/Fleet/Attention.antt =====
-- The agents that need attention (frontend/src/lib/attention.ts).
pub mod Majority
pub mod Reasons
pub mod Listing
use simply_se.Base.{
  ℕ, ◌+◌, Bool, true, false, not, ◌&&◌, ◌||◌, List, [], ◌∷◌, ◌++◌, String, str_eq, ltb, leb, ◌==◌,
  min, if◌then◌else◌, map, length, Option, none, some,
}
use simply_se.Base.Sort.{sort_by}
use simply_se.Fleet.Agent.{Agent}
use simply_se.Fleet.Compliance.{count_up}

pub data AttentionReason : Type 0 where
  offline disabled permissive policy_mismatch outdated : AttentionReason

abbrev pub reason_rank : AttentionReason → ℕ
reason_rank offline = 0
reason_rank disabled = 1
reason_rank permissive = 2
reason_rank policy_mismatch = 3
reason_rank outdated = 4

pub record AttentionAgent : Type 0 where
  pub agent : Agent
  pub reasons : List AttentionReason

-- How often each text occurs, the empty text left out.
pub tally : List (String × ℕ) → List String → List (String × ℕ)
tally counts [] = counts
tally counts (v ∷ values) =
    if str_eq v "" then tally counts values else tally (count_up v counts) values

-- The loop over the counts: the best so far, its count, and whether another one has as many.
pub scan : Option String → ℕ → Bool → List (String × ℕ) → Option String
scan best best_count tie [] = if tie then none else best
scan best best_count tie ((v, n) ∷ counts) =
    if ltb best_count n
    then scan (some v) n false counts
    else scan best best_count (if n == best_count then true else tie) counts

unfoldable pub majority : List String → Option String
unfolding tally scan
majority values =
    let counts = tally [] values in if ltb (length counts) 2 then none else scan none 0 false counts

-- `common && value && value !== common`; the common text of `majority` is not empty.
pub differs : Option String → String → Bool
differs none value = false
differs (some common) value =
    not (str_eq common "") && not (str_eq value "") && not (str_eq value common)

pub mode_reasons : String → List AttentionReason
mode_reasons mode =
    if str_eq mode "disabled" || str_eq mode "unknown"
    then disabled ∷ []
    else if str_eq mode "permissive"
    then permissive ∷ []
    else []

pub reasons_of : Option String → Option String → Agent → List AttentionReason
unfolding mode_reasons differs
reasons_of common_version common_policy agent =
    (if agent.connected then [] else offline ∷ [])
    ++ mode_reasons agent.mode
    ++ (if differs common_policy agent.policy_version then policy_mismatch ∷ [] else [])
    ++ (if differs common_version agent.agent_version then outdated ∷ [] else [])

-- `if (reasons.length) out.push({ agent, reasons })`.
pub enlist : Agent → List AttentionReason → List AttentionAgent → List AttentionAgent
enlist agent [] rest = rest
enlist agent (r ∷ rs) rest = record { agent = agent; reasons = r ∷ rs } ∷ rest

pub listed : Option String → Option String → List Agent → List AttentionAgent
unfolding reasons_of enlist
listed common_version common_policy [] = []
listed common_version common_policy (agent ∷ agents) =
    enlist agent (reasons_of common_version common_policy agent)
      (listed common_version common_policy agents)

-- `Math.min` of the ranks. Only agents with a reason are compared; 5 stands for no rank.
pub urgency : List AttentionReason → ℕ
urgency [] = 5
urgency (r ∷ rs) = min (reason_rank r) (urgency rs)

-- `locale_le a b` stands for `a.localeCompare(b) <= 0`.
module _ (locale_le : String → String → Bool) where
  pub urgent_before : AttentionAgent → AttentionAgent → Bool
  unfolding urgency
  urgent_before a b =
      let i = urgency a.reasons in
      let j = urgency b.reasons in
      if i == j then locale_le a.agent.hostname b.agent.hostname else ltb i j

  unfoldable pub agents_needing_attention : List Agent → List AttentionAgent
  unfolding majority listed urgent_before
  agents_needing_attention agents =
      let common_version = majority (map (λ a. a.agent_version) agents) in
      let common_policy = majority (map (λ a. a.policy_version) agents) in
      sort_by urgent_before (listed common_version common_policy agents)
