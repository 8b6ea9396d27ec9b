-- ===== src/Fleet/Attention/Listing.antt =====
-- Which agents are listed for attention, and in which order.
use simply_se.Base.{
  ℕ, ◌+◌, ◌≡◌, refl, ◌∙◌, ap, Bool, true, false, ◌&&◌, List, [], ◌∷◌, String, if◌then◌else◌, map,
  arith, All, Option, ap₂, ltb, ◌==◌,
}
use simply_se.Base.Sort.{
  sort_by, IsSorted-ext, sum_by, sum_by-sort_by, All-sort_by, IsSorted, sort_by-IsSorted,
}
use simply_se.Fleet.Agent.{Agent}
use simply_se.Fleet.Attention.Reasons.{
  HasReasons, TellsNeed, needs_attention, needs_attention-TellsNeed, reasons_of-HasReasons,
  urgency-level, comes_first,
}
use simply_se.Fleet.Attention.{
  AttentionReason, AttentionAgent, majority, mode_reasons, reasons_of, enlist, listed,
  urgent_before, agents_needing_attention,
}

-- How many agents of a test a list has.
abbrev pub agents_of : (Agent → Bool) → List AttentionAgent → ℕ
agents_of p out = sum_by (λ a. if p a.agent then 1 else 0) out

enlist_count :
    (p : Agent → Bool) (v w : Option String) (a : Agent) (rest : List AttentionAgent)
    → agents_of p (enlist a (reasons_of v w a) rest)
      ≡ (if p a && needs_attention v w a then 1 else 0) + agents_of p rest
unfolding enlist reasons_of mode_reasons sum_by
enlist_count p v w a rest = ground arith

agents_of-listed :
    (p : Agent → Bool) (v w : Option String) (agents : List Agent)
    → agents_of p (listed v w agents)
      ≡ sum_by (λ a. if p a && needs_attention v w a then 1 else 0) agents
unfolding listed sum_by
agents_of-listed p v w [] = refl
agents_of-listed p v w (a ∷ agents) =
    enlist_count p v w a (listed v w agents)
    ∙ ap (λ n. (if p a && needs_attention v w a then 1 else 0) + n) (agents_of-listed p v w agents)

enlist-HaveReasons :
    (v w : Option String) (a : Agent) (rs : List AttentionReason) (rest : List AttentionAgent)
    → HasReasons v w (record { agent = a; reasons = rs })
    → All (HasReasons v w) rest
    → All (HasReasons v w) (enlist a rs rest)
unfolding enlist
enlist-HaveReasons v w a [] rest e h = h
enlist-HaveReasons v w a (r ∷ rs) rest e h = (e, h)

listed-HaveReasons :
    (v w : Option String) (agents : List Agent) → All (HasReasons v w) (listed v w agents)
unfolding listed
listed-HaveReasons v w [] = tt
listed-HaveReasons v w (a ∷ agents) =
    enlist-HaveReasons v w a (reasons_of v w a) (listed v w agents) (reasons_of-HasReasons v w a)
      (listed-HaveReasons v w agents)

-- The list of agents to look at, against the fleet and the most common versions in it.
pub record Attends (locale_le : String → String → Bool) (v w : Option String) (agents : List Agent)
    (out : List AttentionAgent) : Type 0 where
  pub complete :
      (needs : Agent → Bool) × TellsNeed v w needs
      × ((p : Agent → Bool)
          → agents_of p out ≡ sum_by (λ a. if p a && needs a then 1 else 0) agents)
  pub reasons : All (HasReasons v w) out
  pub sorted : IsSorted (comes_first locale_le) out

module _ (locale_le : String → String → Bool)
    (total : (a b : String) → locale_le a b ≡ false → locale_le b a ≡ true) where
  urgent_before-total :
      (a b : AttentionAgent)
      → urgent_before locale_le a b ≡ false
      → urgent_before locale_le b a ≡ true
  unfolding urgent_before
  urgent_before-total a b h = ground (arith, total a.agent.hostname b.agent.hostname)

  urgent_before-comes_first :
      (a b : AttentionAgent) → urgent_before locale_le a b ≡ comes_first locale_le a b
  unfolding urgent_before
  urgent_before-comes_first a b =
      ap₂ (λ i j. if i == j then locale_le a.agent.hostname b.agent.hostname else ltb i j)
        (urgency-level a.reasons) (urgency-level b.reasons)

  -- Where the comparison of names is total, the list holds every agent with a reason once and no
  -- other agent. Each is given exactly the reasons that hold of it: it is offline, SELinux is disabled
  -- or unknown on it, it is permissive, or its policy or its agent has another version than the common
  -- one. The most urgent reason decides the order, in that order of the reasons, and then the name.
  pub agents_needing_attention-Attends :
      (agents : List Agent)
      → Attends locale_le
          (majority (map (λ a. a.agent_version) agents))
          (majority (map (λ a. a.policy_version) agents))
          agents
          (agents_needing_attention locale_le agents)
  unfolding agents_needing_attention
  agents_needing_attention-Attends agents =
      let v = majority (map (λ a. a.agent_version) agents) in
      let w = majority (map (λ a. a.policy_version) agents) in
      let out = listed v w agents in
      record {
        complete = (
          needs_attention v w,
          needs_attention-TellsNeed v w,
          λ p.
              sum_by-sort_by (urgent_before locale_le) (λ a. if p a.agent then 1 else 0) out
              ∙ agents_of-listed p v w agents,
        );
        reasons =
            All-sort_by (urgent_before locale_le) (HasReasons v w) out
              (listed-HaveReasons v w agents);
        sorted =
            IsSorted-ext (urgent_before locale_le) (comes_first locale_le) urgent_before-comes_first
              (sort_by (urgent_before locale_le) out)
              (sort_by-IsSorted (urgent_before locale_le) urgent_before-total out);
      }
