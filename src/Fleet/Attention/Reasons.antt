-- ===== src/Fleet/Attention/Reasons.antt =====
-- Which reasons for attention hold of an agent (frontend/src/lib/attention.ts), and how urgent they are.
use simply_se.Base.{
  ℕ, ◌≡◌, refl, Bool, true, false, not, ◌&&◌, ◌||◌, List, [], ◌∷◌, String, str_eq, if◌then◌else◌,
  arith, Option, any, none, some, ◌⊎◌, ◌↔◌, inl, inr, eq_iff, subst, sym, ltb, ◌==◌, Bool-cases,
}
use mathlib.Core.Option.{some-injective}
use simply_se.Fleet.Agent.{Agent}
use simply_se.Fleet.Attention.{
  AttentionReason, offline, disabled, permissive, policy_mismatch, outdated, urgency,
  AttentionAgent, differs, mode_reasons, reasons_of,
}

-- The agent has a reason, as a test.
abbrev pub needs_attention : Option String → Option String → Agent → Bool
needs_attention common_version common_policy a =
    not a.connected
    || (str_eq a.mode "disabled"
        || (str_eq a.mode "unknown"
            || (str_eq a.mode "permissive"
                || (differs common_policy a.policy_version
                    || differs common_version a.agent_version))))

abbrev same_reason : AttentionReason → AttentionReason → Bool
same_reason offline offline = true
same_reason disabled disabled = true
same_reason permissive permissive = true
same_reason policy_mismatch policy_mismatch = true
same_reason outdated outdated = true
same_reason r s = false

-- One of the reasons given is this one.
abbrev pub has : AttentionReason → List AttentionReason → Bool
has r reasons = any (same_reason r) reasons

-- There is a common text, and this one is there and is another.
abbrev pub IsOther : Option String → String → Type 0
IsOther common value =
    (c : String) × (common ≡ some c) × ¬ (c ≡ "") × ¬ (value ≡ "") × ¬ (value ≡ c)

-- When a reason holds of an agent, against the common agent version and policy version.
abbrev pub Applies : Option String → Option String → Agent → AttentionReason → Type 0
Applies version policy a offline = a.connected ≡ false
Applies version policy a disabled = (a.mode ≡ "disabled") ⊎ (a.mode ≡ "unknown")
Applies version policy a permissive = a.mode ≡ "permissive"
Applies version policy a policy_mismatch = IsOther policy a.policy_version
Applies version policy a outdated = IsOther version a.agent_version

-- The reasons given are those that hold of the agent.
abbrev pub HasReasons : Option String → Option String → AttentionAgent → Type 0
HasReasons v w a = (r : AttentionReason) → (has r a.reasons ≡ true) ↔ Applies v w a.agent r

is_not : (b : Bool) → ¬ (b ≡ true) → b ≡ false
is_not true h = absurd (h refl)
is_not false h = refl

differs_holds :
    (c d value : String)
    → c ≡ d
    → ¬ (d ≡ "")
    → ¬ (value ≡ "")
    → ¬ (value ≡ d)
    → (not (str_eq c "") && not (str_eq value "") && not (str_eq value c)) ≡ true
differs_holds c d value e h k l = rw (
  e,
  is_not (str_eq d "") λ x. h ((eq_iff d "").0 x),
  is_not (str_eq value "") λ x. k ((eq_iff value "").0 x),
  is_not (str_eq value d) λ x. l ((eq_iff value d).0 x),
)

differs-IsOther :
    (common : Option String) (value : String) → (differs common value ≡ true) ↔ IsOther common value
unfolding differs
differs-IsOther none value = (λ e. cc, λ (c, e, h, k, l). cc)
differs-IsOther (some c) value =
    let a = eq_iff c "" in
    let b = eq_iff value "" in
    let d = eq_iff value c in
    (
      λ e. (
        c,
        refl,
        λ x. ground (arith, a.1 x),
        λ x. ground (arith, b.1 x),
        λ x. ground (arith, d.1 x),
      ),
      λ (c', e, h, k, l). differs_holds c c' value (some-injective _ _ e) h k l,
    )

applies : Option String → Option String → Agent → AttentionReason → Bool
applies v w a offline = not a.connected
applies v w a disabled = str_eq a.mode "disabled" || str_eq a.mode "unknown"
applies v w a permissive = str_eq a.mode "permissive"
applies v w a policy_mismatch = differs w a.policy_version
applies v w a outdated = differs v a.agent_version

applies-Applies :
    (v w : Option String) (a : Agent) (r : AttentionReason)
    → (applies v w a r ≡ true) ↔ Applies v w a r
unfolding applies
applies-Applies v w a offline = (λ e. ground arith, λ e. ground arith)
applies-Applies v w a disabled = (
  λ e. elim (Bool-cases (str_eq a.mode "disabled")) [
    | inl h ↦ inl ((eq_iff a.mode "disabled").0 h)
    | inr h ↦ inr ((eq_iff a.mode "unknown").0 (ground arith))
  ],
  λ x. elim x [
    | inl h ↦ let k = (eq_iff a.mode "disabled").1 h in ground arith
    | inr h ↦ let k = (eq_iff a.mode "unknown").1 h in ground arith
  ],
)
applies-Applies v w a permissive = eq_iff a.mode "permissive"
applies-Applies v w a policy_mismatch = differs-IsOther w a.policy_version
applies-Applies v w a outdated = differs-IsOther v a.agent_version

one_mode :
    (m : String)
    → str_eq m "permissive" ≡ true
    → (str_eq m "disabled" || str_eq m "unknown") ≡ false
one_mode m e = rw ((eq_iff m "permissive").0 e) refl

has-reasons_of :
    (v w : Option String) (a : Agent) (r : AttentionReason)
    → has r (reasons_of v w a) ≡ applies v w a r
unfolding reasons_of mode_reasons applies
has-reasons_of v w a offline = ground arith
has-reasons_of v w a disabled = ground arith
has-reasons_of v w a permissive = ground (arith, one_mode a.mode)
has-reasons_of v w a policy_mismatch = ground arith
has-reasons_of v w a outdated = ground arith

pub reasons_of-HasReasons :
    (v w : Option String) (a : Agent)
    → HasReasons v w (record { agent = a; reasons = reasons_of v w a })
reasons_of-HasReasons v w a r =
    subst (λ b. (b ≡ true) ↔ Applies v w a r) (sym (has-reasons_of v w a r))
      (applies-Applies v w a r)

-- An agent with a reason, for a test that tells them.
abbrev pub TellsNeed : Option String → Option String → (Agent → Bool) → Type 0
TellsNeed v w needs =
    (a : Agent)
    → (needs a ≡ true → (r : AttentionReason) × Applies v w a r)
      × ((r : AttentionReason) → Applies v w a r → needs a ≡ true)

applies-needs_attention :
    (v w : Option String) (a : Agent) (r : AttentionReason)
    → applies v w a r ≡ true
    → needs_attention v w a ≡ true
unfolding applies
applies-needs_attention v w a offline e = ground arith
applies-needs_attention v w a disabled e = ground arith
applies-needs_attention v w a permissive e = ground arith
applies-needs_attention v w a policy_mismatch e = ground arith
applies-needs_attention v w a outdated e = ground arith

needs_attention-applies :
    (v w : Option String) (a : Agent)
    → needs_attention v w a ≡ true
    → (r : AttentionReason) × (applies v w a r ≡ true)
unfolding applies
needs_attention-applies v w a e = elim (Bool-cases (not a.connected)) [
  | inl h ↦ (offline, h)
  | inr h ↦ elim (Bool-cases (str_eq a.mode "disabled" || str_eq a.mode "unknown")) [
    | inl i ↦ (disabled, i)
    | inr i ↦ elim (Bool-cases (str_eq a.mode "permissive")) [
      | inl j ↦ (permissive, j)
      | inr j ↦ elim (Bool-cases (differs w a.policy_version)) [
        | inl k ↦ (policy_mismatch, k)
        | inr k ↦ (outdated, ground arith)
      ]
    ]
  ]
]

pub needs_attention-TellsNeed : (v w : Option String) → TellsNeed v w (needs_attention v w)
needs_attention-TellsNeed v w a = (
  λ e. let (r, h) = needs_attention-applies v w a e in (r, (applies-Applies v w a r).0 h),
  λ r h. applies-needs_attention v w a r ((applies-Applies v w a r).1 h),
)

-- The most urgent of the reasons: being offline, then not enforcing for lack of SELinux, then not
-- enforcing by choice, then the policy version, then the agent version.
abbrev pub level : List AttentionReason → ℕ
level reasons =
    if has offline reasons
    then 0
    else if has disabled reasons
    then 1
    else if has permissive reasons
    then 2
    else if has policy_mismatch reasons
    then 3
    else if has outdated reasons
    then 4
    else 5

pub urgency-level : (rs : List AttentionReason) → urgency rs ≡ level rs
unfolding urgency
urgency-level [] = refl
urgency-level (offline ∷ rs) = ground (arith, urgency-level rs)
urgency-level (disabled ∷ rs) = ground (arith, urgency-level rs)
urgency-level (permissive ∷ rs) = ground (arith, urgency-level rs)
urgency-level (policy_mismatch ∷ rs) = ground (arith, urgency-level rs)
urgency-level (outdated ∷ rs) = ground (arith, urgency-level rs)

-- More urgent, or as urgent and first by the name of the host.
abbrev pub comes_first : (String → String → Bool) → AttentionAgent → AttentionAgent → Bool
comes_first locale_le a b =
    if level a.reasons == level b.reasons
    then locale_le a.agent.hostname b.agent.hostname
    else ltb (level a.reasons) (level b.reasons)
