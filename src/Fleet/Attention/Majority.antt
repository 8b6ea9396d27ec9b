-- ===== src/Fleet/Attention/Majority.antt =====
-- The majority of a list of texts, where there is one.
use simply_se.Base.{
  ℕ, ◌+◌, ◌≤◌, ◌<◌, ◌≡◌, ◌≢◌, ◌↔◌, ◌⊎◌, refl, ◌∙◌, ap, Bool, true, false, not, ◌&&◌, List, [], ◌∷◌,
  String, str_eq, eq_iff, ltb, ◌==◌, if◌then◌else◌, length, count, arith, Bool-cases, inl, inr,
  Option, none, some, str_eq_refl,
}
use simply_se.Fleet.Compliance.{count_at, count_up}
use simply_se.Fleet.Compliance.Scores.{count_at-count_up}
use simply_se.Fleet.Attention.{tally, scan, majority}

-- How often a text occurs among texts that are not empty.
abbrev pub votes : String → List String → ℕ
votes v values = count (λ s. not (str_eq s "") && str_eq s v) values

count_at-tally :
    (v : String) (counts : List (String × ℕ)) (values : List String)
    → count_at v (tally counts values) ≡ votes v values + count_at v counts
unfolding tally
count_at-tally v counts [] = omega arith
count_at-tally v counts (s ∷ values) = ground (
  arith,
  count_at-tally v counts values,
  count_at-tally v (count_up s counts) values,
  count_at-count_up v s counts,
)

-- The counts as a map: no text stands twice, and each occurs.
abbrev IsTally : List (String × ℕ) → Type 0
IsTally [] = Unit
IsTally ((v, n) ∷ counts) = (count_at v counts ≡ 0) × ((0 < n) × IsTally counts)

count_up-IsTally :
    (v : String) (counts : List (String × ℕ)) → IsTally counts → IsTally (count_up v counts)
count_up-IsTally v [] h = (refl, (omega arith, tt))
count_up-IsTally v ((j, n) ∷ counts) (p, (q, h)) =
    ground (arith, count_up-IsTally v counts, count_at-count_up j v counts, eq_iff j v, eq_iff v j)

tally-IsTally :
    (counts : List (String × ℕ)) (values : List String)
    → IsTally counts
    → IsTally (tally counts values)
unfolding tally
tally-IsTally counts [] h = h
tally-IsTally counts (s ∷ values) h = elim (Bool-cases (str_eq s "")) [
  | inl e ↦ rw e (tally-IsTally counts values h)
  | inr e ↦ rw e (tally-IsTally (count_up s counts) values (count_up-IsTally s counts h))
]

scan-stays :
    (v : String) (n : ℕ) (counts : List (String × ℕ))
    → IsTally counts
    → ((w : String) → count_at w counts < n)
    → scan (some v) n false counts ≡ some v
unfolding scan
scan-stays v n [] h below = refl
scan-stays v n ((u, m) ∷ counts) (p, (q, h)) below =
    let small : m < n = grind (arith, below u, str_eq_refl u) in
    let tail = scan-stays v n counts h λ w. grind (arith, below w, eq_iff u w) in
    let no : ltb n m ≡ false = ground arith in
    let other : (m == n) ≡ false = ground arith in rw no (rw other tail)

-- A text with more votes than any other is found.
scan-finds :
    (v : String) (best : Option String) (bound : ℕ) (tie : Bool) (counts : List (String × ℕ))
    → IsTally counts
    → bound < count_at v counts
    → ((w : String) → w ≢ v → count_at w counts < count_at v counts)
    → scan best bound tie counts ≡ some v
unfolding scan
scan-finds v best bound tie [] h more below = absurd (omega arith)
scan-finds v best bound tie ((u, m) ∷ counts) (p, (q, h)) more below =
    elim (Bool-cases (str_eq u v)) [
      | inl e ↦
          let same : u ≡ v = (eq_iff u v).0 e in
          let here : bound < m = ground arith in
          let first : ltb bound m ≡ true = ground arith in
          let rest = scan-stays u m counts h λ w.
            grind (arith, below w, eq_iff u w, eq_iff w v, eq_iff u v, Bool-cases (str_eq u w)) in
          rw first (rest ∙ ap some same)
      | inr e ↦
          let smaller : m < count_at v counts = grind (arith, below u, eq_iff u v, str_eq_refl u) in
          let here : bound < count_at v counts = ground arith in
          let others : (w : String) → w ≢ v → count_at w counts < count_at v counts = λ w no.
            elim (Bool-cases (str_eq u w)) [
              | inl at_u ↦ grind (arith, eq_iff u w, p)
              | inr not_u ↦ grind (arith, below w no)
            ] in
          elim (Bool-cases (ltb bound m)) [
            | inl first ↦ rw first (scan-finds v (some u) m false counts h smaller others)
            | inr later ↦ rw later (scan-finds v best bound _ counts h here others)
          ]
    ]

-- What is found has more votes than any other text.
scan_found :
    (v w : String) (best : Option String) (bound : ℕ) (tie : Bool) (counts : List (String × ℕ))
    → IsTally counts
    → w ≢ v
    → ((u : String) → best ≡ some u → 0 < bound)
    → scan best bound tie counts ≡ some v
    → ((bound < count_at v counts) × (count_at w counts < count_at v counts))
      ⊎ ((best ≡ some v)
          × ((tie ≡ false) × ((count_at v counts ≤ bound) × (count_at w counts < bound))))
unfolding scan
scan_found v w best bound tie [] h other pos e = ground (arith, pos v)
scan_found v w best bound tie ((u, m) ∷ counts) (p, (q, h)) other pos e =
    elim (Bool-cases (ltb bound m)) [
      | inl first ↦
          let next : scan (some u) m false counts ≡ some v = rw first at e in
          let ih = scan_found v w (some u) m false counts h other (λ x y. q) next in
          ground (arith, ih, eq_iff u v, eq_iff u w)
      | inr later ↦
          let next : scan best bound (if m == bound then true else tie) counts ≡ some v =
            rw later at e in
          let ih =
            scan_found v w best bound (if m == bound then true else tie) counts h other pos next in
          ground (arith, ih, eq_iff u v, eq_iff u w)
    ]

single :
    (v w : String) (counts : List (String × ℕ))
    → length counts < 2
    → 0 < count_at v counts
    → 0 < count_at w counts
    → v ≡ w
single v w [] h a b = absurd (omega arith)
single v w ((u, m) ∷ []) h a b = grind (arith, eq_iff u v, eq_iff u w)
single v w (c ∷ d ∷ counts) h a b = absurd (omega arith)

-- Among two texts or more there is one besides `v`.
another :
    (v : String) (counts : List (String × ℕ))
    → IsTally counts
    → 2 ≤ length counts
    → (w : String) × ((w ≢ v) × (0 < count_at w counts))
another v [] h two = absurd (omega arith)
another v ((a, m) ∷ []) h two = absurd (omega arith)
another v ((a, m) ∷ (b, n) ∷ counts) (p, (q, (r, (s, h)))) two = elim (Bool-cases (str_eq a v)) [
  | inl same ↦ (b, (λ e. grind (arith, eq_iff b a, eq_iff a v), ground (arith, str_eq_refl b)))
  | inr other ↦ (a, (λ e. grind (arith, eq_iff a v), grind (arith, str_eq_refl a)))
]

-- The same of the counts, before they are read as votes.
most_counted :
    (v : String) (counts : List (String × ℕ))
    → IsTally counts
    → ((if ltb (length counts) 2 then none else scan none 0 false counts) ≡ some v) ↔ (
        ((w : String) → w ≢ v → count_at w counts < count_at v counts)
        × ((w : String) × ((w ≢ v) × (0 < count_at w counts))))
most_counted v counts h = (
  λ e. elim (Bool-cases (ltb (length counts) 2)) [
    | inl few ↦ let no : none ≡ some v = rw few at e in cc
    | inr many ↦
        let found : scan none 0 false counts ≡ some v = rw many at e in
        (
          λ w other. grind (arith, scan_found v w none 0 false counts h other (λ u no. cc) found),
          another v counts h (ground arith),
        )
  ],
  λ (below, (w, (other, some_votes))).
      let most = scan-finds v none 0 false counts h (omega (arith, below w other)) below in
      elim (Bool-cases (ltb (length counts) 2)) [
        | inl few ↦
            absurd
              (other (single w v counts (ground arith) some_votes (omega (arith, below w other))))
        | inr many ↦ rw many most
      ],
)

-- `majority` finds a text exactly if it occurs more often than every other text and there is
-- another one, empty texts not counted.
pub majority_iff :
    (v : String) (values : List String)
    → (majority values ≡ some v) ↔ (
        ((w : String) → w ≢ v → votes w values < votes v values)
        × ((w : String) × ((w ≢ v) × (0 < votes w values))))
unfolding majority
majority_iff v values =
    let counts = tally [] values in
    let tallied : (w : String) → count_at w counts ≡ votes w values =
      λ w. omega (arith, count_at-tally w [] values) in
    let (to, from) = most_counted v counts (tally-IsTally [] values tt) in
    (
      λ e.
          let (below, (w, (other, some_votes))) = to e in
          (
            λ w other. omega (arith, below w other, tallied w, tallied v),
            (w, (other, omega (arith, some_votes, tallied w))),
          ),
      λ (below, (w, (other, some_votes))). from (
        λ w other. omega (arith, below w other, tallied w, tallied v),
        (w, (other, omega (arith, some_votes, tallied w))),
      ),
    )
