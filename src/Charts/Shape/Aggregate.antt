-- ===== src/Charts/Shape/Aggregate.antt =====
-- The aggregation of frontend/src/charts/shape.ts: `combine`, `groupRows` and `rankBy`.
pub mod Groups
pub mod Exact
use simply_se.Base.{
  ◌==◌, ◌-◌, ℕ, Bool, true, false, List, [], ◌∷◌, ◌++◌, String, str_eq, if◌then◌else◌, map, filter,
}
use simply_se.Base.Sort.{sort_by}
use simply_se.Charts.Number.{Arithmetic}
use simply_se.Charts.Types.{Row}

-- Where `slice(0, limit - 1)` ends in a list of `n`, and where `slice(limit - 1)` starts: a negative
-- position counts from the end.
abbrev pub slice_end : ℕ → ℕ → ℕ
slice_end limit n = if limit == 0 then n - 1 else limit - 1

-- `groupRows`: a `Map` in the order in which its keys were first set.
module _ {ℓ} {A : Type ℓ} where
  pub push_row : String → A → List (String × List A) → List (String × List A)
  push_row k r [] = (k, r ∷ []) ∷ []
  push_row k r ((j, rs) ∷ out) =
      if str_eq j k then (j, rs ++ r ∷ []) ∷ out else (j, rs) ∷ push_row k r out

  pub group_from : (A → String) → List (String × List A) → List A → List (String × List A)
  unfolding push_row
  group_from key out [] = out
  group_from key out (r ∷ rs) = group_from key (push_row (key r) r out) rs

  unfoldable pub group_rows : (A → String) → List A → List (String × List A)
  unfolding group_from
  group_rows key rows = group_from key [] rows

pub record Combined (N : Arithmetic) : Type 0 where
  pub value : N.Num
  pub weight : N.Num

pub record Group (N : Arithmetic) : Type 0 where
  pub name : String
  pub rows : List (Row N)
  pub value : N.Num
  pub weight : N.Num

module _ (N : Arithmetic) where
  open N use {Num, of_ℕ, add, mul, div, lt}

  -- The loop of `combine`: the weight and the sum so far.
  pub combine_from : Bool → Num → Num → List (Row N) → Combined N
  combine_from additive weight sum [] = record {
    value = if additive then sum else if lt (of_ℕ 0) weight then div sum weight else of_ℕ 0;
    weight = weight;
  }
  combine_from additive weight sum (r ∷ rows) =
      combine_from additive (add weight r.weight)
        (add sum (if additive then r.value else mul r.value r.weight)) rows

  unfoldable pub combine : Bool → List (Row N) → Combined N
  unfolding combine_from
  combine additive rows = combine_from additive (of_ℕ 0) (of_ℕ 0) rows

  unfoldable pub to_group : Bool → String × List (Row N) → Group N
  to_group additive (name, rows) =
      let c = combine additive rows in
      record { name = name; rows = rows; value = c.value; weight = c.weight }

  -- `locale_le a b` stands for `a.localeCompare(b) <= 0`.
  module _ (locale_le : String → String → Bool) where
    -- Bigger weights first, then bigger values, then by name.
    pub rank_before : Group N → Group N → Bool
    rank_before a b =
        if lt a.weight b.weight
        then false
        else if lt b.weight a.weight
        then true
        else if lt a.value b.value
        then false
        else if lt b.value a.value
        then true
        else locale_le a.name b.name

    unfoldable pub rank_by : Bool → List (String × List (Row N)) → List (Group N)
    unfolding rank_before to_group combine
    rank_by additive groups =
        sort_by rank_before (filter (λ g. lt (of_ℕ 0) g.weight) (map (to_group additive) groups))
