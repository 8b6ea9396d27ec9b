-- ===== src/Charts/Registry/Sync.antt =====
-- The two tables of chart types agree.
use simply_se.Base.{
  ◌≡◌, ◌≢◌, ◌↔◌, refl, ◌∙◌, sym, Bool, true, false, not, ◌&&◌, none, List, [], ◌∷◌, ◌++◌, String,
  str_eq, eq_iff, includes, distinct, filter, find, any, map, arith, Bool-cases, inl, inr,
  str_eq_refl,
}
use simply_se.Charts.Registry.{
  kpi, ChartDef, needs_kpi, all_chart_ids, is_tile_sized, charts, chart_by_id, same_category,
}

find-any :
    (id : String) (defs : List ChartDef)
    → (find (λ c. str_eq c.id id) defs ≢ none) ↔ (includes (map (λ c. c.id) defs) id ≡ true)
find-any id [] = ground arith
find-any id (c ∷ defs) = ground (arith, find-any id defs)

-- The identifiers of the light table are those of the registry, all different, so that a chart is
-- registered exactly if its identifier is listed: the check of the two tables on loading passes.
pub chart_by_id_iff :
    (distinct all_chart_ids ≡ true)
    × ((id : String) → (chart_by_id id ≢ none) ↔ (includes all_chart_ids id ≡ true))
unfolding chart_by_id charts all_chart_ids
chart_by_id_iff = (refl, λ id. find-any id charts)

-- The chart draws one number of the input.
abbrev pub shows_number : ChartDef → Bool
shows_number c = same_category c.category kpi && elim c.need [ needs_kpi ↦ true | _ ↦ false ]

any-filter :
    (test : ChartDef → Bool) (id : String) (defs : List ChartDef)
    → any (λ c. str_eq c.id id && test c) defs ≡ includes (map (λ c. c.id) (filter test defs)) id
any-filter test id [] = refl
any-filter test id (c ∷ defs) = ground (arith, any-filter test id defs)

drop_one :
    (s id : String) (xs ys : List String)
    → includes (xs ++ ys) s ≡ false
    → includes (xs ++ s ∷ ys) id && not (str_eq id s) ≡ includes (xs ++ ys) id
drop_one s id [] ys h = elim (Bool-cases (str_eq s id)) [
  | inl e ↦ rw (← (eq_iff s id).0 e) (ground (arith, str_eq_refl s))
  | inr e ↦ ground (arith, eq_iff s id, eq_iff id s)
]
drop_one s id (x ∷ xs) ys h =
    ground (arith, drop_one s id xs ys, eq_iff x id, eq_iff id s, eq_iff x s)

-- The types that suit the smallest tiles are exactly the registered types of their family that draw
-- one number and need no list of categories.
pub is_tile_sized_iff :
    (id : String) → is_tile_sized id ≡ any (λ c. str_eq c.id id && shows_number c) charts
unfolding is_tile_sized charts
is_tile_sized_iff id =
    drop_one "scorecard" id
      ("kpi" ∷ "kpi-delta" ∷ "kpi-spark" ∷ "gauge" ∷ "progress" ∷ "bullet" ∷ "target-actual" ∷ [])
      ("metric-card" ∷ "delta" ∷ []) refl
    ∙ sym (any-filter shows_number id charts)
