-- ===== src/Charts/History/Rows.antt =====
-- `toRows` and `historySince` of frontend/src/charts/history.ts, with the replies of the server as
-- frontend/src/charts/types.ts describes them. The time of a row stands apart from its other
-- fields. How a text is read as a number, how a number is written and how a date is read are
-- parameters.
use simply_se.Base.{
  ◌∙◌, ap₂, ap, ℕ, Bool, true, false, Option, none, some, List, [], ◌∷◌, String, str_eq, eq_iff,
  if◌then◌else◌, map, includes, zero, suc, find, get_elem?, ◌≡◌, refl, arith, Bool-cases, inl, inr,
}
use simply_se.Base.Int.{ℤ, floor_div}
use simply_se.Base.Objects.{field, or_else}
use simply_se.Charts.Number.{Arithmetic}
use simply_se.Charts.Types.{Row, MeasureDef}
use simply_se.Charts.Shape.Hierarchy.{dim_of}

pub record DatasetStatus : Type 0 where
  pub dataset : String
  pub since : Option String
  pub rows : ℕ
  pub total : ℕ

pub record HistoryStatus : Type 0 where
  pub retention_days : ℕ
  pub datasets : List DatasetStatus

abbrev since_of : Option DatasetStatus → Option String
since_of none = none
since_of (some d) = if str_eq (or_else d.since "") "" then none else d.since

abbrev seconds_of : (String → ℤ) → Option String → Option ℤ
seconds_of get_time none = none
seconds_of get_time (some since) = some (floor_div (get_time since) 1000)

-- `none` is a status that could not be read; `get_time` stands for `Date.getTime`.
unfoldable pub history_since : (String → ℤ) → Option HistoryStatus → String → Option ℤ
history_since get_time none dataset = none
history_since get_time (some status) dataset =
    seconds_of get_time (since_of (find (λ d. str_eq d.dataset dataset) status.datasets))

module _ (N : Arithmetic) where
  pub data FieldValue : Type 0 where
    text : String → FieldValue
    number : N.Num → FieldValue

  pub record HistoryRow : Type 0 where
    pub t : Option ℤ
    pub fields : List (String × FieldValue)

  pub record HistoryResponse : Type 0 where
    pub dataset : String
    pub days : ℕ
    pub bucket : String
    pub group : Option (List String)
    pub rows : List HistoryRow
    pub truncated : Bool

  -- The numeric fields by name.
  unfoldable pub numbers : List (String × FieldValue) → List (String × N.Num)
  numbers [] = []
  numbers ((k, text s) ∷ fields) = numbers fields
  numbers ((k, number n) ∷ fields) = (k, n) ∷ numbers fields

  -- `String(v ?? "")`.
  abbrev pub text_of : (N.Num → String) → Option FieldValue → String
  text_of show none = ""
  text_of show (some (text s)) = s
  text_of show (some (number n)) = show n

  module _ (read : String → N.Num) (show : N.Num → String) where
    -- `Number(v ?? d)`.
    abbrev number_of : Option FieldValue → N.Num → N.Num
    number_of none d = d
    number_of (some (text s)) d = read s
    number_of (some (number n)) d = n

    unfoldable pub to_row : List String → MeasureDef → HistoryRow → Row N
    unfolding field numbers
    to_row group m r =
        let value =
          N.mul (number_of (field m.field r.fields) (N.of_ℕ 0)) (N.of_ℕ (or_else m.scale 1)) in
        record {
          t = r.t;
          dims = map (λ g. (g, text_of show (field g r.fields))) group;
          value = value;
          weight =
              if m.additive
              then value
              else number_of (field (or_else m.weight_field "samples") r.fields) (N.of_ℕ 1);
          raw = some (numbers r.fields);
        }

    unfoldable pub to_rows : HistoryResponse → MeasureDef → List (Row N)
    unfolding to_row
    to_rows resp m = map (to_row (or_else resp.group []) m) resp.rows

  dims_read :
      (show : N.Num → String) (group : List String) (fields : List (String × FieldValue))
      (g : String)
      → or_else (field g (map (λ h. (h, text_of show (field h fields))) group)) ""
        ≡ (if includes group g then text_of show (field g fields) else "")
  unfolding field
  dims_read show [] fields g = refl
  dims_read show (h ∷ group) fields g = elim (Bool-cases (str_eq h g)) [
    | inl same ↦ ground (arith, eq_iff h g)
    | inr other ↦ ground (arith, dims_read show group fields g)
  ]

  numbers_found :
      (fields : List (String × FieldValue)) (k : String) (n : N.Num)
      → field k fields ≡ some (number n)
      → field k (numbers fields) ≡ some n
  unfolding field numbers
  numbers_found [] k n h = cc
  numbers_found ((j, text s) ∷ fields) k n h = ground (arith, numbers_found fields k n)
  numbers_found ((j, number m) ∷ fields) k n h = ground (arith, numbers_found fields k n)

  numbers_absent :
      (fields : List (String × FieldValue)) (k : String)
      → field k fields ≡ none
      → field k (numbers fields) ≡ none
  unfolding field numbers
  numbers_absent [] k h = refl
  numbers_absent ((j, text s) ∷ fields) k h = ground (arith, numbers_absent fields k)
  numbers_absent ((j, number m) ∷ fields) k h = ground (arith, numbers_absent fields k)

  -- The number that a field gives: its own, the one that its text reads as, or else a default.
  pub data Gives (read : String → N.Num) (fields : List (String × FieldValue)) (k : String)
      (d : N.Num) : N.Num → Type 0 where
    by_number : (n : N.Num) → field k fields ≡ some (number n) → Gives read fields k d n
    by_text : (s : String) → field k fields ≡ some (text s) → Gives read fields k d (read s)
    by_default : field k fields ≡ none → Gives read fields k d d

  number_of_given :
      (read : String → N.Num) (show : N.Num → String) (fields : List (String × FieldValue))
      (k : String) (d n : N.Num)
      → Gives read fields k d n
      → number_of read show (field k fields) d ≡ n
  number_of_given read show fields k d n (by_number m e) = ap (λ o. number_of read show o d) e
  number_of_given read show fields k d n (by_text s e) = ap (λ o. number_of read show o d) e
  number_of_given read show fields k d n (by_default e) = ap (λ o. number_of read show o d) e

  -- The row of the chart carries what the row of the reply holds.
  pub record Carries (read : String → N.Num) (show : N.Num → String) (group : List String)
      (m : MeasureDef) (r : HistoryRow) (row : Row N) : Type 0 where
    pub scaled :
        (k : ℕ) (n : N.Num)
        → m.scale ≡ some k
        → Gives read r.fields m.field (N.of_ℕ 0) n
        → row.value ≡ N.mul n (N.of_ℕ k)
    pub unscaled :
        (n : N.Num)
        → m.scale ≡ none
        → Gives read r.fields m.field (N.of_ℕ 0) n
        → row.value ≡ N.mul n (N.of_ℕ 1)
    pub counted : m.additive ≡ true → row.weight ≡ row.value
    pub weighted :
        (k : String) (n : N.Num)
        → m.additive ≡ false
        → m.weight_field ≡ some k
        → Gives read r.fields k (N.of_ℕ 1) n
        → row.weight ≡ n
    pub sampled :
        (n : N.Num)
        → m.additive ≡ false
        → m.weight_field ≡ none
        → Gives read r.fields "samples" (N.of_ℕ 1) n
        → row.weight ≡ n
    pub same_time : row.t ≡ r.t
    pub grouped :
        (g : String) → includes group g ≡ true → dim_of N g row ≡ text_of show (field g r.fields)
    pub not_grouped : (g : String) → includes group g ≡ false → dim_of N g row ≡ ""
    pub numeric :
        (k : String) (n : N.Num)
        → field k r.fields ≡ some (number n)
        → field k (or_else row.raw []) ≡ some n
    pub absent : (k : String) → field k r.fields ≡ none → field k (or_else row.raw []) ≡ none

  if_yes : (b : Bool) (x y : N.Num) → b ≡ true → (if b then x else y) ≡ x
  if_yes true x y e = refl
  if_yes false x y e = cc

  if_no : (b : Bool) (x y : N.Num) → b ≡ false → (if b then x else y) ≡ y
  if_no true x y e = cc
  if_no false x y e = refl

  to_row-Carries :
      (read : String → N.Num) (show : N.Num → String) (group : List String) (m : MeasureDef)
      (r : HistoryRow)
      → Carries read show group m r (to_row read show group m r)
  unfolding to_row dim_of
  to_row-Carries read show group m r = record {
    scaled = λ k n e g.
        ap₂ (λ a b. N.mul a (N.of_ℕ (or_else b 1)))
          (number_of_given read show r.fields m.field (N.of_ℕ 0) n g) e;
    unscaled = λ n e g.
        ap₂ (λ a b. N.mul a (N.of_ℕ (or_else b 1)))
          (number_of_given read show r.fields m.field (N.of_ℕ 0) n g) e;
    counted = λ e. if_yes m.additive _ _ e;
    weighted = λ k n e f g.
        if_no m.additive _ _ e
        ∙ ap (λ o. number_of read show (field (or_else o "samples") r.fields) (N.of_ℕ 1)) f
        ∙ number_of_given read show r.fields k (N.of_ℕ 1) n g;
    sampled = λ n e f g.
        if_no m.additive _ _ e
        ∙ ap (λ o. number_of read show (field (or_else o "samples") r.fields) (N.of_ℕ 1)) f
        ∙ number_of_given read show r.fields "samples" (N.of_ℕ 1) n g;
    same_time = refl;
    grouped = λ g h. ground (arith, dims_read show group r.fields g);
    not_grouped = λ g h. ground (arith, dims_read show group r.fields g);
    numeric = numbers_found r.fields;
    absent = numbers_absent r.fields;
  }

  get_elem?-to_row :
      (f : HistoryRow → Row N) (rs : List HistoryRow) (i : ℕ) (r : HistoryRow)
      → get_elem? rs i ≡ some r
      → get_elem? (map f rs) i ≡ some (f r)
  get_elem?-to_row f [] i r h = cc
  get_elem?-to_row f (x ∷ rs) zero r h = cc
  get_elem?-to_row f (x ∷ rs) (suc i) r h = get_elem?-to_row f rs i r h

  -- Every row of the reply becomes the row at the same place, with its time, with the text of each
  -- field that the reply is grouped by and no other dimension, and with all its numeric fields. Its
  -- value is the field of the measure times the scale of the measure, where it has one, and 0 where
  -- the field is missing; its weight is that value for an additive measure, and else the weight field
  -- of the measure, or the field `samples`, or 1.
  pub to_rows-Carries :
      (read : String → N.Num) (show : N.Num → String) (resp : HistoryResponse) (m : MeasureDef)
      (i : ℕ) (r : HistoryRow)
      → get_elem? resp.rows i ≡ some r
      → (row : Row N) × (get_elem? (to_rows read show resp m) i ≡ some row)
        × Carries read show (or_else resp.group []) m r row
  unfolding to_rows
  to_rows-Carries read show resp m i r h =
      let group = or_else resp.group [] in
      (
        to_row read show group m r,
        get_elem?-to_row (to_row read show group m) resp.rows i r h,
        to_row-Carries read show group m r,
      )
