-- ===== src/Charts/Types.antt =====
-- The shared types of frontend/src/charts/types.ts. An optional field is an `Option`; a target that
-- an operator sets is taken to be a whole number.
use simply_se.Base.{ℕ, Bool, List, Option, String}
use simply_se.Charts.Number.{Arithmetic}
use simply_se.Base.Int.{ℤ}

pub data DatasetId : Type 0 where
  denials commands alerts fleet signatures : DatasetId

pub data Bucket : Type 0 where
  hour day week : Bucket

pub data Polarity : Type 0 where
  lower_better higher_better neutral : Polarity

pub record ChartConfig : Type 0 where
  pub dataset : DatasetId
  pub chart : String
  pub dim : String
  pub dim2 : Option String
  pub days : ℕ
  pub measure : Option String
  pub target : Option ℤ

pub data MeasureUnit : Type 0 where
  count percent seconds : MeasureUnit

pub record MeasureDef : Type 0 where
  pub id : String
  pub label_key : String
  pub field : String
  pub additive : Bool
  pub unit : MeasureUnit
  pub polarity : Polarity
  pub scale : Option ℕ
  pub weight_field : Option String

-- A history row normalised for shaping; `dims` and `raw` are the fields by name.
pub record Row (N : Arithmetic) : Type 0 where
  pub t : Option ℤ
  pub dims : List (String × String)
  pub value : N.Num
  pub weight : N.Num
  pub raw : Option (List (String × N.Num))

pub record Variable : Type 0 where
  pub id : String
  pub label_key : String

pub record DatasetDef (N : Arithmetic) : Type 0 where
  pub id : DatasetId
  pub label_key : String
  pub dims : List String
  pub default_dim : String
  pub measures : List MeasureDef
  pub variables : List Variable
  pub variable_group : List String
  pub variable_from : List (Row N) → List N.Num

-- The name that stands for the merged tail of a list.
abbrev pub other : String
other = "::other::"

-- `TreeNode` with its optional `children`, where no children are `nil`.
mutual
  pub data TreeNode (N : Arithmetic) : Type 0 where
    node : String → N.Num → TreeNodes N → TreeNode N

  pub data TreeNodes (N : Arithmetic) : Type 0 where
    nil : TreeNodes N
    cons : TreeNode N → TreeNodes N → TreeNodes N
