-- ===== src/VectorStore/Models.antt =====
-- components/vectorstoreadapter/models.py and errors.py. A component of a vector is a float that only
-- the scores compute with: a type `F` that is a parameter.
use lbpr.Prelude.{String, Option, List}
use lbpr.Dict.{Dict}
use lbpr.Value.{Value}

pub data Op : Type 0 where
  eq neq gt gte lt lte is_in nin exists : Op

pub record FilterCondition : Type 0 where
  pub field : String
  pub op : Op
  pub value : Value

pub record DnfFilter : Type 0 where
  pub groups : List (List FilterCondition)

pub record VectorRecord (F : Type 0) : Type 0 where
  pub id : String
  pub vector : List F
  pub metadata : Dict Value
  pub text : Option String
  pub document_id : Option String
  pub chunk_id : Option String

-- `type_error` is Python's, on an order of values that have none
pub data Error : Type 0 where
  bad_request namespace_not_found type_error : Error

pub data Result (A : Type 0) : Type 0 where
  ok : A → Result A
  err : Error → Result A
