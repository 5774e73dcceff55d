-- ===== src/Indexer/Contracts.antt =====
-- components/indexer/contracts.py and schemas.py: the data of the ports and of the requests. A
-- component of a vector is a float that is only passed on: a type `F` that is a parameter.
use lbpr.Prelude.{ℕ, String, Option, none, some, List, ltb, ◌||◌, str_eq, if◌then◌else◌}
use lbpr.Prelude.Int.{ℤ, pos, negsuc}
use lbpr.Dict.{Dict}
use lbpr.Text.{split, join}
use lbpr.Value.{Value}

pub record Chunk : Type 0 where
  pub doc_id : Option String
  pub idx : ℕ
  pub text : String
  pub metadata : Dict Value

pub record VectorItem (F : Type 0) : Type 0 where
  pub id : String
  pub values : List F
  pub metadata : Dict Value

pub record DocInput : Type 0 where
  pub doc_id : Option String
  pub blob_uri : Option String
  pub text : Option String
  pub fingerprint : Option String
  pub metadata : Dict Value

-- `reindex` is read by nothing and left out.
pub record IndexOptions : Type 0 where
  pub chunk_size : ℕ
  pub chunk_overlap : ℕ
  pub vector_namespace : Option String

pub record CreateIndexJobRequest : Type 0 where
  pub tenant_id : String
  pub doc : DocInput
  pub options : IndexOptions

-- the validators; `none` is `ValueError`
unfoldable pub normalize_text : Option String → Option String
normalize_text none = none
normalize_text (some v) = if str_eq v "" then some v else some (join " " (split v))

unfoldable pub check_chunk_size : ℤ → Option ℕ
check_chunk_size (pos v) = if ltb v 100 || ltb 4000 v then none else some v
check_chunk_size (negsuc v) = none

unfoldable pub check_overlap : ℤ → Option ℕ
check_overlap (pos v) = if ltb 1000 v then none else some v
check_overlap (negsuc v) = none

pub record JobCounts : Type 0 where
  pub chunks_total : ℕ
  pub chunks_indexed : ℕ
  pub errors : ℕ

pub record Job : Type 0 where
  pub job_id : String
  pub tenant_id : String
  pub status : String
  pub created_at : ℕ
  pub updated_at : ℕ
  pub counts : JobCounts
  pub errors : List String

pub record JobEvent : Type 0 where
  pub ts : ℕ
  pub type : String
  pub «data» : Dict Value
