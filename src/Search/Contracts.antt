-- ===== src/Search/Contracts.antt =====
-- components/searchservice/contracts.py. A vector is a list of numbers in `F` and a score is an `S`,
-- where the source has floats.
use lbpr.Prelude.{ℕ, String, Bool, true, false, ◌&&◌, Option, none, some, List, leb}
use lbpr.Dict.{Dict}
use lbpr.Value.{Value}

pub data SearchType : Type 0 where
  semantic : SearchType
  keyword : SearchType
  hybrid : SearchType

pub data Fusion : Type 0 where
  rrf : Fusion
  zscore : Fusion

pub data Op : Type 0 where
  eq : Op
  ne : Op
  lt : Op
  lte : Op
  gt : Op
  gte : Op
  contains : Op
  is_in : Op
  nin : Op

pub record FilterCondition : Type 0 where
  pub field : String
  pub op : Op
  pub value : Value

pub record Filter : Type 0 where
  pub must : List FilterCondition
  pub should : List FilterCondition
  pub must_not : List FilterCondition

pub record SearchRequest : Type 0 where
  pub query : Option String
  pub top_k : ℕ
  pub offset : ℕ
  pub search_type : SearchType
  pub fusion : Option Fusion
  pub filters : Filter
  pub include_snippets : Bool
  pub snippet_max_chars : ℕ
  pub metadata_fields : List String

-- `validate_fusion`
unfoldable pub fusion_allowed : Option Fusion → SearchType → Bool
fusion_allowed none search_type = true
fusion_allowed (some f) hybrid = true
fusion_allowed (some f) semantic = false
fusion_allowed (some f) keyword = false

-- the bounds of the numbers, and of fusion
unfoldable pub is_valid : SearchRequest → Bool
unfolding fusion_allowed
is_valid req =
    leb 1 req.top_k
    && leb req.top_k 200
    && leb req.offset 10000
    && leb 32 req.snippet_max_chars
    && leb req.snippet_max_chars 1000
    && fusion_allowed req.fusion req.search_type

pub record SearchHit (S : Type 0) : Type 0 where
  pub doc_id : String
  pub score : S
  pub metadata : Dict Value
  pub snippet : Option String

-- The query id and the time that it took are left out.
pub record SearchResponse (S : Type 0) : Type 0 where
  pub total : ℕ
  pub hits : List (SearchHit S)

pub record VectorHits (S : Type 0) : Type 0 where
  pub total : ℕ
  pub hits : List (SearchHit S)
