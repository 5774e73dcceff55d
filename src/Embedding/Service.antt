-- ===== src/Embedding/Service.antt =====
-- components/embeddingadapter/service.py: the route over an adapter. The framework has checked the
-- texts' number and the dimensions of `EmbedRequestHttp`, which has the fields of `EmbedRequest`.
use lbpr.Prelude.{ℕ, String, if◌then◌else◌}
use lbpr.Embedding.Contracts.{
  EmbedRequest, EmbedResult, Outcome, returned, embedding_error, other_exception, accepts,
}

-- The answer, or an HTTPException with the code of its detail; the messages are left out.
pub data Reply (F : Type 0) : Type 0 where
  answered : EmbedResult F → Reply F
  refused : ℕ → String → Reply F

module _ {F : Type 0} where
  abbrev pub replied : Outcome (EmbedResult F) → Reply F
  replied (returned result) = answered result
  replied (embedding_error code message) = refused 400 code
  replied other_exception = refused 500 "INTERNAL_ERROR"

  unfoldable pub create_embeddings :
      (EmbedRequest → Outcome (EmbedResult F)) → EmbedRequest → Reply F
  unfolding accepts
  create_embeddings embed req = replied (if accepts req then embed req else other_exception)
