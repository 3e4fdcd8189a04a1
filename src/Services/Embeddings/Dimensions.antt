-- ===== src/Services/Embeddings/Dimensions.antt =====
-- No vector of the wrong dimension leaves the embedding service.
use mathlib.Core.Path.{subst}
use ai_lead_qualifier.Prelude.{String, ◌≡◌, List, [], ◌∷◌, arith, length, All}
use ai_lead_qualifier.Core.Exceptions.{ok, ok-injective}
use ai_lead_qualifier.Core.Config.{Settings}
use ai_lead_qualifier.Services.Embeddings.{
  EmbeddingClient, validate_dim, validate_batch, request_batch, aembed_query, aembed_documents,
}

module _ {W : Type 0} (settings : Settings W) (svc : EmbeddingClient W) (tenant_id : String) where
  -- Each vector that a query or a batch returns has the configured dimension; a client's answer of
  -- another dimension raises.
  pub length-aembed_query :
      (text : String) (v : List W)
      → aembed_query settings svc tenant_id text ≡ ok v
      → length v ≡ settings.pgvector_embedding_dim
  unfolding aembed_query
  length-aembed_query text v h = ground arith

  abbrev pub HasDimension : List W → Type 0
  HasDimension v = length v ≡ settings.pgvector_embedding_dim

  validate_batch_sound :
      (vs : List (List W)) → validate_batch settings vs ≡ ok tt → All HasDimension vs
  unfolding validate_batch validate_dim
  validate_batch_sound [] h = tt
  validate_batch_sound (v ∷ vs) h = ground (arith, validate_batch_sound vs)

  request_batch_checked :
      (texts : List String) (vs : List (List W))
      → request_batch settings svc tenant_id texts ≡ ok vs
      → validate_batch settings vs ≡ ok tt
  unfolding request_batch
  request_batch_checked texts vs h = ground arith

  -- Every vector of a batch that is returned has the configured dimension.
  pub aembed_documents-HasDimension :
      (texts : List String) (vs : List (List W))
      → aembed_documents settings svc tenant_id texts ≡ ok vs
      → All HasDimension vs
  aembed_documents-HasDimension [] vs h =
      let e : [] ≡ vs = ok-injective (unfold aembed_documents in h) in subst (All HasDimension) e tt
  aembed_documents-HasDimension (t ∷ ts) vs h =
      validate_batch_sound vs (request_batch_checked (t ∷ ts) vs (unfold aembed_documents in h))
