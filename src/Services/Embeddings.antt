-- ===== src/Services/Embeddings.antt =====
-- backend/services/embeddings.py: the calls of Ollama, whose client is a parameter, and the check of
-- the vectors' dimension.
pub mod Dimensions
use ai_lead_qualifier.Prelude.{ℕ, String, List, [], ◌∷◌, ◌==◌, length, is_empty, if◌then◌else◌}
use ai_lead_qualifier.Core.Text.{f_string, show}
use ai_lead_qualifier.Core.Exceptions.{
  Answer, ok, raised, Exc, embedding_error, dimension_mismatch, ◌>>=◌,
}
use ai_lead_qualifier.Core.Config.{Settings}

-- `OllamaEmbeddings`
pub record EmbeddingClient (W : Type 0) : Type 0 where
  pub aembed_query : String → Answer (List W)
  pub aembed_documents : List String → Answer (List (List W))

-- `except Exception`: every failure of the client becomes an EmbeddingError.
as_embedding_error {ℓ} : {A : Type ℓ} → List String → Answer A → Answer A
as_embedding_error context (ok a) = ok a
as_embedding_error context (raised exc) =
    raised
      (record { kind = embedding_error; message = f_string (f_string context ∷ exc.message ∷ []) })

module _ {W : Type 0} where
  pub validate_dim : List W → ℕ → String → Answer (Unit {0})
  validate_dim vector expected_dim model =
      let actual = length vector in
      if actual == expected_dim
      then ok tt
      else raised (record {
        kind = dimension_mismatch;
        message = f_string (
            "Dimensione embedding errata: ottenuto "
            ∷ show actual
            ∷ " dim, atteso "
            ∷ show expected_dim
            ∷ " dim. Verificare che embedding_model='"
            ∷ model
            ∷ "' e pgvector_embedding_dim="
            ∷ show expected_dim
            ∷ " in core/config.py siano coerenti. Hint: nomic-embed-text → 768 dim, mxbai-embed-large → 1024 dim."
            ∷ []);
      })

  unfoldable pub aembed_query : Settings W → EmbeddingClient W → String → String → Answer (List W)
  unfolding as_embedding_error validate_dim
  aembed_query settings svc tenant_id text = do
    vector ←
        as_embedding_error
          ("Ollama aembed_query fallito [tenant='" ∷ tenant_id ∷ "', model='"
            ∷ settings.embedding_model ∷ "']: " ∷ [])
          (svc.aembed_query text)
    checked ← validate_dim vector settings.pgvector_embedding_dim settings.embedding_model
    ok vector

  validate_batch : Settings W → List (List W) → Answer (Unit {0})
  validate_batch settings [] = ok tt
  validate_batch settings (vector ∷ vectors) =
      validate_dim vector settings.pgvector_embedding_dim settings.embedding_model >>= λ _.
      validate_batch settings vectors

  -- The call and the check of every vector of the batch.
  pub request_batch : Settings W → EmbeddingClient W → String → List String → Answer (List (List W))
  request_batch settings svc tenant_id texts = do
    vectors ←
        as_embedding_error
          ("Ollama aembed_documents fallito [tenant='"
            ∷ tenant_id
            ∷ "', batch_size="
            ∷ show (length texts)
            ∷ ", model='"
            ∷ settings.embedding_model
            ∷ "']: "
            ∷ [])
          (svc.aembed_documents texts)
    checked ← validate_batch settings vectors
    ok vectors

  unfoldable pub aembed_documents :
      Settings W → EmbeddingClient W → String → List String → Answer (List (List W))
  unfolding request_batch as_embedding_error validate_dim validate_batch
  aembed_documents settings svc tenant_id texts =
      if is_empty texts then ok [] else request_batch settings svc tenant_id texts
