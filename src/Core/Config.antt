-- ===== src/Core/Config.antt =====
-- backend/core/config.py: the settings that the modelled code reads. `max_retry_count` has no lower
-- bound in the source; a negative value acts as 0 does.
use ai_lead_qualifier.Prelude.{◌≡◌, ℕ, String, ◌<◌, Bool, true, ◌||◌, str_eq}
use ai_lead_qualifier.Float.{Float, ◌≼◌}

pub record Settings (W : Type 0) : Type 0 where
  pub llm_provider : String
  pub embedding_model : String
  pub pgvector_embedding_dim : ℕ
  pub pgvector_n_results : ℕ
  pub ingestion_chunk_size : ℕ
  pub max_retry_count : ℕ
  pub mapper_max_distance : W
  pub evaluator_threshold : W
  pub delivery_max_attempts : ℕ
  pub pii_mask_token : String
  pub upload_max_bytes : ℕ
  pub profile_max_bytes : ℕ
  pub token_endpoint_enabled : Bool

-- `validate_llm_provider`: the names that the validator lets through.
unfoldable pub validate_llm_provider : String → Bool
validate_llm_provider v = str_eq v "openai" || str_eq v "groq" || str_eq v "llama"

-- The bounds that `Field` declares for these settings.
pub record IsConfigured {W : Type 0} ⦃fl : Float W⦄ (s : Settings W) : Type 0 where
  pub provider : validate_llm_provider s.llm_provider ≡ true
  pub chunk_size : 0 < s.ingestion_chunk_size
  pub max_distance : fl.literal 0 ≼ s.mapper_max_distance
  pub threshold_low : fl.literal 0 ≼ s.evaluator_threshold
  pub threshold_high : s.evaluator_threshold ≼ fl.literal 100
  pub attempts : 0 < s.delivery_max_attempts
