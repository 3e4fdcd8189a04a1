-- ===== src/Agents/Mapper/Frame.antt =====
-- The fields that the mapper leaves alone.
use ai_lead_qualifier.Prelude.{◌≡◌, arith, inl, inr, []}
use ai_lead_qualifier.Float.{Float}
use ai_lead_qualifier.Core.Exceptions.{ok, Answer-cases}
use ai_lead_qualifier.Core.Config.{Settings}
use ai_lead_qualifier.Database.Documents.{Fetch}
use ai_lead_qualifier.Services.Embeddings.{EmbeddingClient}
use ai_lead_qualifier.Agents.State.{AgentState}
use ai_lead_qualifier.Agents.Mapper.{mapped, failed, map_loop, mapper_node}

module _ {W : Type 0} where
  pub record IsSameRun (s s' : AgentState W) : Type 0 where
    pub lead : s'.lead ≡ s.lead
    pub sanitized_text : s'.sanitized_text ≡ s.sanitized_text
    pub extracted_services : s'.extracted_services ≡ s.extracted_services
    pub status : s'.status ≡ s.status
    pub retry_count : s'.retry_count ≡ s.retry_count
    pub delivery_attempts : s'.delivery_attempts ≡ s.delivery_attempts

module _ {W : Type 0} ⦃fl : Float W⦄ (settings : Settings W) (svc : EmbeddingClient W)
    (fetch : Fetch W) where
  pub mapper_node-IsSameRun :
      {s s' : AgentState W} → mapper_node settings svc fetch s ≡ ok s' → IsSameRun s s'
  unfolding mapper_node
  mapper_node-IsSameRun {s} {s'} h =
      elim (Answer-cases
        (map_loop settings svc fetch s.lead.tenant_id s.extracted_services [] [])) [
          | inl (mapped ms ds, e) ↦ ground arith
          | inl (failed detail, e) ↦ ground arith
          | inr (x, e) ↦ ground arith
        ]
