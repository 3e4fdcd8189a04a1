-- ===== src/Ingestion/Nodes/Logs.antt =====
-- The chunker and the normalizer only append to the log.
use ai_lead_qualifier.Prelude.{String, List, ◌++◌, ◌≡◌, refl, Option-cases, inl, inr}
use ai_lead_qualifier.Float.{Float}
use ai_lead_qualifier.Core.Json.{Json}
use ai_lead_qualifier.Core.Exceptions.{Answer, ok, raised, Answer-cases}
use ai_lead_qualifier.Core.Config.{Settings}
use ai_lead_qualifier.Ingestion.State.{IngestionState, Services}
use ai_lead_qualifier.Ingestion.Normalizer.{
  parse_normalizer_response, get_elem?, build_normalizer_prompt,
}
use ai_lead_qualifier.Ingestion.Nodes.{
  reader, chunker_failure, with_chunks, after_read, chunker_node, with_items, normalizer_failure,
  after_reply, out_of_range, normalizer_node, normalizer_system_prompt,
}

-- The log lines of the second state go on from those of the first.
abbrev pub Appends : {W : Type 0} → IngestionState W → IngestionState W → Type 0
Appends s s' = (more : List String) × (s'.sse_logs ≡ s.sse_logs ++ more)

abbrev pub AppendsIf : {W : Type 0} → IngestionState W → Answer (IngestionState W) → Type 0
AppendsIf s (ok s') = Appends s s'
AppendsIf s (raised exc) = Unit

module _ {W : Type 0} ⦃fl : Float W⦄ (services : Services W) (s : IngestionState W) where
  after_read-Appends :
      (settings : Settings W) (r : Answer String) (read : String → Answer (List (Json W)))
      → Appends s (after_read services settings s r read)
  unfolding after_read chunker_failure with_chunks
  after_read-Appends settings (raised exc) read = (_, refl)
  after_read-Appends settings (ok content) read = elim (Answer-cases (read content)) [
    | inr (e, p) ↦ rw (p, after_read) (_, refl)
    | inl (rows, p) ↦ rw (p, after_read) (_, refl)
  ]

  pub chunker_node-Appends : (settings : Settings W) → Appends s (chunker_node services settings s)
  unfolding chunker_node
  chunker_node-Appends settings = elim (Option-cases (reader services s.file_format)) [
    | inl n ↦ rw (n, chunker_node) (_, refl)
    | inr (read, p) ↦
        rw (p, chunker_node)
          (after_read-Appends settings (services.download_file s.source_file) read)
  ]

  after_reply-Appends :
      (chunk : List (Json W)) (r : Answer String) → AppendsIf s (after_reply services s chunk r)
  unfolding after_reply with_items normalizer_failure
  after_reply-Appends chunk (raised exc) = (_, refl)
  after_reply-Appends chunk (ok raw) =
      elim (Answer-cases
        (parse_normalizer_response services.json services.pydantic raw chunk s.tenant_id)) [
          | inr (e, p) ↦ rw (p, after_reply) tt
          | inl (items, p) ↦ rw (p, after_reply) (_, refl)
        ]

  pub normalizer_node-Appends : AppendsIf s (normalizer_node services s)
  unfolding normalizer_node out_of_range
  normalizer_node-Appends = elim (Option-cases (get_elem? s.raw_chunks s.current_chunk_index)) [
    | inl n ↦ rw (n, normalizer_node) (_, refl)
    | inr (chunk, p) ↦
        rw (p, normalizer_node)
          (after_reply-Appends chunk (
            services.call_openai_compatible normalizer_system_prompt (
              build_normalizer_prompt services.json services.pydantic services.dumps_chunk chunk
                s.review_feedback)))
  ]
