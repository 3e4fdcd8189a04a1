-- ===== src/Agents/Extractor/Retries.antt =====
-- What ExtractorNode writes, counts and raises, on every branch.
use ai_lead_qualifier.Prelude.{
  ◌+◌, String, Bool, Option, none, some, is_empty, Bool-cases, ltb, if◌then◌else◌, ◌≡◌, ◌⊎◌, inl,
  inr, true, false, [], arith, All,
}
use ai_lead_qualifier.Core.Text.{is_empty_text}
use ai_lead_qualifier.Core.Exceptions.{Answer, ok, raised, Exc, runtime_error}
use ai_lead_qualifier.Core.Config.{Settings}
use ai_lead_qualifier.Agents.State.{AgentState}
use ai_lead_qualifier.Agents.Extractor.{
  JsonLibrary, LlmClients, system_prompt, build_user_prompt, invoke_llm, after_llm, extractor_node,
}
use ai_lead_qualifier.Agents.Extractor.Parsing.{IsTrimmed, parse_services-IsTrimmed}

abbrev is_present : {A : Type 0} → Option A → Bool
is_present none = false
is_present (some a) = true

module _ {W : Type 0} (s s' : AgentState W) where
  -- What the extractor found, and what it reports: a detail exactly when it found nothing.
  pub record IsReported : Type 0 where
    pub trimmed : All IsTrimmed s'.extracted_services
    pub detail : is_present s'.error_detail ≡ is_empty s'.extracted_services
    pub same_text : s'.sanitized_text ≡ s.sanitized_text

  -- A call is counted exactly when there was a text to send.
  abbrev pub IsCounted : Type 0
  IsCounted =
      ((is_empty_text s.sanitized_text ≡ true)
        × (s'.retry_count ≡ s.retry_count)
        × (s'.extracted_services ≡ []))
      ⊎ ((is_empty_text s.sanitized_text ≡ false) × (s'.retry_count ≡ s.retry_count + 1))

module _ {W : Type 0} (json : JsonLibrary W) (settings : Settings W) (llm : LlmClients)
    (s : AgentState W) where
  after_llm-IsReported :
      (r : Answer String) (s' : AgentState W) → after_llm json s r ≡ ok s' → IsReported s s'
  unfolding after_llm
  after_llm-IsReported (ok reply) s' h = ground (arith, parse_services-IsTrimmed json reply)
  after_llm-IsReported (raised exc) s' h = ground arith

  -- When the extractor returns, every service it found is trimmed and not empty, it reports a detail
  -- exactly when it found none, and it counted a call exactly when the sanitized text is not empty;
  -- with an empty text it found none.
  pub extractor_node-IsReported :
      (s' : AgentState W)
      → extractor_node json settings llm s ≡ ok s'
      → IsReported s s' × IsCounted s s'
  unfolding extractor_node
  extractor_node-IsReported s' h = elim (Bool-cases (is_empty_text s.sanitized_text)) [
    | inl empty ↦ ground arith
    | inr present ↦
        let previous = if ltb 0 s.retry_count then s.extracted_services else [] in
        let reply =
          invoke_llm json settings llm system_prompt
            (build_user_prompt json s.sanitized_text previous) in
        ground (arith, after_llm-IsReported reply s')
  ]

  -- The extractor raises nothing but RuntimeError, and only when the sanitized text is not empty.
  pub extractor_node_raised :
      (exc : Exc)
      → extractor_node json settings llm s ≡ raised exc
      → (exc.kind ≡ runtime_error) × (is_empty_text s.sanitized_text ≡ false)
  unfolding extractor_node
  extractor_node_raised exc h = ground arith
