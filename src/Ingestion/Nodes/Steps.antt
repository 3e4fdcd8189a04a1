-- ===== src/Ingestion/Nodes/Steps.antt =====
-- What one call of the normalizer adds to the state.
use ai_lead_qualifier.Prelude.{
  ◌+◌, String, ◌≡◌, refl, sym, List, [], ◌++◌, append-nil, All, inl, inr, arith, Option-cases,
}
use mathlib.Core.Path.{subst}
use ai_lead_qualifier.Float.{Float, FloatLaws}
use ai_lead_qualifier.Core.Json.{Json}
use ai_lead_qualifier.Core.Exceptions.{Answer, ok, raised, Answer-cases, ok-injective}
use ai_lead_qualifier.Ingestion.State.{IngestionState, Services}
use ai_lead_qualifier.Ingestion.Items.{ServiceItem}
use ai_lead_qualifier.Ingestion.Items.Pricing.{IsValid}
use ai_lead_qualifier.Ingestion.Normalizer.{
  get_elem?, build_normalizer_prompt, parse_normalizer_response,
}
use ai_lead_qualifier.Ingestion.Normalizer.Coverage.{parse_normalizer_response-IsValid}
use ai_lead_qualifier.Ingestion.Nodes.{
  normalizer_system_prompt, with_items, normalizer_failure, after_reply, out_of_range,
  normalizer_node,
}

module _ {W : Type 0} ⦃fl : Float W⦄ where
  pub record IsStep (s s' : IngestionState W) : Type 0 where
    pub counted : s'.current_chunk_index ≡ s.current_chunk_index + 1
    pub same_chunks : s'.raw_chunks ≡ s.raw_chunks
    pub same_tenant : s'.tenant_id ≡ s.tenant_id
    pub items : List (ServiceItem W)
    pub appended : s'.normalized_items ≡ s.normalized_items ++ items
    pub valid : All (IsValid s.tenant_id) items

  module _ (laws : FloatLaws W) (services : Services W) (s : IngestionState W) where
    after_reply-IsStep :
        (chunk : List (Json W)) (r : Answer String) (s' : IngestionState W)
        → after_reply services s chunk r ≡ ok s'
        → IsStep s s'
    unfolding after_reply with_items normalizer_failure
    after_reply-IsStep chunk (raised exc) s' h = subst (IsStep s) (ok-injective h) (record {
      counted = refl;
      same_chunks = refl;
      same_tenant = refl;
      items = [];
      appended = sym (append-nil _);
      valid = tt;
    })
    after_reply-IsStep chunk (ok raw) s' h =
        elim (Answer-cases
          (parse_normalizer_response services.json services.pydantic raw chunk s.tenant_id)) [
            | inl (items, e) ↦
                let (valid, count) =
                  parse_normalizer_response-IsValid laws services.json services.pydantic chunk
                    s.tenant_id raw items e in
                let made : with_items services s items ≡ s' = ground arith in
                subst (IsStep s) made (record {
                  counted = refl;
                  same_chunks = refl;
                  same_tenant = refl;
                  items = items;
                  appended = refl;
                  valid = valid;
                })
            | inr (x, e) ↦ absurd (ground arith)
          ]

    -- When the normalizer returns, it has moved on by one chunk and kept the items that it found; the items
    -- that it appended belong to the tenant, have a name, keep the pricing rule, and are flagged if
    -- their confidence is below 0.5.
    pub normalizer_node-IsStep :
        (s' : IngestionState W) → normalizer_node services s ≡ ok s' → IsStep s s'
    unfolding normalizer_node out_of_range
    normalizer_node-IsStep s' h =
        elim (Option-cases (get_elem? s.raw_chunks s.current_chunk_index)) [
          | inl e ↦
              let made : out_of_range services s ≡ s' = ground arith in
              subst (IsStep s) made (record {
                counted = refl;
                same_chunks = refl;
                same_tenant = refl;
                items = [];
                appended = sym (append-nil _);
                valid = tt;
              })
          | inr (chunk, e) ↦
              let reply = services.call_openai_compatible normalizer_system_prompt (
                build_normalizer_prompt services.json services.pydantic services.dumps_chunk chunk
                  s.review_feedback) in
              after_reply-IsStep chunk reply s' (ground arith)
        ]
