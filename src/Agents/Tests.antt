-- ===== src/Agents/Tests.antt =====
-- The nodes of the graph on concrete states.
use ai_lead_qualifier.Prelude.{perm_refl, String, ◌≡◌, refl, ◌↔◌, none, some, List, [], ◌∷◌}
use ai_lead_qualifier.Float.{Fixed, fixed_float, fixed_laws, ◌≼◌}
use ai_lead_qualifier.Core.Text.{strip, f_string}
use ai_lead_qualifier.Core.Json.{lookup}
use ai_lead_qualifier.Core.Exceptions.{ok, raised, Exc, type_error, runtime_error}
use ai_lead_qualifier.Services.Embeddings.{aembed_query}
use ai_lead_qualifier.Database.Documents.{
  Document, similarity_search, to_documents, to_document, select_matches, select_from,
}
use ai_lead_qualifier.Agents.State.{AgentState, MappedService}
use ai_lead_qualifier.Agents.Fixtures.{
  settings, fresh_state, quoted_state, regex, json, llm, embeddings, catalogue, distance, web_site,
  consulting,
}
use ai_lead_qualifier.Agents.Sanitizer.{PiiPattern, mask_pii}
use ai_lead_qualifier.Agents.Sanitizer.Masking.{Masked, all_patterns, mask_pii_iff}
use ai_lead_qualifier.Agents.Extractor.{
  extractor_node, parse_services, strip_fence, invoke_llm, llm_failure,
}
use ai_lead_qualifier.Agents.Extractor.Retries.{IsReported, IsCounted, extractor_node-IsReported}
use ai_lead_qualifier.Agents.Mapper.{
  map_loop, map_query, add_match, to_mapped, best_match, nearest_from, relevant, search_catalogue,
  with_mapping, mapper_node,
}
use ai_lead_qualifier.Agents.Mapper.Coverage.{IsMapped, mapper_node-IsMapped}
use ai_lead_qualifier.Agents.Evaluator.{evaluator_node}
use ai_lead_qualifier.Agents.Evaluator.Score.{evaluator_node_bounds}
use ai_lead_qualifier.Agents.Calculator.{sum_prices, sum_loop}
use ai_lead_qualifier.Agents.Calculator.Quote.{IsPriced, prices, sum_prices_iff}
use ai_lead_qualifier.Agents.Delivery.{console_adapter, delivery_node, format_quote_body}
use ai_lead_qualifier.Agents.Delivery.Attempts.{IsAttempted, delivery_node-IsAttempted}
use mathlib.Core.List.{foldl}

abbrev services : List (MappedService Fixed)
services = web_site ∷ consulting ∷ []

mask_pii_iff_example :
    ((mask_pii regex "mario@acme.it" "[REDACTED]" ≡ ok ("[REDACTED]", 1))
      ↔ Masked regex "[REDACTED]" all_patterns "mario@acme.it" "[REDACTED]" 1)
    × ((mask_pii regex "mario@acme.it" "[REDACTED]" ≡ ok ("[REDACTED]", 0)) ↔ (
        (◌≡◌ {A = String} "[REDACTED]" "mario@acme.it")
        × ((p : PiiPattern) → regex.findall p "mario@acme.it" ≡ [])))
mask_pii_iff_example = mask_pii_iff regex "[REDACTED]" "mario@acme.it" "[REDACTED]" 1

masks_email : mask_pii regex "mario@acme.it" "[REDACTED]" ≡ ok ("[REDACTED]", 1)
unfolding mask_pii
masks_email = refl

abbrev sent_state : AgentState Fixed
sent_state = record fresh_state { sanitized_text = "Vorrei un sito web" }

abbrev extracted_state : AgentState Fixed
extracted_state = record sent_state {
  extracted_services = "Sito Web" ∷ [];
  retry_count = 1;
  error_detail = none;
}

extractor_answers : extractor_node json settings llm sent_state ≡ ok extracted_state
unfolding extractor_node parse_services strip_fence strip invoke_llm
extractor_answers = refl

extractor_node-IsReported_example :
    IsReported sent_state extracted_state × IsCounted sent_state extracted_state
extractor_node-IsReported_example =
    extractor_node-IsReported json settings llm sent_state extracted_state extractor_answers

abbrev llama_failure : Exc
llama_failure = record { kind = runtime_error; message = "LLM call failed: no model" }

extractor_fails :
    extractor_node json (record settings { llm_provider = "llama" }) llm sent_state
    ≡ raised llama_failure
unfolding extractor_node invoke_llm llm_failure f_string
extractor_fails = refl

abbrev web_document : Document Fixed
web_document = record {
  page_content = "Sito Web";
  metadata = record {
    service = "Sito Web";
    price = some 1000000;
    price_type = "FIXED";
    distance = 1000;
    tenant_id = "acme";
    rest = [];
  };
}

abbrev mapped_state : AgentState Fixed
mapped_state = record extracted_state {
  mapped_services = web_site ∷ [];
  retrieved_docs = web_document ∷ [];
}

mapper_maps :
    mapper_node settings embeddings (select_matches distance (λ ms. ms) catalogue) extracted_state
    ≡ ok mapped_state
unfolding mapper_node map_loop map_query add_match to_mapped best_match nearest_from relevant
    search_catalogue with_mapping similarity_search to_documents to_document aembed_query lookup
    select_matches select_from
mapper_maps = refl

mapper_node-IsMapped_example :
    IsMapped distance (λ ms. ms) catalogue settings embeddings extracted_state mapped_state
mapper_node-IsMapped_example =
    mapper_node-IsMapped fixed_laws distance (λ ms. ms) perm_refl catalogue settings embeddings
      extracted_state mapped_state mapper_maps

evaluator_node_bounds_example :
    (0 ≼ (evaluator_node settings mapped_state).confidence_score)
    × ((evaluator_node settings mapped_state).confidence_score ≼ 10000)
evaluator_node_bounds_example = evaluator_node_bounds fixed_laws settings mapped_state

sum_prices_iff_example : (sum_prices services ≡ ok 1000000) ↔ (
    IsPriced services
    × (1000000
        ≡ fixed_float.round 2 (foldl fixed_float.add (fixed_float.literal 0) (prices services))))
sum_prices_iff_example = sum_prices_iff services 1000000

abbrev services_quote : Fixed
services_quote = 1000000

services_total : sum_prices services ≡ ok 1000000
unfolding sum_prices sum_loop
services_total = refl

delivery_node-IsAttempted_example :
    (s' : AgentState Fixed) × (delivery_node (λ tenant. console_adapter) quoted_state ≡ ok s')
    × IsAttempted quoted_state s'
delivery_node-IsAttempted_example =
    delivery_node-IsAttempted (λ tenant. console_adapter) quoted_state 1000000 services_total

abbrev unpriced : MappedService Fixed
unpriced = record web_site { price = none }

abbrev unpriced_state : AgentState Fixed
unpriced_state = record quoted_state { mapped_services = unpriced ∷ [] }

abbrev no_price : Exc
no_price = record {
  kind = type_error;
  message = "float() argument must be a string or a real number, not 'NoneType'";
}

delivery_fails : delivery_node (λ tenant. console_adapter) unpriced_state ≡ raised no_price
unfolding delivery_node format_quote_body
delivery_fails = refl
