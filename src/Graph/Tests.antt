-- ===== src/Graph/Tests.antt =====
-- Runs of the whole graph on a concrete lead: one that delivers its quote, one that goes to review
-- since the catalogue is down, and one whose text the mask leaves empty.
use ai_lead_qualifier.Prelude.{◌≡◌, refl, ◌≤◌, true, false, [], ◌∷◌, arith}
use ai_lead_qualifier.Float.{Fixed, fixed_float, ◌≼◌, float_lt}
use ai_lead_qualifier.Core.Text.{is_empty_text, strip}
use ai_lead_qualifier.Core.Json.{lookup}
use ai_lead_qualifier.Core.Exceptions.{raised, other}
use ai_lead_qualifier.Services.Embeddings.{aembed_query}
use ai_lead_qualifier.Database.Documents.{similarity_search, to_documents, to_document}
use ai_lead_qualifier.Agents.State.{AgentState, Status}
use ai_lead_qualifier.Agents.Fixtures.{settings, fresh_state, regex, json, llm, embeddings, fetch}
use ai_lead_qualifier.Agents.Sanitizer.{sanitizer_node, mask_pii}
use ai_lead_qualifier.Agents.Extractor.{extractor_node, parse_services, strip_fence, invoke_llm}
use ai_lead_qualifier.Agents.Mapper.{
  map_loop, map_query, add_match, to_mapped, best_match, nearest_from, relevant, search_catalogue,
  search_failure, with_mapping, mapper_node,
}
use ai_lead_qualifier.Agents.Evaluator.{
  evaluator_node, confidence, raw_score, mapped_ratio, avg_distance, sum_distances,
}
use ai_lead_qualifier.Agents.Calculator.{calculator_node, sum_prices, sum_loop, on_request}
use ai_lead_qualifier.Agents.Delivery.{console_adapter, delivery_node, format_quote_body}
use ai_lead_qualifier.Graph.{
  World, Outcome, hitl_interrupt_node, finished, interrupted, crashed, ainvoke, execute, next,
}
use ai_lead_qualifier.Graph.Steps.{HasExtracted, HasQuote, IsDelivered}
use ai_lead_qualifier.Graph.Outcomes.{ainvoke_finished, ainvoke_interrupted}
use ai_lead_qualifier.Graph.Termination.{EndsProperly, ainvoke-EndsProperly}
use ai_lead_qualifier.Graph.Livelock.{RunsOut, ainvoke-RunsOut}

abbrev world : World Fixed
world = record {
  re = regex;
  json = json;
  llm = λ i. llm;
  embeddings = λ i. embeddings;
  fetch = λ i. fetch;
  adapter = λ i tenant. console_adapter;
}

-- The catalogue cannot be read.
abbrev world_down : World Fixed
world_down = record world {
  fetch = λ i v tenant limit. raised (record { kind = other "OSError"; message = "down" });
}

-- The state that an outcome carries.
abbrev last_state : Outcome Fixed → AgentState Fixed
last_state (finished s) = s
last_state (interrupted s p) = s
last_state (crashed exc s) = s

-- A mask token with a bad escape makes every substitution raise.
abbrev lead_with_email : AgentState Fixed
lead_with_email = record fresh_state {
  lead = record fresh_state.lead { raw_payload = ("text", "mario@acme.it") ∷ [] };
}

abbrev world_bad_mask : World Fixed
world_bad_mask = record world {
  re = record regex {
    sub = λ p mask t. raised (record { kind = other "re.error"; message = "bad escape" });
  };
}

abbrev end_state : AgentState Fixed
end_state = last_state (ainvoke settings world 14 fresh_state)

run_finishes : ainvoke settings world 14 fresh_state ≡ finished end_state
unfolding ainvoke execute next extractor_node sanitizer_node mask_pii lookup invoke_llm mapper_node
    parse_services strip_fence strip map_loop map_query add_match to_mapped best_match nearest_from
    relevant search_catalogue with_mapping similarity_search to_documents to_document aembed_query
    evaluator_node confidence raw_score mapped_ratio avg_distance sum_distances calculator_node
    sum_prices sum_loop on_request delivery_node format_quote_body
run_finishes = refl

ainvoke_finished_example :
    (settings.evaluator_threshold ≼ end_state.confidence_score)
    × HasExtracted settings end_state
    × HasQuote settings end_state
    × (end_state.delivery_attempts ≤ 3)
    × IsDelivered settings end_state
ainvoke_finished_example =
    ainvoke_finished settings world 14 (omega arith) fresh_state end_state (refl, refl) run_finishes

run_text : is_empty_text (sanitizer_node regex settings fresh_state).sanitized_text ≡ false
unfolding sanitizer_node mask_pii lookup
run_text = refl

ainvoke-EndsProperly_example : EndsProperly settings world (ainvoke settings world 11 fresh_state)
ainvoke-EndsProperly_example =
    ainvoke-EndsProperly settings world (omega arith) 11 fresh_state (refl, refl) run_text
      (omega arith)

abbrev review_state : AgentState Fixed
review_state = last_state (ainvoke settings world_down 14 fresh_state)

run_is_reviewed :
    ainvoke settings world_down 14 fresh_state
    ≡ interrupted review_state (hitl_interrupt_node review_state)
unfolding ainvoke execute next extractor_node sanitizer_node mask_pii lookup invoke_llm mapper_node
    parse_services strip_fence strip map_loop map_query search_catalogue search_failure with_mapping
    similarity_search aembed_query evaluator_node confidence
run_is_reviewed = refl

ainvoke_interrupted_example :
    (float_lt review_state.confidence_score settings.evaluator_threshold ≡ true)
    × HasExtracted settings review_state
    × (2 ≤ review_state.retry_count)
    × (review_state.status ≡ Status.pending_review)
    × (review_state.delivery_attempts ≡ 0)
ainvoke_interrupted_example =
    ainvoke_interrupted settings world_down 14 (omega arith) fresh_state review_state (refl, refl)
      (hitl_interrupt_node review_state) run_is_reviewed

no_text :
    is_empty_text (sanitizer_node world_bad_mask.re settings lead_with_email).sanitized_text ≡ true
unfolding sanitizer_node mask_pii lookup
no_text = refl

ainvoke-RunsOut_example :
    RunsOut settings world_bad_mask (ainvoke settings world_bad_mask 25 lead_with_email)
ainvoke-RunsOut_example =
    ainvoke-RunsOut settings world_bad_mask (omega arith) refl 25 lead_with_email refl no_text
