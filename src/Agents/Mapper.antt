-- ===== src/Agents/Mapper.antt =====
-- backend/agents/mapper.py. The distances, the embedding client and the query of the catalogue are
-- those of Database/Documents.antt and Services/Embeddings.antt.
pub mod Matching
pub mod Coverage
pub mod Frame
use ai_lead_qualifier.Prelude.{
  ℕ, String, Bool, true, false, Option, none, some, List, [], ◌∷◌, ◌++◌, is_empty, or_else,
  if◌then◌else◌,
}
use ai_lead_qualifier.Float.{Float, float_lt}
use ai_lead_qualifier.Core.Text.{f_string}
use ai_lead_qualifier.Core.Json.{text, lookup}
use ai_lead_qualifier.Core.Exceptions.{
  Answer, ok, raised, Exc, is_value_error, is_embedding_error, ◌>>=◌,
}
use ai_lead_qualifier.Core.Config.{Settings}
use ai_lead_qualifier.Database.Documents.{Document, Fetch, similarity_search}
use ai_lead_qualifier.Services.Embeddings.{EmbeddingClient, aembed_query}
use ai_lead_qualifier.Agents.State.{AgentState, MappedService}

-- What the loop holds when it ends: the two accumulators, or the `error_detail` of an early return.
pub data Mapping (W : Type 0) : Type 0 where
  mapped : List (MappedService W) → List (Document W) → Mapping W
  failed : String → Mapping W

module _ {W : Type 0} ⦃fl : Float W⦄ where
  -- `_threshold`; `literal 80` is `_DISTANCE_FALLBACK`.
  abbrev pub distance_threshold : Settings W → W
  distance_threshold settings =
      if float_lt (fl.literal 0) settings.mapper_max_distance
      then settings.mapper_max_distance
      else fl.literal 80

  -- The `max_distance` that the search is given.
  abbrev pub search_distance : Settings W → Option W
  search_distance settings =
      if float_lt (fl.literal 0) settings.mapper_max_distance
      then some settings.mapper_max_distance
      else none

  -- The documents whose distance is not above the threshold.
  unfoldable pub relevant : W → List (Document W) → List (Document W)
  relevant threshold [] = []
  relevant threshold (d ∷ ds) =
      let rest = relevant threshold ds in
      if float_lt threshold d.metadata.distance then rest else d ∷ rest

  -- `min(…, key=…)`: the first of the nearest.
  unfoldable pub nearest_from : Document W → List (Document W) → Document W
  nearest_from best [] = best
  nearest_from best (d ∷ ds) =
      nearest_from (if float_lt d.metadata.distance best.metadata.distance then d else best) ds

  unfoldable pub best_match : List (Document W) → Option (Document W)
  best_match [] = none
  best_match (d ∷ ds) = some (nearest_from d ds)

  unfoldable pub to_mapped : String → Document W → MappedService W
  to_mapped service_query best = record {
    service = best.metadata.service;
    matched_name = best.metadata.service;
    price = best.metadata.price;
    unit = or_else (lookup "unit" best.metadata.rest) (text "€");
    price_type = best.metadata.price_type;
    distance = best.metadata.distance;
    query = service_query;
  }

  -- The accumulators after one query.
  unfoldable pub add_match :
      String → Option (Document W) → List (MappedService W) → List (Document W) → Mapping W
  add_match service_query none ms ds = mapped ms ds
  add_match service_query (some best) ms ds =
      mapped (ms ++ to_mapped service_query best ∷ []) (ds ++ best ∷ [])

  abbrev pub after_query :
      (List (MappedService W) → List (Document W) → Answer (Mapping W))
      → Answer (Mapping W)
      → Answer (Mapping W)
  after_query rest (raised exc) = raised exc
  after_query rest (ok (failed detail)) = ok (failed detail)
  after_query rest (ok (mapped ms ds)) = rest ms ds

  module _ (settings : Settings W) (svc : EmbeddingClient W) (fetch : Fetch W)
      (tenant_id : String) where
    pub embedding_failure : Exc → Answer (Mapping W)
    embedding_failure exc =
        if is_embedding_error exc.kind
        then ok (
            failed
              (f_string ("Embedding fallito per tenant='" ∷ tenant_id ∷ "': " ∷ exc.message ∷ [])))
        else raised exc

    unfoldable pub search_failure : Exc → Mapping W
    search_failure exc =
        if is_value_error exc.kind
        then failed (
            f_string (
              "Nessun catalogo trovato per tenant='" ∷ tenant_id ∷ "'. Run /ingest/stream first. ["
              ∷ exc.message ∷ "]" ∷ []))
        else failed (
            f_string ("pgvector query fallita per tenant='" ∷ tenant_id ∷ "': " ∷ exc.message ∷ []))

    unfoldable pub search_catalogue : List W → Answer (List (Document W))
    search_catalogue embedding =
        similarity_search settings fetch embedding tenant_id none (search_distance settings)

    -- The body of the loop for one extracted service.
    unfoldable pub map_query :
        String → List (MappedService W) → List (Document W) → Answer (Mapping W)
    map_query service_query ms ds = elim (aembed_query settings svc tenant_id service_query) [
      | raised exc ↦ embedding_failure exc
      | ok embedding ↦ elim (search_catalogue embedding) [
        | raised exc ↦ ok (search_failure exc)
        | ok docs ↦ ok (
            add_match service_query (best_match (relevant (distance_threshold settings) docs)) ms
              ds)
      ]
    ]

    -- The loop goes on with the rest unless the body returned or raised.
    unfoldable pub map_loop :
        List String → List (MappedService W) → List (Document W) → Answer (Mapping W)
    map_loop [] ms ds = ok (mapped ms ds)
    map_loop (q ∷ qs) ms ds = after_query (map_loop qs) (map_query q ms ds)

    -- The dict that the node returns, written into the state.
    unfoldable pub with_mapping : AgentState W → Mapping W → AgentState W
    with_mapping state (mapped ms ds) = record state {
      mapped_services = ms;
      retrieved_docs = ds;
      error_detail = none;
    }
    with_mapping state (failed detail) = record state {
      mapped_services = [];
      retrieved_docs = [];
      error_detail = some detail;
    }

    abbrev map_all : AgentState W → Answer (AgentState W)
    map_all state = map_loop state.extracted_services [] [] >>= λ m. ok (with_mapping state m)

  unfoldable pub mapper_node :
      Settings W → EmbeddingClient W → Fetch W → AgentState W → Answer (AgentState W)
  unfolding with_mapping
  mapper_node settings svc fetch state =
      if is_empty state.extracted_services
      then ok (record state { mapped_services = []; retrieved_docs = [] })
      else map_all settings svc fetch state.lead.tenant_id state
