-- ===== src/Ingestion/Tests.antt =====
-- Ingestion on a file of three rows.
use ai_lead_qualifier.Prelude.{
  ℕ, ◌≡◌, ◌≤◌, ◌<◌, refl, false, none, some, List, [], ◌∷◌, All, length, arith,
}
use ai_lead_qualifier.Float.{Fixed, fixed_float, fixed_laws}
use ai_lead_qualifier.Core.Text.{strip}
use ai_lead_qualifier.Core.Json.{text, lookup, without}
use ai_lead_qualifier.Core.Exceptions.{ok}
use ai_lead_qualifier.Agents.Extractor.{strip_fence, loads_reply}
use ai_lead_qualifier.Agents.Fixtures.{settings}
use ai_lead_qualifier.Database.Catalogue.{upsert_items, Table}
use ai_lead_qualifier.Ingestion.State.{IngestionState, make_initial_state}
use ai_lead_qualifier.Ingestion.Items.{ServiceItem, fixed, service_item}
use ai_lead_qualifier.Ingestion.Items.Pricing.{IsValid, service_item-IsValid}
use ai_lead_qualifier.Ingestion.Chunks.{split_chunks}
use ai_lead_qualifier.Ingestion.Chunks.Partition.{concat, split_chunks_partition}
use ai_lead_qualifier.Ingestion.Normalizer.{parse_normalizer_response, reply_entries}
use ai_lead_qualifier.Ingestion.Normalizer.Coverage.{
  count_objects, parse_normalizer_response-IsValid,
}
use ai_lead_qualifier.Ingestion.Nodes.{chunker_node, normalizer_node}
use ai_lead_qualifier.Ingestion.Nodes.Steps.{IsStep, normalizer_node-IsStep}
use ai_lead_qualifier.Ingestion.Finalizer.{finalizer_node}
use ai_lead_qualifier.Ingestion.Finalizer.Writes.{IsAtomic, finalizer_node-IsAtomic}
use ai_lead_qualifier.Ingestion.Fixtures.{fields, pydantic, row, json, services, start}
use ai_lead_qualifier.Services.Embeddings.{aembed_documents}
use ai_lead_qualifier.Ingestion.Pipeline.{ingest}
use ai_lead_qualifier.Ingestion.Pipeline.Termination.{EndsProperly, ingest-EndsProperly}

abbrev item : ServiceItem Fixed
item = record {
  id = "id-1";
  tenant_id = "acme";
  name = "Logo";
  description = none;
  category = none;
  price = some 500000;
  price_type = fixed;
  currency = "EUR";
  unit = none;
  confidence = 9000;
  raw_data = [];
  flagged = false;
  flag_reason = none;
  ingested_at = "2026-01-01T00:00:00";
}

item_built : service_item pydantic 0 "acme" [] fields ≡ ok item
unfolding service_item
item_built = refl

service_item-IsValid_example : IsValid "acme" item
service_item-IsValid_example =
    service_item-IsValid fixed_laws pydantic 0 "acme" [] fields item item_built

abbrev three_rows : List ℕ
three_rows = 1 ∷ 2 ∷ 3 ∷ []

split_chunks_partition_example :
    (concat (split_chunks three_rows 2) ≡ three_rows)
    × All (λ c. (0 < length c) × (length c ≤ 2)) (split_chunks three_rows 2)
split_chunks_partition_example = split_chunks_partition three_rows 2 (omega arith)

abbrev parsed_item : ServiceItem Fixed
parsed_item = record item { raw_data = ("nome", text "Logo") ∷ [] }

parsed : parse_normalizer_response json pydantic "[{}]" (row ∷ []) "acme" ≡ ok (parsed_item ∷ [])
unfolding parse_normalizer_response loads_reply strip_fence strip lookup without service_item
parsed = refl

parse_normalizer_response-IsValid_example :
    All (IsValid "acme") (parsed_item ∷ [])
    × (1 ≡ count_objects (reply_entries json pydantic "[{}]"))
parse_normalizer_response-IsValid_example =
    parse_normalizer_response-IsValid fixed_laws json pydantic (row ∷ []) "acme" "[{}]"
      (parsed_item ∷ []) parsed

abbrev chunked : IngestionState Fixed
chunked = record start { raw_chunks = (row ∷ []) ∷ [] }

normalized : (s' : IngestionState Fixed) × (normalizer_node services chunked ≡ ok s')
unfolding normalizer_node make_initial_state parse_normalizer_response loads_reply strip_fence strip
    lookup without service_item
normalized = (_, refl)

normalizer_node-IsStep_example : IsStep chunked normalized.0
normalizer_node-IsStep_example =
    normalizer_node-IsStep fixed_laws services chunked normalized.0 normalized.1

abbrev no_rows : Table Fixed
no_rows = []

one_chunk : length (chunker_node services settings start).raw_chunks ≡ 1
unfolding chunker_node make_initial_state split_chunks
one_chunk = refl

ingest-EndsProperly_example :
    EndsProperly fixed_laws settings
      (λ i. services)
      no_rows
      (ingest settings (λ i. services) 4 start no_rows)
ingest-EndsProperly_example =
    ingest-EndsProperly fixed_laws settings (λ i. services) no_rows 4 start
      (omega (arith, one_chunk))

-- A state that holds one item twice; it is written once.
abbrev twice : IngestionState Fixed
twice = record start { normalized_items = item ∷ item ∷ [] }

written_once : length (finalizer_node services settings twice no_rows).1 ≡ 1
unfolding finalizer_node aembed_documents upsert_items
written_once = refl

finalizer_node-IsAtomic_example :
    IsAtomic services twice no_rows (finalizer_node services settings twice no_rows)
finalizer_node-IsAtomic_example = finalizer_node-IsAtomic services settings twice no_rows
