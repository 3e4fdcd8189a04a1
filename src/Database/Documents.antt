-- ===== src/Database/Documents.antt =====
-- backend/database/vector_store.py: `similarity_search`, from the rows that the query returns to the
-- documents that the mapper reads, and the query itself on a table.
pub mod Selecting
pub mod Search
use ai_lead_qualifier.Prelude.{
  ℕ, zero, suc, String, Bool, true, false, Option, none, some, List, [], ◌∷◌, take, if◌then◌else◌,
}
use ai_lead_qualifier.Float.{Float, float_lt}
use ai_lead_qualifier.Core.Text.{is_empty_text}
use ai_lead_qualifier.Core.Json.{Json, Dict}
use ai_lead_qualifier.Core.Exceptions.{Answer, ok, raised, ◌>>=◌}
use ai_lead_qualifier.Core.Config.{Settings}
use ai_lead_qualifier.Database.Catalogue.{Row, Table, owned_by}

-- One row of the query's result.
pub record Match (W : Type 0) : Type 0 where
  pub service : String
  pub price : Option W
  pub price_type : String
  pub description : Option String
  pub metadata : Dict (Json W)
  pub distance : W

-- `Document.metadata` is the row's JSONB dict, updated with the five keys that are fields here.
pub record Metadata (W : Type 0) : Type 0 where
  pub service : String
  pub price : Option W
  pub price_type : String
  pub distance : W
  pub tenant_id : String
  pub rest : Dict (Json W)

pub record Document (W : Type 0) : Type 0 where
  pub page_content : String
  pub metadata : Metadata W

-- `pool.fetch` of the query for an embedding, a tenant and a LIMIT.
abbrev pub Fetch : Type 0 → Type 0
Fetch W = List W → String → ℕ → Answer (List (Match W))

module _ {W : Type 0} (distance : List W → List W → W) where
  -- `SELECT service, price, price_type, description, metadata, (embedding <=> $1) AS distance`
  abbrev pub to_match : List W → Row W → Match W
  to_match query_embedding row = record {
    service = row.service;
    price = row.price;
    price_type = row.price_type;
    description = some row.description;
    metadata = row.metadata;
    distance = distance row.embedding query_embedding;
  }

  -- `FROM catalogue_items WHERE tenant_id = $2`
  unfoldable pub select_from : List W → String → Table W → List (Match W)
  select_from query_embedding tenant_id [] = []
  select_from query_embedding tenant_id (row ∷ rows) =
      let rest = select_from query_embedding tenant_id rows in
      if owned_by tenant_id row then to_match query_embedding row ∷ rest else rest

  -- The query on a table. `order_by_distance` is the database's ORDER BY, and `distance` pgvector's `<=>`.
  unfoldable pub select_matches : (List (Match W) → List (Match W)) → Table W → Fetch W
  unfolding select_from
  select_matches order_by_distance table query_embedding tenant_id limit =
      ok (take limit (order_by_distance (select_from query_embedding tenant_id table)))

-- `n_results or settings.pgvector_n_results`
abbrev pub result_limit : Option ℕ → ℕ → ℕ
result_limit none default = default
result_limit (some zero) default = default
result_limit (some (suc n)) default = suc n

-- `row["description"] or row["service"]`
abbrev pub page_content_of : Option String → String → String
page_content_of none service = service
page_content_of (some d) service = if is_empty_text d then service else d

module _ {W : Type 0} ⦃fl : Float W⦄ where
  -- `max_distance if (max_distance and max_distance > 0.0) else None`
  abbrev pub search_threshold : Option W → Option W
  search_threshold none = none
  search_threshold (some d) = if float_lt (fl.literal 0) d then some d else none

  -- `threshold and distance > threshold`
  abbrev pub is_beyond : Option W → W → Bool
  is_beyond none d = false
  is_beyond (some t) d = float_lt t d

  unfoldable pub to_document : String → Match W → Document W
  to_document tenant_id row = record {
    page_content = page_content_of row.description row.service;
    metadata = record {
      service = row.service;
      price = row.price;
      price_type = row.price_type;
      distance = row.distance;
      tenant_id = tenant_id;
      rest = row.metadata;
    };
  }

  unfoldable pub to_documents : Option W → String → List (Match W) → List (Document W)
  to_documents threshold tenant_id [] = []
  to_documents threshold tenant_id (row ∷ rows) =
      let docs = to_documents threshold tenant_id rows in
      if is_beyond threshold row.distance then docs else to_document tenant_id row ∷ docs

  unfoldable pub similarity_search :
      Settings W → Fetch W → List W → String → Option ℕ → Option W → Answer (List (Document W))
  unfolding to_documents to_document
  similarity_search settings fetch query_embedding tenant_id n_results max_distance = do
    rows ← fetch query_embedding tenant_id (result_limit n_results settings.pgvector_n_results)
    ok (to_documents (search_threshold max_distance) tenant_id rows)
