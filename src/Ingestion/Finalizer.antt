-- ===== src/Ingestion/Finalizer.antt =====
-- backend/ingestion/graph.py: `_write_to_pgvector` and the finalizer, which writes to the table of
-- Database/Catalogue.antt. The transaction commits or raises as a whole.
pub mod Writes
use ai_lead_qualifier.Prelude.{
  ℕ, String, Bool, true, false, Option, none, some, List, [], ◌∷◌, ◌++◌, or_else, any, is_empty,
  length, str_eq, map, if◌then◌else◌,
}
use ai_lead_qualifier.Float.{Float}
use ai_lead_qualifier.Core.Text.{f_string, is_empty_text, join, show}
use ai_lead_qualifier.Core.Json.{Json, text, object, Entries, end, entry, Dict}
use ai_lead_qualifier.Core.Exceptions.{
  Answer, ok, raised, Exc, runtime_error, other, is_embedding_error, type_name, ◌>>=◌,
}
use ai_lead_qualifier.Core.Config.{Settings}
use ai_lead_qualifier.Services.Embeddings.{aembed_documents}
use ai_lead_qualifier.Database.Catalogue.{Item, Table, upsert_items}
use ai_lead_qualifier.Ingestion.State.{IngestionState, Services}
use ai_lead_qualifier.Ingestion.Items.{ServiceItem, price_type_value}
use ai_lead_qualifier.Ingestion.Normalizer.{row_to_text}

abbrev to_entries : {W : Type 0} → Dict (Json W) → Entries W
to_entries [] = end
to_entries ((k, v) ∷ d) = entry k v (to_entries d)

module _ {W : Type 0} ⦃fl : Float W⦄ (services : Services W) where
  -- A part that is joined in only when it is not empty.
  abbrev part : String → List String
  part t = if is_empty_text t then [] else t ∷ []

  pub describe_item : ServiceItem W → String
  unfolding row_to_text
  describe_item item = join " — " (
      item.name
      ∷ (part (or_else item.description "")
          ++ (if is_empty_text (or_else item.category "")
              then []
              else f_string ("[" ∷ or_else item.category "" ∷ "]" ∷ []) ∷ [])
          ++ part (row_to_text services.json services.pydantic item.raw_data)))

  abbrev pub to_item : String → ServiceItem W → String → List W → Item W
  to_item tenant_id item description embedding = record {
    service = item.name;
    price = item.price;
    price_type = price_type_value item.price_type;
    description = some description;
    embedding = embedding;
    metadata = some (
        ("category", text (or_else item.category ""))
        ∷ ("currency", text item.currency)
        ∷ ("unit", text (or_else item.unit ""))
        ∷ ("tenant_id", text tenant_id)
        ∷ ("ingested_at", text item.ingested_at)
        ∷ ("id", text item.id)
        ∷ ("raw_data", object (to_entries item.raw_data))
        ∷ []);
  }

  -- `embeddings[idx]` raises where the batch is too short.
  pub pair_items : String → List (ServiceItem W) → List (List W) → Answer (List (Item W))
  unfolding describe_item
  pair_items tenant_id [] embeddings = ok []
  pair_items tenant_id (item ∷ items) [] =
      raised (record { kind = other "IndexError"; message = "list index out of range" })
  pair_items tenant_id (item ∷ items) (v ∷ vs) = pair_items tenant_id items vs >>= λ rest.
      ok (to_item tenant_id item (describe_item item) v ∷ rest)

  -- `except EmbeddingError`
  abbrev pub as_runtime_error : String → ℕ → Answer (List (List W)) → Answer (List (List W))
  as_runtime_error tenant_id n (ok vs) = ok vs
  as_runtime_error tenant_id n (raised exc) =
      if is_embedding_error exc.kind
      then raised (record {
        kind = runtime_error;
        message = f_string (
            "Embedding batch fallito durante l'ingestion [tenant='"
            ∷ tenant_id
            ∷ "', items="
            ∷ show n
            ∷ "]: "
            ∷ exc.message
            ∷ []);
      })
      else raised exc

  -- The call with items: the rows that it writes, before the transaction.
  pub prepare_items : Settings W → String → List (ServiceItem W) → Answer (List (Item W))
  unfolding pair_items describe_item
  prepare_items settings tenant_id items = do
    embeddings ←
        as_runtime_error tenant_id (length items)
          (aembed_documents settings services.embeddings tenant_id (map describe_item items))
    pair_items tenant_id items embeddings

  -- The table after the call, and the number of rows that it returns.
  pub write_to_pgvector :
      Settings W → String → List (ServiceItem W) → Table W → Answer (Table W × ℕ)
  unfolding prepare_items upsert_items
  write_to_pgvector settings tenant_id [] table = ok (table, 0)
  write_to_pgvector settings tenant_id (item ∷ items) table = do
    rows ← prepare_items settings tenant_id (item ∷ items)
    _ ← services.commit
    ok ((upsert_items rows tenant_id table).0, length rows)

  -- `seen.setdefault(item.id, item)`, in order of first occurrence.
  pub unique_items : List String → List (ServiceItem W) → List (ServiceItem W)
  unique_items seen [] = []
  unique_items seen (item ∷ items) =
      let again = unique_items seen items in
      let first = unique_items (item.id ∷ seen) items in
      if any (str_eq item.id) seen then again else item ∷ first

  pub after_write : IngestionState W → Table W → Answer (Table W × ℕ) → IngestionState W × Table W
  after_write state table (ok (table', written)) = (
    record state {
      sse_logs =
          state.sse_logs
          ++ f_string (
              "[FINALIZER] tenant="
              ∷ state.tenant_id
              ∷ " | written="
              ∷ show written
              ∷ " | table=catalogue_items | status=OK"
              ∷ [])
            ∷ [];
      error = none;
    },
    table',
  )
  after_write state table (raised exc) =
      let error_msg = f_string (
        "[finalizer] pgvector write failed for tenant="
        ∷ state.tenant_id
        ∷ ": ["
        ∷ type_name exc.kind
        ∷ "] "
        ∷ exc.message
        ∷ []) in
      (
        record state {
          sse_logs =
              state.sse_logs
              ++ f_string ("[ERROR] " ∷ error_msg ∷ [])
                ∷ map (λ line. f_string ("[ERROR] " ∷ line ∷ [])) (services.traceback exc);
          error = some error_msg;
        },
        table,
      )

  unfoldable pub finalizer_node :
      Settings W → IngestionState W → Table W → IngestionState W × Table W
  unfolding after_write unique_items write_to_pgvector
  finalizer_node settings state table =
      after_write state table
        (write_to_pgvector settings state.tenant_id (unique_items [] state.normalized_items) table)
