-- ===== src/Worker.antt =====
-- backend/worker/tasks.py: the tasks on the catalogue. The tasks that run leads are in Leads.antt.
pub mod Embedding
pub mod History
mod Tests
use ai_lead_qualifier.Prelude.{
  ℕ, String, Bool, Option, none, some, List, [], ◌∷◌, or_else, if◌then◌else◌,
}
use ai_lead_qualifier.Float.{Float}
use ai_lead_qualifier.Core.Json.{Json, text, Dict, insert}
use ai_lead_qualifier.Core.Exceptions.{Answer, ok, raised, Exc, other, ◌>>=◌}
use ai_lead_qualifier.Core.Config.{Settings}
use ai_lead_qualifier.Database.Catalogue.{Row, Table}
use ai_lead_qualifier.Services.Embeddings.{EmbeddingClient, aembed_documents}
use ai_lead_qualifier.Agents.Extractor.{JsonLibrary}
use ai_lead_qualifier.Ingestion.Items.{Pydantic}
use ai_lead_qualifier.Ingestion.Normalizer.{row_to_text}
use ai_lead_qualifier.Ingestion.State.{IngestionState, Services, make_initial_state}
use ai_lead_qualifier.Ingestion.Pipeline.{Outcome, finished, suspended, crashed, ingest}
use ai_lead_qualifier.Api.Catalogue.{StoredRow, is_item, fetch_item, str_price}

-- `{**d, **more}`
abbrev merge : {V : Type 0} → Dict V → Dict V → Dict V
merge d [] = d
merge d ((k, v) ∷ more) = merge (insert k v d) more

module _ {W : Type 0} where
  -- `UPDATE catalogue_items SET embedding = $1 WHERE id = $2 AND tenant_id = $3`
  pub set_embedding : List W → String → String → List (StoredRow W) → List (StoredRow W)
  set_embedding v id tenant_id [] = []
  set_embedding v id tenant_id (stored ∷ items) =
      let rest = set_embedding v id tenant_id items in
      if is_item id tenant_id stored
      then record stored { row = record stored.row { embedding = v } } ∷ rest
      else stored ∷ rest

-- `vectors[0]`
abbrev first : {A : Type 0} → List A → Answer A
first [] = raised (record { kind = other "IndexError"; message = "list index out of range" })
first (a ∷ rest) = ok a

-- What the task meets outside the program: the libraries, the embedding client, asyncpg's reading of an
-- id, and the database's answer to the update.
pub record TaskCalls (W : Type 0) : Type 0 where
  pub json : JsonLibrary W
  pub pydantic : Pydantic W
  pub repr : W → String
  pub embeddings : EmbeddingClient W
  pub parse_uuid : String → Answer String
  pub execute : Answer (Unit {0})

module _ {W : Type 0} ⦃fl : Float W⦄ (settings : Settings W) (calls : TaskCalls W) where
  pub raw_row : Row W → Dict (Json W)
  unfolding insert
  raw_row row =
      merge
        (("service", text row.service)
          ∷ ("price", text (str_price calls.repr row.price))
          ∷ ("description", text row.description)
          ∷ [])
        row.metadata

  pub new_embedding : String → Row W → Answer (List W)
  unfolding raw_row
  new_embedding tenant_id row = do
    vectors ←
        aembed_documents settings calls.embeddings tenant_id
          (row_to_text calls.json calls.pydantic (raw_row row) ∷ [])
    first vectors

  pub embed_row :
      String → String → Option (Row W) → List (StoredRow W) → Answer (List (StoredRow W) × String)
  unfolding new_embedding set_embedding
  embed_row id tenant_id none items = ok (items, "not_found")
  embed_row id tenant_id (some row) items = do
    embedding ← new_embedding tenant_id row
    _ ← calls.execute
    ok (set_embedding embedding id tenant_id items, "updated")

  -- The table that the SELECT sees, and the one at the UPDATE. The table after the task, with the
  -- status that it returns; a task that raises has not reached the UPDATE, or the UPDATE failed.
  unfoldable pub update_embedding_task :
      String
      → String
      → List (StoredRow W)
      → List (StoredRow W)
      → Answer (List (StoredRow W) × String)
  unfolding embed_row fetch_item
  update_embedding_task item_id tenant_id seen items = do
    id ← calls.parse_uuid item_id
    embed_row id tenant_id (fetch_item id tenant_id seen) items

module _ {W : Type 0} ⦃fl : Float W⦄ where
  -- A run that waits for review has returned, too.
  after_ingest : Outcome W → Answer String
  after_ingest (finished state table) = ok "completed"
  after_ingest (suspended state table payload) = ok "completed"
  after_ingest (crashed exc state table) = raised exc

  unfoldable pub run_ingestion_task :
      Settings W
      → (ℕ → Services W)
      → ℕ
      → String
      → String
      → String
      → Option String
      → Table W
      → Outcome W × Answer String
  unfolding after_ingest ingest
  run_ingestion_task settings services recursion_limit tenant_id object_key file_format
        review_feedback table =
      let outcome =
        ingest settings services recursion_limit
          (make_initial_state tenant_id object_key file_format review_feedback) table in
      (outcome, after_ingest outcome)
