-- ===== src/Ingestion/State.antt =====
-- backend/ingestion/models.py: IngestionState. The fields that the source annotates with
-- `operator.add` are appended to by the nodes, the others replaced.
use ai_lead_qualifier.Prelude.{ℕ, String, Bool, Option, none, List, []}
use ai_lead_qualifier.Float.{Float}
use ai_lead_qualifier.Core.Json.{Json}
use ai_lead_qualifier.Core.Exceptions.{Answer, Exc}
use ai_lead_qualifier.Services.Embeddings.{EmbeddingClient}
use ai_lead_qualifier.Agents.Extractor.{JsonLibrary}
use ai_lead_qualifier.Ingestion.Items.{ServiceItem, Pydantic}

pub record IngestionState (W : Type 0) : Type 0 where
  pub tenant_id : String
  pub source_file : String
  pub file_format : String
  pub raw_chunks : List (List (Json W))
  pub current_chunk_index : ℕ
  pub normalized_items : List (ServiceItem W)
  pub validation_errors : List String
  pub flagged_items : List (ServiceItem W)
  pub confidence_score : W
  pub approved : Option Bool
  pub review_feedback : Option String
  pub sse_logs : List String
  pub error : Option String

unfoldable pub make_initial_state :
    {W : Type 0} ⦃fl : Float W⦄ → String → String → String → Option String → IngestionState W
make_initial_state ⦃fl⦄ tenant_id source_file file_format review_feedback = record {
  tenant_id = tenant_id;
  source_file = source_file;
  file_format = file_format;
  raw_chunks = [];
  current_chunk_index = 0;
  normalized_items = [];
  validation_errors = [];
  flagged_items = [];
  confidence_score = fl.literal 0;
  approved = none;
  review_feedback = review_feedback;
  sse_logs = [];
  error = none;
}

-- What a superstep calls outside the program: the object store, the CSV, Excel and PDF libraries, JSON
-- with `json.dumps` of a chunk and what reading a value that is no container raises, the language
-- model, the embedding client, Pydantic, and the database's answer to a write.
pub record Services (W : Type 0) : Type 0 where
  pub download_file : String → Answer String
  pub read_csv : String → Answer (List (Json W))
  pub read_xlsx : String → Answer (List (Json W))
  pub read_pdf : String → Answer (List (Json W))
  pub json : JsonLibrary W
  pub dumps_chunk : List (Json W) → String
  pub json_failure : String → Exc
  -- `content.decode("utf-8")`
  pub decode : String → Answer String
  pub call_openai_compatible : String → String → Answer String
  pub embeddings : EmbeddingClient W
  pub pydantic : Pydantic W
  pub commit : Answer (Unit {0})
  pub traceback : Exc → List String
