-- ===== src/Agents/Fixtures.antt =====
-- A lead, settings and answers from outside that the tests run on: a request for one service, which
-- stands in the catalogue at 100 €, and a second one that has no price.
use ai_lead_qualifier.Prelude.{String, true, none, some, List, [], ◌∷◌, str_eq, if◌then◌else◌}
use ai_lead_qualifier.Float.{Fixed, fixed_float}
use ai_lead_qualifier.Core.Json.{Json, text, array, no_more, element}
use ai_lead_qualifier.Core.Exceptions.{ok, raised, other}
use ai_lead_qualifier.Core.Config.{Settings}
use ai_lead_qualifier.Database.Catalogue.{Row, Table}
use ai_lead_qualifier.Database.Documents.{Match, Fetch}
use ai_lead_qualifier.Services.Embeddings.{EmbeddingClient}
use ai_lead_qualifier.Agents.State.{LeadContext, AgentState, MappedService, Status, DeliveryStatus}
use ai_lead_qualifier.Agents.Sanitizer.{PiiPattern, email, Regex}
use ai_lead_qualifier.Agents.Extractor.{JsonLibrary, LlmClients}

abbrev pub settings : Settings Fixed
settings = record {
  llm_provider = "openai";
  embedding_model = "nomic-embed-text";
  pgvector_embedding_dim = 2;
  pgvector_n_results = 3;
  ingestion_chunk_size = 10;
  max_retry_count = 2;
  mapper_max_distance = 5000;
  evaluator_threshold = 5500;
  delivery_max_attempts = 3;
  pii_mask_token = "[REDACTED]";
  upload_max_bytes = 1000;
  profile_max_bytes = 1000;
  token_endpoint_enabled = true;
}

abbrev pub lead : LeadContext
lead = record {
  lead_id = "lead-1";
  tenant_id = "acme";
  raw_payload = ("text", "Vorrei un sito web") ∷ [];
  metadata = [];
}

abbrev pub fresh_state : AgentState Fixed
fresh_state = record {
  lead = lead;
  messages = [];
  retrieved_docs = [];
  confidence_score = 0;
  human_approved = none;
  review_feedback = none;
  status = Status.queued;
  error_detail = none;
  sanitized_text = "";
  extracted_services = [];
  mapped_services = [];
  total_quote = 0;
  on_request_services = [];
  retry_count = 0;
  delivery_status = DeliveryStatus.pending;
  delivery_attempts = 0;
  delivery_error = none;
}

-- Only the e-mail pattern matches, and only one text.
abbrev find_email : PiiPattern → String → List String
find_email email t = if str_eq t "mario@acme.it" then t ∷ [] else []
find_email _ t = []

abbrev pub regex : Regex
regex = record { findall = find_email; sub = λ p mask t. ok mask }

abbrev str_of : Json Fixed → String
str_of (text t) = t
str_of _ = "other"

abbrev pub json : JsonLibrary Fixed
json = record {
  loads = λ t.
      if str_eq t "[\"Sito Web\"]"
      then some (array (element (text " Sito Web ") no_more))
      else none;
  dumps = λ ts. "[]";
  str = str_of;
}

abbrev pub llm : LlmClients
llm = record {
  call_openai_compatible = λ s u. ok "[\"Sito Web\"]";
  call_groq = λ s u. ok "[]";
  call_llama = λ s u. raised (record { kind = other "OSError"; message = "no model" });
}

abbrev pub embeddings : EmbeddingClient Fixed
embeddings = record {
  aembed_query = λ t. ok (1 ∷ 2 ∷ []);
  aembed_documents = λ ts. ok ((1 ∷ 2 ∷ []) ∷ []);
}

abbrev row : String → Fixed → Match Fixed
row service distance = record {
  service = service;
  price = some 1000000;
  price_type = "FIXED";
  description = none;
  metadata = [];
  distance = distance;
}

abbrev pub fetch : Fetch Fixed
fetch v tenant limit = ok (row "Logo" 4000 ∷ row "Sito Web" 1000 ∷ row "Hosting" 9000 ∷ [])

-- Three rows of the tenant's and a nearer one of another; an embedding's distance is its first number.
abbrev catalogue_row : String → String → Fixed → Row Fixed
catalogue_row tenant_id service distance = record {
  tenant_id = tenant_id;
  service = service;
  price = some 1000000;
  price_type = "FIXED";
  description = "";
  embedding = distance ∷ [];
  metadata = [];
}

abbrev pub catalogue : Table Fixed
catalogue =
    catalogue_row "acme" "Logo" 4000
    ∷ catalogue_row "other" "Logo" 500
    ∷ catalogue_row "acme" "Sito Web" 1000
    ∷ catalogue_row "acme" "Hosting" 9000
    ∷ []

abbrev pub distance : List Fixed → List Fixed → Fixed
distance [] v = 0
distance (d ∷ ds) v = d

abbrev pub web_site : MappedService Fixed
web_site = record {
  service = "Sito Web";
  matched_name = "Sito Web";
  price = some 1000000;
  unit = text "€";
  price_type = "FIXED";
  distance = 1000;
  query = "Sito Web";
}

abbrev pub consulting : MappedService Fixed
consulting = record web_site {
  service = "Consulenza";
  matched_name = "Consulenza";
  price = none;
  price_type = "VARIABLE";
}

abbrev pub quoted_state : AgentState Fixed
quoted_state = record fresh_state {
  sanitized_text = "Vorrei un sito web";
  extracted_services = "Sito Web" ∷ "Consulenza" ∷ [];
  mapped_services = web_site ∷ consulting ∷ [];
}
