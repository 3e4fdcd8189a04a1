-- ===== src/Ingestion/Fixtures.antt =====
-- The answers from outside that the tests of ingestion run on: a file of three rows that a model reads
-- as one service.
use ai_lead_qualifier.Prelude.{false, none, some, [], ◌∷◌, str_eq, if◌then◌else◌}
use ai_lead_qualifier.Float.{Fixed, fixed_float}
use ai_lead_qualifier.Core.Json.{Json, text, array, object, no_more, element, end, entry}
use ai_lead_qualifier.Core.Exceptions.{ok, other}
use ai_lead_qualifier.Agents.Extractor.{JsonLibrary}
use ai_lead_qualifier.Agents.Fixtures.{embeddings}
use ai_lead_qualifier.Ingestion.State.{IngestionState, Services, make_initial_state}
use ai_lead_qualifier.Ingestion.Items.{ItemFields, Pydantic}

abbrev pub fields : ItemFields Fixed
fields = record {
  id = some "id-1";
  name = "Logo";
  description = none;
  category = none;
  price = some (some 500000);
  price_type = none;
  currency = none;
  unit = none;
  confidence = some 9000;
  flagged = false;
  flag_reason = none;
  ingested_at = none;
}

abbrev pub pydantic : Pydantic Fixed
pydantic = record {
  coerce = λ d. ok fields;
  describe = λ m. m;
  upper = λ t. t;
  lower = λ t. t;
  uuid4 = λ i. "id-0";
  now = λ i. "2026-01-01T00:00:00";
}

abbrev pub row : Json Fixed
row = object (entry "nome" (text "Logo") end)

abbrev pub json : JsonLibrary Fixed
json = record {
  loads = λ t.
      if str_eq t "[{}]"
      then some (array (element (object (entry "name" (text "Logo") end)) no_more))
      else none;
  dumps = λ ts. "[]";
  str = λ v. "Logo";
}

abbrev pub services : Services Fixed
services = record {
  download_file = λ key. ok "nome\nLogo";
  read_csv = λ content. ok (row ∷ row ∷ row ∷ []);
  read_xlsx = λ content. ok [];
  read_pdf = λ content. ok [];
  json = json;
  dumps_chunk = λ chunk. "[]";
  json_failure = λ content. record { kind = other "JSONDecodeError"; message = "no JSON" };
  decode = λ content. ok content;
  call_openai_compatible = λ s u. ok "[{}]";
  embeddings = embeddings;
  pydantic = pydantic;
  commit = ok tt;
  traceback = λ exc. [];
}

abbrev pub start : IngestionState Fixed
start = make_initial_state "acme" "acme/1.csv" "csv" none
