-- ===== src/Ingestion/Nodes.antt =====
-- backend/ingestion/graph.py: the chunker and the normalizer.
pub mod Steps
pub mod Logs
pub mod Reading
use ai_lead_qualifier.Prelude.{
  ℕ, ◌+◌, String, Bool, true, false, Option, none, some, List, [], ◌∷◌, ◌++◌, ◌&&◌, ◌||◌, not,
  or_else, ltb, any, is_empty, length, str_eq, if◌then◌else◌,
}
use ai_lead_qualifier.Float.{Float, float_eq}
use ai_lead_qualifier.Core.Text.{f_string, is_empty_text, strip, join, show, take_text, text_length}
use ai_lead_qualifier.Core.Json.{Json, array, object, elements, entries, Dict, lookup}
use ai_lead_qualifier.Core.Exceptions.{Answer, ok, raised, Exc, ◌>>=◌}
use ai_lead_qualifier.Core.Config.{Settings}
use ai_lead_qualifier.Ingestion.State.{IngestionState, Services}
use ai_lead_qualifier.Ingestion.Items.{ServiceItem}
use ai_lead_qualifier.Ingestion.Validator.{sum_confidence}
use ai_lead_qualifier.Ingestion.Chunks.{split_chunks}
use ai_lead_qualifier.Ingestion.Normalizer.{
  get_elem?, build_normalizer_prompt, parse_normalizer_response,
}

abbrev wrapper_keys : List String
wrapper_keys = "items" ∷ "data" ∷ "services" ∷ "catalogue" ∷ "records" ∷ []

-- `_NORMALIZER_SYSTEM_PROMPT`
abbrev pub normalizer_system_prompt : String
normalizer_system_prompt =
    "You are a B2B data normalisation agent.  Your job is to map raw service catalogue\nrows — which may have ANY column names, in ANY language — to a canonical JSON schema.\n\nThe source data may use column names like \"nome_servizio\", \"costo\", \"note\",\n\"Leistungsname\", \"tarif\", \"prix_unitaire\", \"descripcion\", or anything else.\nMap them semantically to the target schema based on meaning, not exact key names.\n\nTarget schema for each item (return a JSON array of these objects):\n{\n  \"name\":        string  — required; best available service name (use any name-like column)\n  \"description\": string  — optional; combine description, note, or comment-like columns\n  \"category\":    string  — optional; service category or product line if present\n  \"price\":       number  — optional; unit price >= 0.  Set to 0.0 if unknown or not found.\n  \"currency\":    string  — ISO 4217 code, default \"EUR\".  Infer from symbol if present.\n  \"unit\":        string  — optional; billing unit: \"hour\"|\"month\"|\"year\"|\"project\"|\"license\"|\"user\"|\"one-time\"\n  \"confidence\":  number  — your confidence in this mapping, between 0.0 and 1.0\n}\n\nRules:\n- Return ONLY a valid JSON array.  No markdown, no commentary.\n- ALL fields except \"name\" are optional — use null if the column is absent or ambiguous.\n- For \"name\": if no clear name column exists, use the first non-empty column value.\n- For \"price\": use 0.0 (not null) when the price cannot be determined; set confidence <= 0.6.\n- Negative prices are invalid; use 0.0 and set confidence <= 0.5.\n- Preserve the original currency symbol if present (€ → EUR, $ → USD, £ → GBP).\n- If a row has only a \"content\" key (PDF page), treat the full text as the description\n  and extract name/price from it semantically."

module _ {W : Type 0} ⦃fl : Float W⦄ (services : Services W) where
  abbrev wrapped_list : List String → Dict (Json W) → Option (List (Json W))
  wrapped_list [] given = none
  wrapped_list (k ∷ ks) given = elim (lookup k given) [
    | some (array vs) ↦ some (elements vs)
    | some _ ↦ wrapped_list ks given
    | none ↦ wrapped_list ks given
  ]

  -- `_read_json`
  pub read_json : String → Answer (List (Json W))
  read_json content = services.decode content >>= λ decoded. elim (services.json.loads decoded) [
    | some (array vs) ↦ ok (elements vs)
    | some (object es) ↦ elim (wrapped_list wrapper_keys (entries es)) [
      | some rows ↦ ok rows
      | none ↦ raised (services.json_failure content)
    ]
    | some _ ↦ raised (services.json_failure content)
    | none ↦ raised (services.json_failure content)
  ]

  -- `readers[file_format]`
  unfoldable pub reader : String → Option (String → Answer (List (Json W)))
  unfolding read_json
  reader file_format =
      if str_eq file_format "csv"
      then some services.read_csv
      else if str_eq file_format "json"
      then some read_json
      else if str_eq file_format "xlsx"
      then some services.read_xlsx
      else if str_eq file_format "pdf"
      then some services.read_pdf
      else none

  pub chunker_failure : IngestionState W → String → IngestionState W
  chunker_failure state error_msg = record state {
    raw_chunks = [];
    sse_logs = state.sse_logs ++ f_string ("[ERROR] " ∷ error_msg ∷ []) ∷ [];
    error = some error_msg;
  }

  -- The appended fields keep what they hold; `review_feedback` is left alone.
  pub with_chunks : Settings W → IngestionState W → List (Json W) → IngestionState W
  with_chunks settings state rows =
      let chunks = split_chunks rows settings.ingestion_chunk_size in
      record state {
        raw_chunks = chunks;
        current_chunk_index = 0;
        flagged_items = [];
        confidence_score = fl.literal 0;
        approved = none;
        error = none;
        sse_logs =
            state.sse_logs
            ++ f_string (
                "[CHUNKER] tenant="
                ∷ state.tenant_id
                ∷ " | object_key="
                ∷ state.source_file
                ∷ " | rows="
                ∷ show (length rows)
                ∷ " | chunks="
                ∷ show (length chunks)
                ∷ " | chunk_size="
                ∷ show settings.ingestion_chunk_size
                ∷ [])
              ∷ [];
      }

  -- Both `try` blocks: the download, then the reader.
  pub after_read :
      Settings W
      → IngestionState W
      → Answer String
      → (String → Answer (List (Json W)))
      → IngestionState W
  after_read settings state (raised exc) read = chunker_failure state (
      f_string
        ("[chunker] S3 download failed for key '" ∷ state.source_file ∷ "': " ∷ exc.message ∷ []))
  after_read settings state (ok content) read = elim (read content) [
    | ok rows ↦ with_chunks settings state rows
    | raised exc ↦ chunker_failure state (
        f_string (
          "[chunker] Failed to parse '" ∷ state.source_file ∷ "' as " ∷ state.file_format ∷ ": "
          ∷ exc.message ∷ []))
  ]

  unfoldable pub chunker_node : Settings W → IngestionState W → IngestionState W
  unfolding chunker_failure with_chunks after_read reader
  chunker_node settings state = elim (reader state.file_format) [
    | none ↦ chunker_failure state (
        f_string (
          "[chunker] Unsupported format '" ∷ state.file_format ∷ "'. Use csv | json | xlsx | pdf."
          ∷ []))
    | some read ↦ after_read settings state (services.download_file state.source_file) read
  ]

  -- The average as the log line shows it.
  abbrev average : List (ServiceItem W) → W
  average items = fl.div (sum_confidence (fl.literal 0) items) (fl.of_nat (length items))

  pub with_items : IngestionState W → List (ServiceItem W) → IngestionState W
  with_items state items = record state {
    current_chunk_index = state.current_chunk_index + 1;
    normalized_items = state.normalized_items ++ items;
    sse_logs =
        state.sse_logs
        ++ (if is_empty items
            then "n/a"
            else f_string (
                "[NORMALIZER] tenant="
                ∷ state.tenant_id
                ∷ " | chunk "
                ∷ show (state.current_chunk_index + 1)
                ∷ "/"
                ∷ show (length state.raw_chunks)
                ∷ " | items="
                ∷ show (length items)
                ∷ " | avg_confidence="
                ∷ fl.format (average items)
                ∷ []))
          ∷ [];
    error = none;
  }

  pub normalizer_failure : IngestionState W → Exc → IngestionState W
  normalizer_failure state exc =
      let error_msg = f_string (
        "[normalizer] LLM call failed (chunk "
        ∷ show state.current_chunk_index
        ∷ "): "
        ∷ exc.message
        ∷ []) in
      record state {
        current_chunk_index = state.current_chunk_index + 1;
        sse_logs = state.sse_logs ++ f_string ("[ERROR] " ∷ error_msg ∷ []) ∷ [];
        error = some error_msg;
      }

  -- Only the call is in the `try`; what parsing raises leaves the node.
  pub after_reply : IngestionState W → List (Json W) → Answer String → Answer (IngestionState W)
  unfolding with_items normalizer_failure
  after_reply state chunk (raised exc) = ok (normalizer_failure state exc)
  after_reply state chunk (ok raw_response) = do
    items ←
        parse_normalizer_response services.json services.pydantic raw_response chunk state.tenant_id
    ok (with_items state items)

  pub out_of_range : IngestionState W → IngestionState W
  out_of_range state = record state {
    current_chunk_index = state.current_chunk_index + 1;
    sse_logs =
        state.sse_logs
        ++ f_string (
            "[NORMALIZER] tenant="
            ∷ state.tenant_id
            ∷ " | chunk "
            ∷ show state.current_chunk_index
            ∷ " out of range — skipping"
            ∷ [])
          ∷ [];
  }

  unfoldable pub normalizer_node : IngestionState W → Answer (IngestionState W)
  unfolding after_reply out_of_range
  normalizer_node state = elim (get_elem? state.raw_chunks state.current_chunk_index) [
    | none ↦ ok (out_of_range state)
    | some chunk ↦ after_reply state chunk (
        services.call_openai_compatible normalizer_system_prompt (
          build_normalizer_prompt services.json services.pydantic services.dumps_chunk chunk
            state.review_feedback))
  ]
