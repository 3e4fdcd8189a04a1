-- ===== src/Agents/Extractor.antt =====
-- backend/agents/extractor.py. The LLM clients and Python's `json` are parameters; the fallbacks of
-- the response parser, the prompt and the handling of each failure are modelled.
pub mod Parsing
pub mod Retries
use ai_lead_qualifier.Prelude.{
  ℕ, zero, ◌+◌, String, Bool, true, false, Option, none, some, List, [], ◌∷◌, ◌==◌, ltb, is_empty,
  str_eq, starts_with, if◌then◌else◌, drop,
}
use ai_lead_qualifier.Core.Text.{
  f_string, is_empty_text, strip, splitlines, join, find_char, rfind_char, slice, show,
}
use ai_lead_qualifier.Core.Json.{Json, null, boolean, number, text, array, object, elements}
use ai_lead_qualifier.Core.Exceptions.{
  Answer, ok, raised, Exc, Kind, request_error, http_status_error, runtime_error,
}
use ai_lead_qualifier.Core.Config.{Settings}
use ai_lead_qualifier.Agents.State.{AgentState}

-- Python's `json.loads` (`none` is a JSONDecodeError), `json.dumps` of a list of texts, and `str` of
-- a value that `json.loads` made.
pub record JsonLibrary (W : Type 0) : Type 0 where
  pub loads : String → Option (Json W)
  pub dumps : List String → String
  pub str : Json W → String

-- The chat clients: an OpenAI-compatible server, Groq, and a local GGUF model.
pub record LlmClients : Type 0 where
  pub call_openai_compatible : String → String → Answer String
  pub call_groq : String → String → Answer String
  pub call_llama : String → String → Answer String

-- `_SYSTEM_PROMPT`
abbrev pub system_prompt : String
system_prompt =
    "You are a B2B sales assistant. Extract a JSON array of professional service names explicitly or implicitly requested in the following text. CRITICAL LANGUAGE RULE: YOU MUST PRESERVE THE ORIGINAL LANGUAGE OF THE REQUEST. If the user writes in Italian, extract service names IN ITALIAN. If the user writes in English, extract in English. NEVER translate. Return ONLY a valid JSON array of strings, no commentary, no markdown fences. Example (Italian input): [\"Sviluppo Web\", \"Manutenzione Server\", \"Migrazione Cloud\"] Example (English input): [\"Web Development\", \"SEO Audit\", \"Cloud Migration\"]"

-- `lines[:-1]`, and the test of `lines[-1]`.
pub without_last : List String → List String
without_last [] = []
without_last (l ∷ []) = []
without_last (l ∷ m ∷ ls) = l ∷ without_last (m ∷ ls)

pub ends_with_fence : List String → Bool
ends_with_fence [] = false
ends_with_fence (l ∷ []) = str_eq (strip l) "```"
ends_with_fence (l ∷ m ∷ ls) = ends_with_fence (m ∷ ls)

-- Both response parsers begin by taking a Markdown fence off.
unfoldable pub strip_fence : String → String
unfolding without_last ends_with_fence
strip_fence raw =
    let stripped = strip raw in
    let lines = splitlines stripped in
    let body = if ends_with_fence lines then drop 1 (without_last lines) else drop 1 lines in
    if starts_with stripped "```" then join "\n" body else stripped

module _ {W : Type 0} (json : JsonLibrary W) where
  unfoldable pub build_user_prompt : String → List String → String
  build_user_prompt sanitized_text previous_services =
      let base = f_string ("Lead request:\n\n" ∷ sanitized_text ∷ []) in
      if is_empty previous_services
      then base
      else f_string (
          base
          ∷ "\n\nPrevious extraction attempt returned the following services that could NOT be mapped to the price list: "
          ∷ json.dumps previous_services
          ∷ ". Please refine your extraction — use broader or alternative service names."
          ∷ [])

  -- The text from the first "[" up to the last "]", where the text as a whole is not JSON.
  pub loads_brackets : String → Option (Json W)
  loads_brackets t = elim (find_char b'[' t) [
    | none ↦ none
    | some start ↦ elim (rfind_char b']' t) [
      | none ↦ none
      | some last ↦ json.loads (slice t start (last + 1))
    ]
  ]

  -- `json.loads`, then the part in brackets; `none` is each `return []`.
  unfoldable pub loads_reply : String → Option (Json W)
  unfolding loads_brackets
  loads_reply t = elim (json.loads t) [ some parsed ↦ some parsed | none ↦ loads_brackets t ]

  -- `[str(item).strip() for item in parsed if str(item).strip()]`
  pub services_of : List (Json W) → List String
  services_of [] = []
  services_of (item ∷ items) =
      let rest = services_of items in
      let s = strip (json.str item) in if is_empty_text s then rest else s ∷ rest

  pub services_of_json : Option (Json W) → List String
  unfolding services_of
  services_of_json (some (array items)) = services_of (elements items)
  services_of_json (some _) = []
  services_of_json none = []

  unfoldable pub parse_services : String → List String
  unfolding services_of_json loads_reply
  parse_services raw_response = services_of_json (loads_reply (strip_fence raw_response))

  -- `_invoke_llm_blocking`, and the choice of the async client before it.
  unfoldable pub invoke_llm : Settings W → LlmClients → String → String → Answer String
  invoke_llm settings llm prompt_system prompt_user =
      if str_eq settings.llm_provider "openai"
      then llm.call_openai_compatible prompt_system prompt_user
      else if str_eq settings.llm_provider "groq"
      then llm.call_groq prompt_system prompt_user
      else llm.call_llama prompt_system prompt_user

  -- Whatever a client raises leaves the node as a RuntimeError.
  unfoldable pub llm_failure : Kind → String → String
  llm_failure request_error message = f_string ("LLM network error: " ∷ message ∷ [])
  llm_failure (http_status_error code) message =
      f_string ("LLM HTTP " ∷ show code ∷ ": " ∷ message ∷ [])
  llm_failure _ message = f_string ("LLM call failed: " ∷ message ∷ [])

  pub after_llm : AgentState W → Answer String → Answer (AgentState W)
  after_llm state (raised exc) =
      raised (record { kind = runtime_error; message = llm_failure exc.kind exc.message })
  after_llm state (ok raw_response) =
      let services = parse_services raw_response in
      ok (record state {
        extracted_services = services;
        retry_count = state.retry_count + 1;
        error_detail =
            if is_empty services
            then some "LLM response parsed but no services extracted"
            else none;
      })

  unfoldable pub extractor_node : Settings W → LlmClients → AgentState W → Answer (AgentState W)
  unfolding after_llm
  extractor_node settings llm state =
      let previous = if ltb 0 state.retry_count then state.extracted_services else [] in
      let user_prompt = build_user_prompt state.sanitized_text previous in
      if is_empty_text state.sanitized_text
      then ok
          (record state { extracted_services = []; error_detail = some "sanitized_text is empty" })
      else after_llm state (invoke_llm settings llm system_prompt user_prompt)
