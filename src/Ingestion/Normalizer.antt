-- ===== src/Ingestion/Normalizer.antt =====
-- backend/ingestion/graph.py: `_row_to_text`, `_build_normalizer_prompt` and
-- `_parse_normalizer_response`. The keys of a row are strings and its numbers are not NaN, so the copy
-- of the row that the code sanitizes is the row.
pub mod Coverage
use ai_lead_qualifier.Prelude.{
  ℕ, zero, suc, ◌+◌, String, Bool, true, false, Option, none, some, List, [], ◌∷◌, ◌&&◌, ◌||◌, not,
  or_else, is_empty, str_eq, if◌then◌else◌,
}
use ai_lead_qualifier.Float.{Float, float_eq}
use ai_lead_qualifier.Core.Text.{f_string, is_empty_text, strip, join, show, take_text}
use ai_lead_qualifier.Core.Json.{
  Json, null, boolean, number, text, array, object, no_more, element, end, entry, elements, entries,
  Dict, lookup, without,
}
use ai_lead_qualifier.Core.Exceptions.{
  Answer, ok, raised, Exc, Kind, validation_error, type_error, other, ◌>>=◌,
}
use ai_lead_qualifier.Agents.Extractor.{JsonLibrary, strip_fence, loads_reply}
use ai_lead_qualifier.Ingestion.Items.{ServiceItem, ItemFields, Pydantic, service_item}

-- `chunk[i] if i < len(chunk)`
abbrev pub get_elem? : {A : Type 0} → List A → ℕ → Option A
get_elem? [] i = none
get_elem? (x ∷ xs) zero = some x
get_elem? (x ∷ xs) (suc i) = get_elem? xs i

-- `except (ValidationError, TypeError)`
abbrev pub is_construction_error : Kind → Bool
is_construction_error validation_error = true
is_construction_error type_error = true
is_construction_error _ = false

abbrev pub name_candidates : List String
name_candidates =
    "name" ∷ "service" ∷ "nome" ∷ "nome_servizio" ∷ "titolo" ∷ "prodotto" ∷ "leistung"
    ∷ "description" ∷ "content" ∷ []

module _ {W : Type 0} ⦃fl : Float W⦄ (json : JsonLibrary W) (pydantic : Pydantic W) where
  abbrev is_none : Json W → Bool
  is_none null = true
  is_none _ = false

  -- `bool(v)`
  pub truthy : Json W → Bool
  truthy null = false
  truthy (boolean b) = b
  truthy (number x) = not (float_eq x (fl.literal 0))
  truthy (text s) = not (is_empty_text s)
  truthy (array no_more) = false
  truthy (array (element v vs)) = true
  truthy (object end) = false
  truthy (object (entry k v es)) = true

  abbrev row_lines : Dict (Json W) → List String
  row_lines [] = []
  row_lines ((k, v) ∷ row) =
      let rest = row_lines row in
      if not (is_none v) && not (is_empty_text (strip (json.str v)))
      then f_string (k ∷ ": " ∷ json.str v ∷ []) ∷ rest
      else rest

  unfoldable pub row_to_text : Dict (Json W) → String
  row_to_text row = join "\n" (row_lines row)

  -- `dumps` is that of a chunk.
  unfoldable pub build_normalizer_prompt :
      (List (Json W) → String) → List (Json W) → Option String → String
  build_normalizer_prompt dumps chunk feedback =
      let base = f_string ("Raw rows to normalise:\n\n" ∷ dumps chunk ∷ []) in
      if is_empty_text (or_else feedback "")
      then base
      else f_string (
          base
          ∷ "\n\nHuman reviewer feedback from previous attempt:\n"
          ∷ or_else feedback ""
          ∷ "\nPlease apply this feedback when re-normalising."
          ∷ [])

  -- The row beside the reply's entry; a row that is no dict has no `items`.
  pub raw_row : List (Json W) → ℕ → Answer (Dict (Json W))
  raw_row chunk i = elim (get_elem? chunk i) [
    | none ↦ ok []
    | some (object row) ↦ ok (entries row)
    | some _ ↦
        raised
          (record { kind = other "AttributeError"; message = "object has no attribute 'items'" })
  ]

  -- The first of the keys whose value counts as true.
  pub first_named : List String → Dict (Json W) → Option String
  first_named [] row = none
  first_named (k ∷ ks) row =
      let rest = first_named ks row in
      let v = or_else (lookup k row) null in if truthy v then some (json.str v) else rest

  pub first_value : Dict (Json W) → Option String
  first_value [] = none
  first_value ((k, v) ∷ row) =
      let rest = first_value row in
      if truthy v && not (is_empty_text (strip (json.str v))) then some (json.str v) else rest

  pub name_fallback : Dict (Json W) → ℕ → String
  unfolding first_named first_value
  name_fallback row i =
      or_else (first_named name_candidates row)
        (or_else (first_value row) (f_string ("UNKNOWN_ROW_" ∷ show i ∷ [])))

  -- The placeholder of an entry that makes no item.
  pub placeholder : ℕ → Dict (Json W) → Exc → ItemFields W
  unfolding row_to_text
  placeholder i row exc = record {
    id = none;
    name = take_text 200 (name_fallback row i);
    description = some (row_to_text row);
    category = none;
    price = some (some (fl.literal 0));
    price_type = none;
    currency = none;
    unit = none;
    confidence = some (fl.literal 0);
    flagged = true;
    flag_reason = some (f_string ("Construction error: " ∷ exc.message ∷ []));
    ingested_at = none;
  }

  -- A key `raw_data` of the entry is a second argument of that name.
  pub construct : ℕ → String → Dict (Json W) → Dict (Json W) → Answer (ServiceItem W)
  construct i tenant_id row given = elim (lookup "raw_data" given) [
    | some v ↦ raised (record {
      kind = type_error;
      message = "ServiceItem() got multiple values for keyword argument 'raw_data'";
    })
    | none ↦ pydantic.coerce (without "tenant_id" given) >>= λ fields.
        service_item pydantic i tenant_id row fields
  ]

  abbrev pub or_placeholder :
      ℕ → String → Dict (Json W) → Answer (ServiceItem W) → Answer (ServiceItem W)
  or_placeholder i tenant_id row (ok item) = ok item
  or_placeholder i tenant_id row (raised exc) =
      if is_construction_error exc.kind
      then service_item pydantic i tenant_id row (placeholder i row exc)
      else raised exc

  -- The body of the loop for a dict entry.
  pub normalize_entry : List (Json W) → String → ℕ → Dict (Json W) → Answer (ServiceItem W)
  unfolding raw_row placeholder construct
  normalize_entry chunk tenant_id i given = do
    row ← raw_row chunk i
    or_placeholder i tenant_id row (construct i tenant_id row given)

  pub normalize_entries : List (Json W) → String → ℕ → List (Json W) → Answer (List (ServiceItem W))
  unfolding normalize_entry
  normalize_entries chunk tenant_id i [] = ok []
  normalize_entries chunk tenant_id i (object given ∷ es) = do
    item ← normalize_entry chunk tenant_id i (entries given)
    items ← normalize_entries chunk tenant_id (suc i) es
    ok (item ∷ items)
  normalize_entries chunk tenant_id i (_ ∷ es) = normalize_entries chunk tenant_id (suc i) es

  -- What the reply holds, if it is a list.
  pub reply_entries : String → List (Json W)
  reply_entries raw = elim (loads_reply json (strip_fence raw)) [
    | some (array vs) ↦ elements vs
    | some _ ↦ []
    | none ↦ []
  ]

  unfoldable pub parse_normalizer_response :
      String → List (Json W) → String → Answer (List (ServiceItem W))
  unfolding normalize_entries reply_entries
  parse_normalizer_response raw chunk tenant_id =
      normalize_entries chunk tenant_id 0 (reply_entries raw)
