-- ===== src/Ingestion/Validator.antt =====
-- backend/ingestion/graph.py: the validator, and both halves of the approval node.
use ai_lead_qualifier.Prelude.{
  ℕ, String, Bool, true, false, Option, none, some, List, [], ◌∷◌, ◌++◌, ◌&&◌, not, or_else, ltb,
  any, is_empty, length, str_eq, if◌then◌else◌, map,
}
use ai_lead_qualifier.Float.{Float, float_eq}
use ai_lead_qualifier.Core.Text.{f_string, is_empty_text, strip, join, show, take_text, text_length}
use ai_lead_qualifier.Core.Json.{Json, Dict}
use ai_lead_qualifier.Ingestion.State.{IngestionState}
use ai_lead_qualifier.Ingestion.Items.{ServiceItem}

abbrev known_units : List String
known_units = "hour" ∷ "month" ∷ "project" ∷ "license" ∷ "user" ∷ "day" ∷ "year" ∷ "one-time" ∷ []

-- The item of the review payload.
pub record FlaggedItem (W : Type 0) : Type 0 where
  pub id : String
  pub name : String
  pub price : Option W
  pub currency : String
  pub flag_reason : Option String
  pub raw_data : Dict (Json W)

pub record ReviewPayload (W : Type 0) : Type 0 where
  pub tenant_id : String
  pub source_file : String
  pub confidence_score : W
  pub total_items : ℕ
  pub flagged_count : ℕ
  pub flagged_items : List (FlaggedItem W)
  pub validation_errors : List String

-- The decision that resumes the run, as `decision.get` reads it.
pub record Decision : Type 0 where
  pub approved : Bool
  pub feedback : Option String

-- One rule's message, if it is broken.
abbrev rule : Bool → String → List String
rule true message = message ∷ []
rule false message = []

-- `decision.get("feedback") or None`
abbrev feedback_of : Option String → Option String
feedback_of none = none
feedback_of (some f) = if is_empty_text f then none else some f

module _ {W : Type 0} ⦃fl : Float W⦄ where
  pub is_free : Option W → Bool
  is_free none = false
  is_free (some p) = float_eq p (fl.literal 0)

  pub item_errors : ServiceItem W → List String
  unfolding is_free
  item_errors item =
      rule (is_free item.price && is_empty_text (or_else item.description ""))
        "zero price with no description"
      ++ rule (ltb (text_length (strip item.name)) 3)
          (f_string ("name too short: '" ∷ item.name ∷ "'" ∷ []))
      ++ rule
          (not (is_empty_text (or_else item.unit ""))
            && not (any (str_eq (or_else item.unit "")) known_units))
          (f_string ("unrecognised unit: '" ∷ or_else item.unit "" ∷ "'" ∷ []))

  -- The copy with the updated flag fields, where a rule is broken.
  pub validated_item : ServiceItem W → ServiceItem W
  unfolding item_errors
  validated_item item =
      if is_empty (item_errors item)
      then item
      else record item { flagged = true; flag_reason = some (join "; " (item_errors item)) }

  pub item_message : ServiceItem W → String
  unfolding item_errors
  item_message item =
      f_string
        ("[" ∷ take_text 8 item.id ∷ "] " ∷ item.name ∷ ": " ∷ join "; " (item_errors item) ∷ [])

  pub flagged_of : List (ServiceItem W) → List (ServiceItem W)
  unfolding validated_item
  flagged_of [] = []
  flagged_of (item ∷ items) =
      let rest = flagged_of items in
      if (validated_item item).flagged then validated_item item ∷ rest else rest

  pub errors_of : List (ServiceItem W) → List String
  unfolding item_errors item_message
  errors_of [] = []
  errors_of (item ∷ items) =
      let rest = errors_of items in
      if is_empty (item_errors item) then rest else item_message item ∷ rest

  pub sum_confidence : W → List (ServiceItem W) → W
  sum_confidence acc [] = acc
  sum_confidence acc (item ∷ items) = sum_confidence (fl.add acc item.confidence) items

  -- The copies keep their confidence, so the average is that of the items.
  pub average_confidence : List (ServiceItem W) → W
  unfolding sum_confidence
  average_confidence items =
      if is_empty items
      then fl.literal 0
      else fl.div (sum_confidence (fl.literal 0) items) (fl.of_nat (length items))

  unfoldable pub validator_node : IngestionState W → IngestionState W
  unfolding flagged_of errors_of average_confidence
  validator_node state =
      let items = state.normalized_items in
      record state {
        validation_errors = state.validation_errors ++ errors_of items;
        flagged_items = flagged_of items;
        confidence_score = fl.round 4 (average_confidence items);
        sse_logs =
            state.sse_logs
            ++ f_string (
                "[VALIDATOR] tenant="
                ∷ state.tenant_id
                ∷ " | total="
                ∷ show (length items)
                ∷ " | flagged="
                ∷ show (length (flagged_of items))
                ∷ " | errors="
                ∷ show (length (errors_of items))
                ∷ " | avg_confidence="
                ∷ fl.format (average_confidence items)
                ∷ [])
              ∷ [];
        error = none;
      }

  abbrev to_flagged : ServiceItem W → FlaggedItem W
  to_flagged item = record {
    id = item.id;
    name = item.name;
    price = item.price;
    currency = item.currency;
    flag_reason = item.flag_reason;
    raw_data = item.raw_data;
  }

  -- The payload that `approval_node` hands to `interrupt`.
  pub review_payload : IngestionState W → ReviewPayload W
  review_payload state = record {
    tenant_id = state.tenant_id;
    source_file = state.source_file;
    confidence_score = state.confidence_score;
    total_items = length state.normalized_items;
    flagged_count = length state.flagged_items;
    flagged_items = map to_flagged state.flagged_items;
    validation_errors = state.validation_errors;
  }

  -- The rest of `approval_node`, after the run was resumed; `repr` is Python's.
  unfoldable pub approval_node :
      (Option String → String) → Decision → IngestionState W → IngestionState W
  approval_node repr decision state = record state {
    approved = some decision.approved;
    review_feedback = feedback_of decision.feedback;
    sse_logs =
        state.sse_logs
        ++ f_string (
            "[APPROVAL] tenant="
            ∷ state.tenant_id
            ∷ " | SUSPENDED for human review | flagged="
            ∷ show (length state.flagged_items)
            ∷ " | confidence="
            ∷ fl.format state.confidence_score
            ∷ [])
          ∷ f_string (
              "[APPROVAL] tenant="
              ∷ state.tenant_id
              ∷ " | RESUMED | decision="
              ∷ (if decision.approved then "APPROVED" else "REJECTED")
              ∷ " | feedback="
              ∷ repr (feedback_of decision.feedback)
              ∷ [])
          ∷ [];
    error = none;
  }
