-- ===== src/Logging.antt =====
-- backend/core/logging_setup.py: the processors that every log event passes, on its dict, and the
-- context that nodes log of their state. The configuration of structlog is not part of the model.
pub mod Redaction
mod Tests
use ai_lead_qualifier.Prelude.{
  String, Bool, true, Option, none, some, List, [], ◌∷◌, ◌++◌, any, map, length, str_eq,
  if◌then◌else◌,
}
use ai_lead_qualifier.Float.{Float}
use ai_lead_qualifier.Core.Text.{f_string, is_empty_text}
use ai_lead_qualifier.Core.Json.{Json, boolean, number, text, Dict, keys, lookup, insert, without}
use ai_lead_qualifier.Agents.State.{AgentState, Status, DeliveryStatus}

-- `_PII_KEYS`
abbrev pub pii_keys : List String
pii_keys =
    "raw_text" ∷ "raw_payload" ∷ "messages" ∷ "retrieved_docs" ∷ "text" ∷ "email" ∷ "phone" ∷ "name"
    ∷ "address" ∷ []

unfoldable pub is_pii : String → Bool
is_pii key = any (str_eq key) pii_keys

unfoldable pub redacted : String → String
redacted key = f_string (key ∷ "_REDACTED" ∷ [])

-- `d.setdefault(k, v)`
abbrev pub set_default : {V : Type 0} → String → V → Dict V → Dict V
set_default k v d = elim (lookup k d) [ none ↦ insert k v d | some w ↦ d ]

module _ {W : Type 0} where
  pub drop_key : String → Dict (Json W) → Dict (Json W)
  unfolding is_pii redacted insert without
  drop_key key event =
      if is_pii key then without key (insert (redacted key) (boolean true) event) else event

  -- The loop over the keys that the event had.
  pub drop_keys : List String → Dict (Json W) → Dict (Json W)
  unfolding drop_key
  drop_keys [] event = event
  drop_keys (key ∷ rest) event = drop_keys rest (drop_key key event)

  unfoldable pub drop_pii_processor : Dict (Json W) → Dict (Json W)
  unfolding drop_keys
  drop_pii_processor event = drop_keys (keys event) event

  unfoldable pub add_service_context : Dict (Json W) → Dict (Json W)
  unfolding lookup insert
  add_service_context event =
      set_default "version" (text "2.0.0") (set_default "service" (text "ai_lead_qualifier") event)

abbrev status_value : Status → String
status_value Status.queued = "queued"
status_value Status.processing = "processing"
status_value Status.pending_review = "pending_review"
status_value Status.completed = "completed"
status_value Status.error = "error"

abbrev delivery_status_value : DeliveryStatus → String
delivery_status_value DeliveryStatus.pending = "pending"
delivery_status_value DeliveryStatus.success = "success"
delivery_status_value DeliveryStatus.failed = "failed"

module _ {W : Type 0} ⦃fl : Float W⦄ where
  abbrev thread_context : String → Dict (Json W)
  thread_context thread_id =
      if is_empty_text thread_id then [] else ("thread_id", text thread_id) ∷ []

  abbrev error_context : Option String → Dict (Json W)
  error_context none = []
  error_context (some detail) = ("error_detail", text detail) ∷ []

  -- On the whole state of a run, which has every key.
  unfoldable pub safe_state_log_context : AgentState W → String → Dict (Json W)
  safe_state_log_context state thread_id =
      thread_context thread_id
      ++ ("tenant_id", text state.lead.tenant_id)
        ∷ ("lead_id", text state.lead.lead_id)
        ∷ ("confidence_score", number state.confidence_score)
        ∷ ("status", text (status_value state.status))
        ∷ ("retry_count", number (fl.of_nat state.retry_count))
        ∷ ("delivery_status", text (delivery_status_value state.delivery_status))
        ∷ ("delivery_attempts", number (fl.of_nat state.delivery_attempts))
        ∷ (error_context state.error_detail
            ++ ("messages_count", number (fl.of_nat (length state.messages)))
              ∷ ("retrieved_docs_count", number (fl.of_nat (length state.retrieved_docs)))
              ∷ ("extracted_services_count", number (fl.of_nat (length state.extracted_services)))
              ∷ ("mapped_services_count", number (fl.of_nat (length state.mapped_services)))
              ∷ [])
