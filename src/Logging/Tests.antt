-- ===== src/Logging/Tests.antt =====
-- A log event with PII, and the context of a fresh run.
use ai_lead_qualifier.Prelude.{true, some, [], ◌∷◌, ◌≡◌, refl, if◌then◌else◌, none}
use ai_lead_qualifier.Float.{Fixed, fixed_float}
use ai_lead_qualifier.Core.Text.{f_string}
use ai_lead_qualifier.Core.Json.{Json, Dict, keys, boolean, text, lookup}
use ai_lead_qualifier.Agents.Fixtures.{fresh_state}
use ai_lead_qualifier.Logging.{
  is_pii, drop_pii_processor, add_service_context, safe_state_log_context,
}
use ai_lead_qualifier.Logging.Redaction.{
  is_sentinel, lookup-drop_pii_processor, drop_pii_processor-safe_state_log_context,
}

abbrev event : Dict (Json Fixed)
event = ("event", text "lead") ∷ ("email", text "a@b.it") ∷ ("name", text "Anna") ∷ []

dropped :
    add_service_context (drop_pii_processor event)
    ≡ ("event", text "lead")
      ∷ ("email_REDACTED", boolean true)
      ∷ ("name_REDACTED", boolean true)
      ∷ ("service", text "ai_lead_qualifier")
      ∷ ("version", text "2.0.0")
      ∷ []
unfolding drop_pii_processor add_service_context f_string
dropped = refl

lookup-drop_pii_processor_example : lookup "email" (drop_pii_processor event) ≡ (
    if is_pii "email"
    then none
    else if is_sentinel "email" (keys event)
    then some (boolean true)
    else lookup "email" event)
lookup-drop_pii_processor_example = lookup-drop_pii_processor "email" event

drop_pii_processor-safe_state_log_context_example :
    drop_pii_processor (safe_state_log_context {W = Fixed} fresh_state "qualify-acme-1")
    ≡ safe_state_log_context fresh_state "qualify-acme-1"
drop_pii_processor-safe_state_log_context_example =
    drop_pii_processor-safe_state_log_context fresh_state "qualify-acme-1"
