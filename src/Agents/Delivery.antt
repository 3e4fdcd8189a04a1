-- ===== src/Agents/Delivery.antt =====
-- backend/agents/delivery.py and backend/adapters. An adapter is a function of the payload; the HTTP
-- client of the webhook and the log of the console are parameters.
pub mod Attempts
use ai_lead_qualifier.Prelude.{
  ℕ, ◌+◌, String, Bool, true, false, Option, none, some, List, [], ◌∷◌, ◌++◌, leb, ltb, ◌&&◌, not,
  is_empty, str_eq, if◌then◌else◌,
}
use ai_lead_qualifier.Float.{Float}
use ai_lead_qualifier.Core.Text.{f_string, join, show, is_empty_text}
use ai_lead_qualifier.Core.Exceptions.{Answer, ok, raised, Exc, type_name, is_request_error, ◌>>=◌}
use ai_lead_qualifier.Agents.State.{AgentState, MappedService, Status, DeliveryStatus}
use ai_lead_qualifier.Agents.Calculator.{to_float}

pub record Payload (W : Type 0) : Type 0 where
  pub lead_id : String
  pub tenant_id : String
  pub total_quote : W
  pub total_is_partial : Bool
  pub mapped_services : List (MappedService W)
  pub on_request_services : List String
  pub quote_body : String

-- `BaseDeliveryAdapter.deliver`
abbrev pub Adapter : Type 0 → Type 0
Adapter W = Payload W → Answer Bool

-- `ConsoleAdapter`: logs the payload and confirms.
abbrev pub console_adapter : {W : Type 0} → Adapter W
console_adapter payload = ok true

-- `WebhookAdapter`, over the status code that the POST returns or what it raises. `is_success` is
-- the range 2xx.
unfoldable pub webhook_adapter : {W : Type 0} → (String → Payload W → Answer ℕ) → String → Adapter W
webhook_adapter post url payload = do
  status_code ← post url payload
  ok (leb 200 status_code && ltb status_code 300)

-- `get_delivery_adapter`
abbrev pub get_delivery_adapter : {W : Type 0} → String → Adapter W
get_delivery_adapter tenant_id = console_adapter

module _ {W : Type 0} ⦃fl : Float W⦄ where
  -- `svc.get("matched_name") or svc.get("service", "?")`
  abbrev pub display_name : MappedService W → String
  display_name svc = if is_empty_text svc.matched_name then svc.service else svc.matched_name

  pub service_line : MappedService W → Answer String
  unfolding to_float
  service_line svc =
      if str_eq svc.price_type "VARIABLE"
      then ok (f_string ("• " ∷ display_name svc ∷ " — su richiesta" ∷ []))
      else if str_eq svc.price_type "FREE"
      then ok (f_string ("• " ∷ display_name svc ∷ " — Gratis" ∷ []))
      else (to_float svc.price >>= λ price.
          ok (f_string ("• " ∷ display_name svc ∷ " — " ∷ fl.format price ∷ " €" ∷ [])))

  pub service_lines : List (MappedService W) → Answer (List String)
  unfolding service_line
  service_lines [] = ok []
  service_lines (svc ∷ svcs) = do
    line ← service_line svc
    lines ← service_lines svcs
    ok (line ∷ lines)

  pub total_line : W → Bool → String
  total_line total_quote total_is_partial =
      if total_is_partial
      then f_string (
          "Totale parziale: "
          ∷ fl.format total_quote
          ∷ " € (alcuni servizi sono da preventivare)"
          ∷ [])
      else f_string ("Totale: " ∷ fl.format total_quote ∷ " €" ∷ [])

  unfoldable pub format_quote_body : List (MappedService W) → W → Bool → Answer String
  unfolding service_lines total_line
  format_quote_body mapped_services total_quote total_is_partial = do
    lines ← service_lines mapped_services
    ok (
        join "\n" (
          "Riepilogo servizi:" ∷ "" ∷ (lines ++ "" ∷ total_line total_quote total_is_partial ∷ [])))

  -- The three results of the call, as the dict that the node returns.
  pub after_delivery : AgentState W → ℕ → Answer Bool → AgentState W
  after_delivery state attempts (ok true) = record state {
    delivery_status = DeliveryStatus.success;
    delivery_attempts = attempts;
    delivery_error = none;
    status = Status.completed;
  }
  after_delivery state attempts (ok false) = record state {
    delivery_status = DeliveryStatus.failed;
    delivery_attempts = attempts;
    delivery_error = some (f_string ("Adapter returned False on attempt " ∷ show attempts ∷ []));
  }
  after_delivery state attempts (raised exc) = record state {
    delivery_status = DeliveryStatus.failed;
    delivery_attempts = attempts;
    delivery_error = some (
        f_string (
          (if is_request_error exc.kind
            then "Network error attempt "
            else "Unexpected error attempt ")
          ∷ show attempts
          ∷ ": "
          ∷ type_name exc.kind
          ∷ ": "
          ∷ exc.message
          ∷ []));
  }

  -- The quote's body is built before the `try`, so what it raises leaves the node.
  unfoldable pub delivery_node : (String → Adapter W) → AgentState W → Answer (AgentState W)
  unfolding after_delivery
  delivery_node get_adapter state =
      let attempts = state.delivery_attempts + 1 in
      let total_is_partial = not (is_empty state.on_request_services) in
      do
        body ← format_quote_body state.mapped_services state.total_quote total_is_partial
        ok (
            after_delivery state attempts (
              get_adapter state.lead.tenant_id (record {
                lead_id = state.lead.lead_id;
                tenant_id = state.lead.tenant_id;
                total_quote = state.total_quote;
                total_is_partial = total_is_partial;
                mapped_services = state.mapped_services;
                on_request_services = state.on_request_services;
                quote_body = body;
              })))
