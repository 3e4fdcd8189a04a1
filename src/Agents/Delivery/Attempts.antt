-- ===== src/Agents/Delivery/Attempts.antt =====
-- What one delivery attempt writes, and when the node raises instead.
use ai_lead_qualifier.Prelude.{
  ◌+◌, String, Bool, ◌||◌, none, some, List, [], ◌∷◌, ◌≡◌, refl, ap, not, is_empty, ◌⊎◌, inl, inr,
  true, false, arith,
}
use ai_lead_qualifier.Float.{Float}
use ai_lead_qualifier.Core.Exceptions.{Answer, ok, raised, Exc, type_error, Answer-cases, ◌>>=◌}
use ai_lead_qualifier.Agents.State.{AgentState, MappedService, DeliveryStatus, Status}
use ai_lead_qualifier.Agents.Calculator.{to_float, is_variable, sum_prices}
use ai_lead_qualifier.Agents.Calculator.Quote.{IsPriced, is_known, sum_prices_iff}
use ai_lead_qualifier.Agents.Delivery.{
  Adapter, service_line, service_lines, format_quote_body, after_delivery, delivery_node,
}

module _ {W : Type 0} ⦃fl : Float W⦄ where
  service_line_ok :
      (m : MappedService W)
      → (is_variable m || is_known m.price) ≡ true
      → (l : String) × (service_line m ≡ ok l)
  unfolding service_line to_float
  service_line_ok m p = elim (Answer-cases (service_line m)) [
    | inl done ↦ done
    | inr (exc, e) ↦ absurd (ground arith)
  ]

  service_lines_ok :
      (ms : List (MappedService W)) → IsPriced ms → (ls : List String) × (service_lines ms ≡ ok ls)
  unfolding service_lines
  service_lines_ok [] h = ([], refl)
  service_lines_ok (m ∷ ms) (p, h) =
      let (l, e) = service_line_ok m p in
      let (ls, f) = service_lines_ok ms h in (l ∷ ls, ground arith)

  service_line_raised :
      (m : MappedService W) (exc : Exc) → service_line m ≡ raised exc → exc.kind ≡ type_error
  unfolding service_line to_float
  service_line_raised m exc h = ground arith

  -- The quote's body raises nothing but TypeError.
  service_lines_raised :
      (ms : List (MappedService W)) (exc : Exc)
      → service_lines ms ≡ raised exc
      → exc.kind ≡ type_error
  unfolding service_lines
  service_lines_raised [] exc h = ground arith
  service_lines_raised (m ∷ ms) exc h =
      ground (arith, service_line_raised m exc, service_lines_raised ms exc)

  -- The state after an attempt, and nothing else than the delivery fields and the status changed.
  pub record IsAttempted (s s' : AgentState W) : Type 0 where
    pub counted : s'.delivery_attempts ≡ s.delivery_attempts + 1
    pub same_quote : s'.total_quote ≡ s.total_quote
    pub same_services : s'.mapped_services ≡ s.mapped_services
    pub result :
        ((s'.delivery_status ≡ DeliveryStatus.success)
          × (s'.status ≡ Status.completed)
          × (s'.delivery_error ≡ none))
        ⊎ ((s'.delivery_status ≡ DeliveryStatus.failed)
            × (s'.status ≡ s.status)
            × ((detail : String) × (s'.delivery_error ≡ some detail)))

  after_delivery-IsAttempted :
      (s : AgentState W) (r : Answer Bool)
      → IsAttempted s (after_delivery s (s.delivery_attempts + 1) r)
  unfolding after_delivery
  after_delivery-IsAttempted s (ok true) = ground arith
  after_delivery-IsAttempted s (ok false) = ground arith
  after_delivery-IsAttempted s (raised exc) = ground arith

  module _ (get_adapter : String → Adapter W) (s : AgentState W) where
    format_ok :
        (p : Bool)
        → IsPriced s.mapped_services
        → (b : String) × (format_quote_body s.mapped_services s.total_quote p ≡ ok b)
    unfolding format_quote_body
    format_ok p h = elim (Answer-cases (format_quote_body s.mapped_services s.total_quote p)) [
      | inl done ↦ done
      | inr (exc, e) ↦ let (ls, f) = service_lines_ok s.mapped_services h in absurd (ground arith)
    ]

    -- What the node writes once it has the body.
    abbrev attempted : String → AgentState W
    attempted body = after_delivery s (s.delivery_attempts + 1) (
        get_adapter s.lead.tenant_id (record {
          lead_id = s.lead.lead_id;
          tenant_id = s.lead.tenant_id;
          total_quote = s.total_quote;
          total_is_partial = not (is_empty s.on_request_services);
          mapped_services = s.mapped_services;
          on_request_services = s.on_request_services;
          quote_body = body;
        }))

    -- Once the calculator could compute a total, the delivery node raises nothing whatever the adapter
    -- does: it counts one attempt, leaves the quote alone, and either records a success with status
    -- completed, or a failure with a detail and the status as it was.
    pub delivery_node-IsAttempted :
        (t : W)
        → sum_prices s.mapped_services ≡ ok t
        → (s' : AgentState W) × (delivery_node get_adapter s ≡ ok s') × IsAttempted s s'
    unfolding delivery_node
    delivery_node-IsAttempted t e =
        let (priced, total) = (sum_prices_iff s.mapped_services t).0 e in
        let (body, f) = format_ok (not (is_empty s.on_request_services)) priced in
        (_, ap (λ r. r >>= λ b. ok (attempted b)) f, after_delivery-IsAttempted s _)

    -- What the delivery node raises is a TypeError, and some service that is not VARIABLE has no price.
    pub delivery_node_raised :
        (exc : Exc)
        → delivery_node get_adapter s ≡ raised exc
        → (exc.kind ≡ type_error) × (IsPriced s.mapped_services → ⊥)
    unfolding delivery_node format_quote_body
    delivery_node_raised exc h = (
      ground (arith, service_lines_raised s.mapped_services exc),
      λ priced. let (ls, e) = service_lines_ok s.mapped_services priced in ground arith,
    )
