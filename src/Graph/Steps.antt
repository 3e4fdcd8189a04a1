-- ===== src/Graph/Steps.antt =====
-- What holds of the state before each node, and that every superstep keeps it.
use ai_lead_qualifier.Prelude.{ℕ, ◌≤◌, ◌<◌, ◌≡◌, ◌⊎◌, true, false, none, arith}
use ai_lead_qualifier.Float.{Float, float_lt, ◌≼◌}
use ai_lead_qualifier.Core.Exceptions.{ok, is_ok}
use ai_lead_qualifier.Core.Config.{Settings}
use ai_lead_qualifier.Agents.State.{AgentState, Status, DeliveryStatus}
use ai_lead_qualifier.Agents.Sanitizer.{sanitizer_node}
use ai_lead_qualifier.Agents.Extractor.{extractor_node}
use ai_lead_qualifier.Agents.Mapper.Frame.{mapper_node-IsSameRun}
use ai_lead_qualifier.Agents.Evaluator.{evaluator_node}
use ai_lead_qualifier.Agents.Calculator.{sum_prices, on_request, calculator_node}
use ai_lead_qualifier.Agents.Delivery.{delivery_node}
use ai_lead_qualifier.Graph.{
  World, Node, sanitizer, extractor, mapper, evaluator, calculator, delivery, hitl_interrupt,
  finish, route_after_evaluator, next, execute,
}

-- The nodes that run; a run stops before the other two.
pub data IsActive : Node → Type 0 where
  sanitizes : IsActive sanitizer
  extracts : IsActive extractor
  maps : IsActive mapper
  evaluates : IsActive evaluator
  calculates : IsActive calculator
  delivers : IsActive delivery

module _ {W : Type 0} ⦃fl : Float W⦄ (settings : Settings W) where
  -- The extractor has been called for less than the allowed number of times, or never.
  abbrev pub MayExtract : AgentState W → Type 0
  MayExtract s = (s.retry_count ≡ 0) ⊎ (s.retry_count < settings.max_retry_count)

  -- The calls so far: one more than the retries that were allowed.
  abbrev pub HasExtracted : AgentState W → Type 0
  HasExtracted s = (s.retry_count ≤ 1) ⊎ (s.retry_count ≤ settings.max_retry_count)

  -- The quote is the sum of the prices of the mapped services, with the VARIABLE ones listed as on
  -- request; or it could not be computed and is 0.
  abbrev pub HasQuote : AgentState W → Type 0
  HasQuote s =
      ((sum_prices s.mapped_services ≡ ok s.total_quote)
        × (s.on_request_services ≡ on_request s.mapped_services))
      ⊎ ((is_ok (sum_prices s.mapped_services) ≡ false) × (s.total_quote ≡ fl.literal 0))

  -- How a run that is over has delivered its quote.
  abbrev pub IsDelivered : AgentState W → Type 0
  IsDelivered s =
      ((s.delivery_status ≡ DeliveryStatus.success)
        × (s.status ≡ Status.completed)
        × (s.delivery_error ≡ none))
      ⊎ ((s.delivery_status ≡ DeliveryStatus.failed)
          × (settings.delivery_max_attempts ≤ s.delivery_attempts)
          × ((s.status ≡ Status.processing) ⊎ (s.status ≡ Status.error)))

  -- The state before a node.
  abbrev pub At : Node → AgentState W → Type 0
  At sanitizer s = (s.retry_count ≡ 0) × (s.delivery_attempts ≡ 0)
  At extractor s = MayExtract s × (s.delivery_attempts ≡ 0)
  At mapper s = HasExtracted s × (s.delivery_attempts ≡ 0)
  At evaluator s = HasExtracted s × (s.delivery_attempts ≡ 0)
  At calculator s =
      (settings.evaluator_threshold ≼ s.confidence_score)
      × HasExtracted s
      × (s.delivery_attempts ≡ 0)
  At delivery s =
      (settings.evaluator_threshold ≼ s.confidence_score)
      × HasExtracted s
      × HasQuote s
      × (s.delivery_attempts < settings.delivery_max_attempts)
      × ((s.status ≡ Status.processing) ⊎ (s.status ≡ Status.error))
  At hitl_interrupt s =
      (float_lt s.confidence_score settings.evaluator_threshold ≡ true)
      × HasExtracted s
      × (settings.max_retry_count ≤ s.retry_count)
      × (s.status ≡ Status.pending_review)
      × (s.delivery_attempts ≡ 0)
  At finish s =
      (settings.evaluator_threshold ≼ s.confidence_score)
      × HasExtracted s
      × HasQuote s
      × (s.delivery_attempts ≤ settings.delivery_max_attempts)
      × IsDelivered s

  module _ (world : World W) (i : ℕ) (attempts : 0 < settings.delivery_max_attempts)
      (s s' : AgentState W) where
    sanitizer-At : At sanitizer s → execute settings world i sanitizer s ≡ ok s' → At extractor s'
    unfolding execute sanitizer_node
    sanitizer-At h e = ground arith

    extractor-At : At extractor s → execute settings world i extractor s ≡ ok s' → At mapper s'
    unfolding execute extractor_node
    extractor-At h e = ground arith

    mapper-At : At mapper s → execute settings world i mapper s ≡ ok s' → At evaluator s'
    unfolding execute
    mapper-At h e =
        ground (arith, mapper_node-IsSameRun settings (world.embeddings i) (world.fetch i) e)

    evaluator-At :
        At evaluator s
        → execute settings world i evaluator s ≡ ok s'
        → At (route_after_evaluator settings s') s'
    unfolding execute evaluator_node route_after_evaluator
    evaluator-At h e = ground arith

    calculator-At : At calculator s → execute settings world i calculator s ≡ ok s' → At delivery s'
    unfolding execute calculator_node
    calculator-At h e = ground arith

    delivery-At :
        At delivery s
        → execute settings world i delivery s ≡ ok s'
        → At (next settings delivery s') s'
    unfolding execute delivery_node next
    delivery-At h e = ground arith

    -- Every superstep keeps what `At` says.
    pub step-At :
        {n : Node}
        → IsActive n
        → At n s
        → execute settings world i n s ≡ ok s'
        → At (next settings n s') s'
    unfolding next
    step-At sanitizes h e = sanitizer-At h e
    step-At extracts h e = extractor-At h e
    step-At maps h e = mapper-At h e
    step-At evaluates h e = evaluator-At h e
    step-At calculates h e = calculator-At h e
    step-At delivers h e = delivery-At h e
