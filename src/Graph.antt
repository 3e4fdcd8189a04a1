-- ===== src/Graph.antt =====
-- backend/core/graph.py: the qualification graph. LangGraph runs one node in each superstep and
-- follows the edges; it suspends a run at `interrupt()`, passes on what a node raises, and raises
-- GraphRecursionError when `recursion_limit` supersteps did not reach the end. What lies outside the
-- program may answer differently in each superstep.
pub mod Steps
pub mod Reachability
pub mod Outcomes
pub mod Termination
pub mod Livelock
mod Tests
use ai_lead_qualifier.Prelude.{
  ℕ, zero, suc, ◌+◌, String, Bool, true, false, List, ltb, if◌then◌else◌,
}
use ai_lead_qualifier.Float.{Float}
use ai_lead_qualifier.Core.Exceptions.{Answer, ok, raised, Exc, recursion_error}
use ai_lead_qualifier.Core.Config.{Settings}
use ai_lead_qualifier.Database.Documents.{Fetch}
use ai_lead_qualifier.Services.Embeddings.{EmbeddingClient}
use ai_lead_qualifier.Agents.State.{AgentState, MappedService, DeliveryStatus}
use ai_lead_qualifier.Agents.Sanitizer.{Regex, sanitizer_node}
use ai_lead_qualifier.Agents.Extractor.{JsonLibrary, LlmClients, extractor_node}
use ai_lead_qualifier.Agents.Mapper.{mapper_node}
use ai_lead_qualifier.Agents.Evaluator.{evaluator_node}
use ai_lead_qualifier.Agents.Calculator.{calculator_node}
use ai_lead_qualifier.Agents.Delivery.{Adapter, delivery_node}

-- What lies outside the program, as superstep `i` finds it.
pub record World (W : Type 0) : Type 0 where
  pub re : Regex
  pub json : JsonLibrary W
  pub llm : ℕ → LlmClients
  pub embeddings : ℕ → EmbeddingClient W
  pub fetch : ℕ → Fetch W
  pub adapter : ℕ → String → Adapter W

-- The nodes that `build_graph` registers; `finish` is END.
pub data Node : Type 0 where
  sanitizer extractor mapper evaluator calculator delivery hitl_interrupt finish : Node

-- The payload that `hitl_interrupt_node` hands to `interrupt()`.
pub record ReviewPayload (W : Type 0) : Type 0 where
  pub lead_id : String
  pub tenant_id : String
  pub confidence_score : W
  pub extracted_services : List String
  pub mapped_services : List (MappedService W)

pub hitl_interrupt_node : {W : Type 0} → AgentState W → ReviewPayload W
hitl_interrupt_node state = record {
  lead_id = state.lead.lead_id;
  tenant_id = state.lead.tenant_id;
  confidence_score = state.confidence_score;
  extracted_services = state.extracted_services;
  mapped_services = state.mapped_services;
}

-- How `ainvoke` ends, with the last checkpoint.
pub data Outcome (W : Type 0) : Type 0 where
  finished : AgentState W → Outcome W
  interrupted : AgentState W → ReviewPayload W → Outcome W
  crashed : Exc → AgentState W → Outcome W

-- GraphRecursionError
abbrev pub recursion_failure : Exc
recursion_failure = record {
  kind = recursion_error;
  message = "Recursion limit reached without hitting a stop condition.";
}

module _ {W : Type 0} ⦃fl : Float W⦄ (settings : Settings W) where
  unfoldable pub route_after_evaluator : AgentState W → Node
  route_after_evaluator state =
      if fl.le settings.evaluator_threshold state.confidence_score
      then calculator
      else if ltb state.retry_count settings.max_retry_count
      then extractor
      else hitl_interrupt

  abbrev pub retry_delivery : DeliveryStatus → ℕ → Node
  retry_delivery DeliveryStatus.success attempts = finish
  retry_delivery _ attempts =
      if ltb attempts settings.delivery_max_attempts then delivery else finish

  unfoldable pub route_after_delivery : AgentState W → Node
  route_after_delivery state = retry_delivery state.delivery_status state.delivery_attempts

  -- The edges of `build_graph`.
  unfoldable pub next : Node → AgentState W → Node
  unfolding route_after_evaluator route_after_delivery
  next sanitizer state = extractor
  next extractor state = mapper
  next mapper state = evaluator
  next evaluator state = route_after_evaluator state
  next calculator state = delivery
  next delivery state = route_after_delivery state
  next hitl_interrupt state = finish
  next finish state = finish

  -- What a node raises ends the run with the checkpoint before it.
  abbrev pub advance :
      (Node → AgentState W → Outcome W) → AgentState W → Node → Answer (AgentState W) → Outcome W
  advance rest state node (raised exc) = crashed exc state
  advance rest state node (ok state') = rest (next node state') state'

  module _ (world : World W) where
    -- The function that `build_graph` registers for a node, in superstep `i`. The last two nodes do
    -- not run: `run` suspends or ends there.
    unfoldable pub execute : ℕ → Node → AgentState W → Answer (AgentState W)
    execute i sanitizer state = ok (sanitizer_node world.re settings state)
    execute i extractor state = extractor_node world.json settings (world.llm i) state
    execute i mapper state = mapper_node settings (world.embeddings i) (world.fetch i) state
    execute i evaluator state = ok (evaluator_node settings state)
    execute i calculator state = ok (calculator_node state)
    execute i delivery state = delivery_node (world.adapter i) state
    execute i hitl_interrupt state = ok state
    execute i finish state = ok state

    -- The supersteps left, the number of this one, its node and the state before it.
    unfoldable pub run : ℕ → ℕ → Node → AgentState W → Outcome W
    unfolding hitl_interrupt_node
    run left i finish state = finished state
    run zero i node state = crashed recursion_failure state
    run (suc left) i hitl_interrupt state = interrupted state (hitl_interrupt_node state)
    run (suc left) i node state = advance (run left (suc i)) state node (execute i node state)

    -- `graph.ainvoke(initial_state, config)`
    unfoldable pub ainvoke : ℕ → AgentState W → Outcome W
    unfolding run
    ainvoke recursion_limit state = run recursion_limit 0 sanitizer state
