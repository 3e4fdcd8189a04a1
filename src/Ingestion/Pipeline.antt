-- ===== src/Ingestion/Pipeline.antt =====
-- backend/ingestion/graph.py: the routers and the graph, run one superstep at a time as in Graph.antt,
-- up to the review or the end, and on from the review with a decision.
pub mod Approval
pub mod Termination
pub mod Snapshots
use ai_lead_qualifier.Prelude.{
  ℕ, zero, suc, ◌+◌, String, Bool, true, false, Option, none, some, ltb, ◌||◌, not, is_empty,
  length, if◌then◌else◌,
}
use ai_lead_qualifier.Float.{Float, float_lt}
use ai_lead_qualifier.Core.Exceptions.{Answer, ok, raised, Exc}
use ai_lead_qualifier.Core.Config.{Settings}
use ai_lead_qualifier.Database.Catalogue.{Table}
use ai_lead_qualifier.Graph.{recursion_failure}
use ai_lead_qualifier.Ingestion.State.{IngestionState, Services}
use ai_lead_qualifier.Ingestion.Nodes.{chunker_node, normalizer_node}
use ai_lead_qualifier.Ingestion.Validator.{
  ReviewPayload, Decision, validator_node, review_payload, approval_node,
}
use ai_lead_qualifier.Ingestion.Finalizer.{finalizer_node}

-- The nodes that `build_ingestion_graph` registers; `finish` is END.
pub data Node : Type 0 where
  chunker normalizer validator approval finalizer finish : Node

-- How a run ends: with its last checkpoint and the catalogue table, suspended with the payload, or
-- with what a node or the engine raised.
pub data Outcome (W : Type 0) : Type 0 where
  finished : IngestionState W → Table W → Outcome W
  suspended : IngestionState W → Table W → ReviewPayload W → Outcome W
  crashed : Exc → IngestionState W → Table W → Outcome W

-- `value is True`
abbrev is_true : Option Bool → Bool
is_true (some b) = b
is_true none = false

module _ {W : Type 0} ⦃fl : Float W⦄ where
  unfoldable pub route_after_normalizer : IngestionState W → Node
  route_after_normalizer state =
      if ltb state.current_chunk_index (length state.raw_chunks) then normalizer else validator

  -- `literal 75` is CONFIDENCE_THRESHOLD.
  unfoldable pub route_after_validator : IngestionState W → Node
  route_after_validator state =
      if float_lt state.confidence_score (fl.literal 75) || not (is_empty state.flagged_items)
      then approval
      else finalizer

  unfoldable pub route_after_approval : IngestionState W → Node
  route_after_approval state = if is_true state.approved then finalizer else finish

  module _ (settings : Settings W) (services : ℕ → Services W) where
    abbrev pub advance :
        (IngestionState W → Outcome W)
        → IngestionState W
        → Table W
        → Answer (IngestionState W)
        → Outcome W
    advance rest state table (ok state') = rest state'
    advance rest state table (raised exc) = crashed exc state table

    -- The supersteps left, the number of this one, its node, the state and the table before it.
    unfoldable pub run : ℕ → ℕ → Node → IngestionState W → Table W → Outcome W
    unfolding route_after_normalizer route_after_validator
    run left i finish state table = finished state table
    run zero i node state table = crashed recursion_failure state table
    run (suc left) i chunker state table =
        run left (suc i) normalizer (chunker_node (services i) settings state) table
    run (suc left) i normalizer state table =
        advance (λ state'. run left (suc i) (route_after_normalizer state') state' table) state
          table (normalizer_node (services i) state)
    run (suc left) i validator state table =
        run left (suc i) (route_after_validator (validator_node state)) (validator_node state) table
    run (suc left) i approval state table = suspended state table (review_payload state)
    run (suc left) i finalizer state table =
        let (state', table') = finalizer_node (services i) settings state table in
        finished state' table'

    -- `graph.ainvoke(initial_state, config)`
    unfoldable pub ingest : ℕ → IngestionState W → Table W → Outcome W
    unfolding run
    ingest recursion_limit state table = run recursion_limit 0 chunker state table

    -- `graph.ainvoke(Command(resume=…), config)` on a suspended run.
    unfoldable pub resume :
        (Option String → String) → ℕ → Decision → IngestionState W → Table W → Outcome W
    unfolding run route_after_approval
    resume repr zero decision state table = crashed recursion_failure state table
    resume repr (suc left) decision state table =
        let state' = approval_node repr decision state in
        run left 1 (route_after_approval state') state' table
