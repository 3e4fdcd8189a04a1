-- ===== src/Agents/Evaluator.antt =====
-- backend/agents/evaluator.py
pub mod Score
use ai_lead_qualifier.Prelude.{
  ℕ, zero, List, [], ◌∷◌, ◌&&◌, not, ltb, length, is_empty, if◌then◌else◌,
}
use ai_lead_qualifier.Float.{Float, float_lt, float_min, float_max}
use ai_lead_qualifier.Core.Config.{Settings}
use ai_lead_qualifier.Database.Documents.{Document}
use ai_lead_qualifier.Agents.State.{AgentState, Status}

-- `max(n, 1)`
abbrev pub at_least_one : ℕ → ℕ
at_least_one zero = 1
at_least_one n = n

module _ {W : Type 0} ⦃fl : Float W⦄ where
  -- `sum(…)` of the distances, from the left.
  unfoldable pub sum_distances : W → List (Document W) → W
  sum_distances acc [] = acc
  sum_distances acc (d ∷ ds) = sum_distances (fl.add acc d.metadata.distance) ds

  unfoldable pub mapped_ratio : AgentState W → W
  mapped_ratio state =
      float_min
        (fl.div (fl.of_nat (length state.mapped_services))
          (fl.of_nat (at_least_one (length state.extracted_services))))
        (fl.literal 100)

  unfoldable pub avg_distance : AgentState W → W
  avg_distance state =
      fl.div (sum_distances (fl.literal 0) state.retrieved_docs)
        (fl.of_nat (length state.retrieved_docs))

  unfoldable pub raw_score : AgentState W → W
  raw_score state =
      fl.mul (mapped_ratio state)
        (fl.sub (fl.literal 100) (float_min (avg_distance state) (fl.literal 100)))

  -- The score with its three hard zeros.
  unfoldable pub confidence : AgentState W → W
  confidence state =
      if is_empty state.extracted_services
      then fl.literal 0
      else if is_empty state.mapped_services
      then fl.literal 0
      else if is_empty state.retrieved_docs
      then fl.literal 0
      else fl.round 4 (float_min (float_max (raw_score state) (fl.literal 0)) (fl.literal 100))

  unfoldable pub evaluator_node : Settings W → AgentState W → AgentState W
  evaluator_node settings state =
      let score = confidence state in
      if float_lt score settings.evaluator_threshold
        && not (ltb state.retry_count settings.max_retry_count)
      then record state { confidence_score = score; status = Status.pending_review }
      else record state { confidence_score = score }
