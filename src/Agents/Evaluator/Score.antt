-- ===== src/Agents/Evaluator/Score.antt =====
-- The range of the confidence score, and the states that must score zero.
use ai_lead_qualifier.Prelude.{◌≡◌, ◌⊎◌, [], arith}
use ai_lead_qualifier.Float.{Float, FloatLaws, ◌≼◌, clamp_bounds}
use ai_lead_qualifier.Core.Config.{Settings}
use ai_lead_qualifier.Agents.State.{AgentState}
use ai_lead_qualifier.Agents.Evaluator.{confidence, raw_score, evaluator_node}

module _ {W : Type 0} ⦃fl : Float W⦄ where
  -- A state with no extracted service, no mapped service or no retrieved document gets the score 0.
  pub evaluator_node-hard_zero :
      (settings : Settings W) (s : AgentState W)
      → (s.extracted_services ≡ []) ⊎ (s.mapped_services ≡ []) ⊎ (s.retrieved_docs ≡ [])
      → (evaluator_node settings s).confidence_score ≡ fl.literal 0
  unfolding evaluator_node confidence
  evaluator_node-hard_zero settings s h = ground arith

  -- Whatever the mapper and the catalogue returned, the score lies in [0, 1], by the laws of the
  -- order of floats.
  pub evaluator_node_bounds :
      FloatLaws W
      → (settings : Settings W) (s : AgentState W)
      → (fl.literal 0 ≼ (evaluator_node settings s).confidence_score)
        × ((evaluator_node settings s).confidence_score ≼ fl.literal 100)
  unfolding evaluator_node confidence
  evaluator_node_bounds laws settings s = ground (
    arith,
    clamp_bounds laws 4 (raw_score s),
    laws.le_refl (fl.literal 0),
    laws.literal_mono 0 100 (omega arith),
  )
