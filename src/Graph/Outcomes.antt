-- ===== src/Graph/Outcomes.antt =====
-- What the end of a run says about its quote, its review and its retries.
use ai_lead_qualifier.Prelude.{ℕ, ◌≤◌, ◌<◌, ◌≡◌, true}
use ai_lead_qualifier.Float.{Float, ◌≼◌, float_lt}
use ai_lead_qualifier.Core.Config.{Settings}
use ai_lead_qualifier.Agents.State.{AgentState, Status}
use ai_lead_qualifier.Graph.{World, ReviewPayload, finished, interrupted, ainvoke}
use ai_lead_qualifier.Graph.Steps.{HasExtracted, HasQuote, IsDelivered}
use ai_lead_qualifier.Graph.Reachability.{EndsIn, Reach-At, ainvoke-EndsIn}
use mathlib.Core.Path.{subst}

module _ {W : Type 0} ⦃fl : Float W⦄ (settings : Settings W) (world : World W) (limit : ℕ)
    (attempts : 0 < settings.delivery_max_attempts) (s₀ s : AgentState W)
    (fresh : (s₀.retry_count ≡ 0) × (s₀.delivery_attempts ≡ 0)) where
  -- Let delivery_max_attempts be positive, and the counters of the initial state 0. A run that
  -- finishes scored at least the threshold, with a retry_count of at most max_retry_count or at
  -- most one. Its quote is the sum of the prices of its mapped services, with the VARIABLE ones
  -- listed as on request, or could not be computed and is 0. It was delivered, with status
  -- completed and no delivery error, or all the allowed attempts failed and the status is
  -- processing or error; it made no more attempts than allowed.
  pub ainvoke_finished :
      ainvoke settings world limit s₀ ≡ finished s
      → (settings.evaluator_threshold ≼ s.confidence_score)
        × HasExtracted settings s
        × HasQuote settings s
        × (s.delivery_attempts ≤ settings.delivery_max_attempts)
        × IsDelivered settings s
  ainvoke_finished e =
      let (i, r) : EndsIn settings world s₀ (finished s) =
        subst (EndsIn settings world s₀) e (ainvoke-EndsIn settings world s₀ limit) in
      Reach-At settings world s₀ attempts fresh r

  -- Let delivery_max_attempts be positive, and the counters of the initial state 0. A run that is
  -- suspended has status pending_review in its checkpoint, scored below the threshold and used up
  -- its retries, with a retry_count of at most max_retry_count or at most one; no delivery has been
  -- attempted.
  pub ainvoke_interrupted :
      (p : ReviewPayload W)
      → ainvoke settings world limit s₀ ≡ interrupted s p
      → (float_lt s.confidence_score settings.evaluator_threshold ≡ true)
        × HasExtracted settings s
        × (settings.max_retry_count ≤ s.retry_count)
        × (s.status ≡ Status.pending_review)
        × (s.delivery_attempts ≡ 0)
  ainvoke_interrupted p e =
      let (i, r) : EndsIn settings world s₀ (interrupted s p) =
        subst (EndsIn settings world s₀) e (ainvoke-EndsIn settings world s₀ limit) in
      Reach-At settings world s₀ attempts fresh r
