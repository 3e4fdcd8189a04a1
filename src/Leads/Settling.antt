-- ===== src/Leads/Settling.antt =====
-- What a qualification task leaves in the checkpoint that the polling endpoint reads.
use ai_lead_qualifier.Prelude.{ℕ, ◌≤◌, ◌<◌, ◌≡◌, refl, ◌⊎◌, String, some, true, arith}
use ai_lead_qualifier.Float.{Float, float_lt}
use ai_lead_qualifier.Core.Exceptions.{Answer, ok, raised, type_name}
use ai_lead_qualifier.Core.Config.{Settings}
use ai_lead_qualifier.Agents.State.{AgentState, LeadContext, Status, DeliveryStatus}
use ai_lead_qualifier.Graph.{World, Outcome, finished, interrupted, crashed, ainvoke}
use ai_lead_qualifier.Graph.Steps.{HasQuote}
use ai_lead_qualifier.Graph.Outcomes.{ainvoke_finished, ainvoke_interrupted}
use ai_lead_qualifier.Leads.{
  initial_state, after_run, update_state_on_crash, run_qualification_task,
}

module _ {W : Type 0} ⦃fl : Float W⦄ (settings : Settings W) (world : World W) where
  -- The task returned, with a quote that was delivered or given up, or with a run that waits for
  -- review; or it raised, and the checkpoint says so.
  abbrev pub IsSettled : AgentState W × Answer String → Type 0
  IsSettled (s, ok answer) =
      ((s.status ≡ Status.completed)
        × (s.delivery_status ≡ DeliveryStatus.success)
        × HasQuote settings s)
      ⊎ ((s.status ≡ Status.pending_review)
          × (float_lt s.confidence_score settings.evaluator_threshold ≡ true))
      ⊎ (((s.status ≡ Status.processing) ⊎ (s.status ≡ Status.error))
          × (s.delivery_status ≡ DeliveryStatus.failed)
          × (settings.delivery_max_attempts ≤ s.delivery_attempts))
  IsSettled (s, raised exc) =
      (s.status ≡ Status.error) × (s.error_detail ≡ some (type_name exc.kind))

  module _ (attempts : 0 < settings.delivery_max_attempts) (limit : ℕ) (lead : LeadContext) where
    fresh :
        ((initial_state {W = W} lead).retry_count ≡ 0)
        × ((initial_state {W = W} lead).delivery_attempts ≡ 0)
    unfolding initial_state
    fresh = (refl, refl)

    after_run-IsSettled :
        (o : Outcome W)
        → ainvoke settings world limit (initial_state lead) ≡ o
        → IsSettled (after_run (ok tt) o)
    unfolding after_run update_state_on_crash
    after_run-IsSettled (finished s) e =
        ground
          (arith, ainvoke_finished settings world limit attempts (initial_state lead) s fresh e)
    after_run-IsSettled (interrupted s payload) e = ground (
      arith,
      ainvoke_interrupted settings world limit attempts (initial_state lead) s fresh payload e,
    )
    after_run-IsSettled (crashed exc s) e = (refl, refl)

    -- Let delivery_max_attempts be positive, and the checkpoint accept updates. A qualification
    -- task that returns leaves a lead that is completed with a delivered quote, or pending review
    -- with a score below the threshold, or one whose delivery was given up after all attempts, with
    -- status processing or error; a task that raises leaves status error with the name of the
    -- exception's class as the detail.
    pub run_qualification_task-IsSettled :
        IsSettled (run_qualification_task settings world limit (ok tt) lead)
    unfolding run_qualification_task
    run_qualification_task-IsSettled =
        after_run-IsSettled (ainvoke settings world limit (initial_state lead)) refl
