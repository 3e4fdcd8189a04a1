-- ===== src/Leads/Review.antt =====
-- What a review allows, and what the resumed run does.
use ai_lead_qualifier.Prelude.{
  inr, inl, ◌≡◌, refl, ◌⊎◌, String, Bool, true, false, Option, none, some, str_eq, eq_iff, arith,
}
use ai_lead_qualifier.Float.{Float}
use ai_lead_qualifier.Core.Exceptions.{ok}
use ai_lead_qualifier.Agents.State.{AgentState, Status}
use ai_lead_qualifier.Leads.{
  StatusResult, quote, status_result, LeadStatus, get_lead_status, HitlDecision, is_pending_review,
  approved_state, rejected_state, approve_lead,
}

abbrev pub is_completed : Status → Bool
is_completed Status.completed = true
is_completed _ = false

pending_review_lem : (t : Status) → is_pending_review t ≡ true → t ≡ Status.pending_review
pending_review_lem t h = ground arith

module _ {W : Type 0} ⦃fl : Float W⦄ where
  -- A decision that was accepted, and the state that it left.
  abbrev pub IsDecided : HitlDecision → AgentState W → AgentState W × Bool → Type 0
  IsDecided body s (s', enqueued) =
      (enqueued ≡ body.approved)
      × (s'.human_approved ≡ some body.approved)
      × (s'.lead ≡ s.lead)
      × (((body.approved ≡ true)
            × (s'.status ≡ Status.queued)
            × (s'.confidence_score ≡ fl.literal 100))
          ⊎ ((body.approved ≡ false) × (s'.status ≡ Status.error)))

  approve_lead-cases :
      (s : AgentState W) (tenant_id : String) (body : HitlDecision) (s' : AgentState W)
      (enqueued : Bool)
      → approve_lead (some s) tenant_id body ≡ ok (s', enqueued)
      → IsDecided body s (s', enqueued)
  unfolding approve_lead approved_state rejected_state
  approve_lead-cases s tenant_id body s' enqueued h = ground arith

  -- A decision is accepted only from the lead's tenant and only for a run that waits for review. An
  -- approval queues the run with confidence 1.0 and enqueues its resumption; a rejection ends it with
  -- status error.
  pub approve_lead-IsDecided :
      (snapshot : Option (AgentState W)) (tenant_id : String) (body : HitlDecision)
      (r : AgentState W × Bool)
      → approve_lead snapshot tenant_id body ≡ ok r
      → (s : AgentState W) × (snapshot ≡ some s)
        × (s.lead.tenant_id ≡ tenant_id)
        × (s.status ≡ Status.pending_review)
        × IsDecided body s r
  unfolding approve_lead
  approve_lead-IsDecided none tenant_id body r h = absurd (ground arith)
  approve_lead-IsDecided (some s) tenant_id body (s', enqueued) h =
      let owner : str_eq s.lead.tenant_id tenant_id ≡ true = ground arith in
      let pending : is_pending_review s.status ≡ true = ground arith in
      (
        s,
        refl,
        (eq_iff s.lead.tenant_id tenant_id).0 owner,
        pending_review_lem s.status pending,
        approve_lead-cases s tenant_id body s' enqueued h,
      )

  -- Whether a response carries a quote.
  abbrev pub has_quote : StatusResult W → Bool
  has_quote (quote total services on_request) = true
  has_quote _ = false

  status_result_lem :
      (s : AgentState W) (t : Status) → has_quote (status_result s t) ≡ is_completed t
  unfolding status_result
  status_result_lem s t = ground arith

  -- Polling answers queued where the thread has no checkpoint. Otherwise it answers only the lead's
  -- tenant, with the status of the checkpoint, and with a quote exactly when that is completed.
  pub get_lead_status-IsVisible :
      (snapshot : Option (AgentState W)) (tenant_id : String) (r : LeadStatus W)
      → get_lead_status snapshot tenant_id ≡ ok r
      → ((snapshot ≡ none) × (r.status ≡ Status.queued) × (has_quote r.result ≡ false))
        ⊎ ((s : AgentState W) × (snapshot ≡ some s)
            × (s.lead.tenant_id ≡ tenant_id)
            × (r.status ≡ s.status)
            × (has_quote r.result ≡ is_completed s.status))
  unfolding get_lead_status
  get_lead_status-IsVisible none tenant_id r h = inl (ground arith)
  get_lead_status-IsVisible (some s) tenant_id r h =
      let owner : str_eq s.lead.tenant_id tenant_id ≡ true = ground arith in
      inr (
        s,
        refl,
        (eq_iff s.lead.tenant_id tenant_id).0 owner,
        ground arith,
        ground (arith, status_result_lem s s.status),
      )
