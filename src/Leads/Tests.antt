-- ===== src/Leads/Tests.antt =====
-- A lead that is reviewed, on the settings of the other tests.
use ai_lead_qualifier.Prelude.{false, [], ◌⊎◌, ◌≡◌, refl, true, none, some, arith}
use ai_lead_qualifier.Float.{Fixed, fixed_float}
use ai_lead_qualifier.Core.Exceptions.{ok}
use ai_lead_qualifier.Agents.State.{AgentState, Status}
use ai_lead_qualifier.Agents.Fixtures.{
  settings, lead, fresh_state, regex, json, llm, embeddings, fetch,
}
use ai_lead_qualifier.Agents.Delivery.{console_adapter}
use ai_lead_qualifier.Graph.{World}
use ai_lead_qualifier.Leads.{
  LeadStatus, review, get_lead_status, HitlDecision, approve_lead, approved_state,
  run_qualification_task,
}
use ai_lead_qualifier.Leads.Review.{
  has_quote, is_completed, get_lead_status-IsVisible, IsDecided, approve_lead-IsDecided,
}
use ai_lead_qualifier.Leads.Settling.{IsSettled, run_qualification_task-IsSettled}

abbrev world : World Fixed
world = record {
  re = regex;
  json = json;
  llm = λ i. llm;
  embeddings = λ i. embeddings;
  fetch = λ i. fetch;
  adapter = λ i tenant. console_adapter;
}

abbrev waiting : AgentState Fixed
waiting = record fresh_state { status = Status.pending_review; retry_count = 2 }

abbrev yes : HitlDecision
yes = record { approved = true; feedback = none }

accepted : approve_lead (some waiting) "acme" yes ≡ ok (approved_state waiting none, true)
unfolding approve_lead
accepted = refl

approve_lead-IsDecided_example :
    (s : AgentState Fixed) × (some waiting ≡ some s)
    × (s.lead.tenant_id ≡ "acme")
    × (s.status ≡ Status.pending_review)
    × IsDecided yes s (approved_state waiting none, true)
approve_lead-IsDecided_example =
    approve_lead-IsDecided (some waiting) "acme" yes (approved_state waiting none, true) accepted

run_qualification_task-IsSettled_example :
    IsSettled settings world (run_qualification_task settings world 14 (ok tt) lead)
run_qualification_task-IsSettled_example =
    run_qualification_task-IsSettled settings world (omega arith) 14 lead

polled :
    get_lead_status (some waiting) "acme"
    ≡ ok (record { status = Status.pending_review; result = review 0 [] []; error_detail = none })
unfolding get_lead_status
polled = refl

abbrev polled_status : LeadStatus Fixed
polled_status = record {
  status = Status.pending_review;
  result = review 0 [] [];
  error_detail = none;
}

get_lead_status-IsVisible_example :
    ((some waiting ≡ none)
      × (polled_status.status ≡ Status.queued)
      × (has_quote polled_status.result ≡ false))
    ⊎ ((s : AgentState Fixed) × (some waiting ≡ some s)
        × (s.lead.tenant_id ≡ "acme")
        × (polled_status.status ≡ s.status)
        × (has_quote polled_status.result ≡ is_completed s.status))
get_lead_status-IsVisible_example =
    get_lead_status-IsVisible (some waiting) "acme" polled_status polled
