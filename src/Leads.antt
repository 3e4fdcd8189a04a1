-- ===== src/Leads.antt =====
-- backend/worker/tasks.py and backend/api/routes.py: a lead's run in the worker, its review by the API
-- and the resumed run. A thread's checkpoint is the state that the last superstep or update wrote.
-- LangGraph applies an update as the node that wrote last, which is the evaluator for a run that waits
-- for review, so the run goes on along the evaluator's edges.
pub mod Review
pub mod Settling
mod Tests
use ai_lead_qualifier.Prelude.{
  ℕ, String, Bool, true, false, Option, none, some, List, [], ◌∷◌, not, or_else, str_eq,
  if◌then◌else◌,
}
use ai_lead_qualifier.Float.{Float}
use ai_lead_qualifier.Core.Text.{f_string}
use ai_lead_qualifier.Core.Exceptions.{Answer, ok, raised, Exc, http_error, type_name}
use ai_lead_qualifier.Core.Config.{Settings}
use ai_lead_qualifier.Agents.State.{AgentState, LeadContext, Status, DeliveryStatus, MappedService}
use ai_lead_qualifier.Graph.{
  World, Outcome, finished, interrupted, crashed, evaluator, next, run, ainvoke,
}

-- The lead that `ingest_lead` enqueues, for the lead id that it uses, and its thread.
pub lead_context : String → String → String → LeadContext
lead_context lead_id tenant_id raw_text = record {
  lead_id = lead_id;
  tenant_id = tenant_id;
  raw_payload = ("text", raw_text) ∷ [];
  metadata = [];
}

pub thread_id : String → String → String
thread_id tenant_id lead_id = f_string ("qualify-" ∷ tenant_id ∷ "-" ∷ lead_id ∷ [])

abbrev pub is_pending_review : Status → Bool
is_pending_review Status.pending_review = true
is_pending_review _ = false

-- `result` of the polling response.
pub data StatusResult (W : Type 0) : Type 0 where
  no_result : StatusResult W
  quote : W → List (MappedService W) → List String → StatusResult W
  review : W → List String → List (MappedService W) → StatusResult W

pub record LeadStatus (W : Type 0) : Type 0 where
  pub status : Status
  pub result : StatusResult W
  pub error_detail : Option String

pub record HitlDecision : Type 0 where
  pub approved : Bool
  pub feedback : Option String

module _ {W : Type 0} ⦃fl : Float W⦄ where
  pub status_result : AgentState W → Status → StatusResult W
  status_result state Status.completed =
      quote state.total_quote state.mapped_services state.on_request_services
  status_result state Status.pending_review =
      review state.confidence_score state.extracted_services state.mapped_services
  status_result state _ = no_result

  -- On the snapshot of the thread, if it has one.
  unfoldable pub get_lead_status : Option (AgentState W) → String → Answer (LeadStatus W)
  unfolding status_result
  get_lead_status none tenant_id =
      ok (record { status = Status.queued; result = no_result; error_detail = none })
  get_lead_status (some state) tenant_id =
      if not (str_eq state.lead.tenant_id tenant_id)
      then raised (http_error 403 "Accesso negato.")
      else ok (record {
        status = state.status;
        result = status_result state state.status;
        error_detail = state.error_detail;
      })

  pub approved_state : AgentState W → Option String → AgentState W
  approved_state state feedback = record state {
    human_approved = some true;
    review_feedback = feedback;
    status = Status.queued;
    confidence_score = fl.literal 100;
  }

  pub rejected_state : AgentState W → Option String → AgentState W
  rejected_state state feedback = record state {
    human_approved = some false;
    review_feedback = feedback;
    status = Status.error;
    error_detail = some "Rifiutato dall'operatore.";
  }

  -- The state that it writes, and whether it enqueues `run_qualification_task_resume`.
  unfoldable pub approve_lead :
      Option (AgentState W) → String → HitlDecision → Answer (AgentState W × Bool)
  unfolding approved_state rejected_state
  approve_lead none tenant_id body = raised (http_error 404 "Job non trovato.")
  approve_lead (some state) tenant_id body =
      if not (str_eq state.lead.tenant_id tenant_id)
      then raised (http_error 403 "Accesso negato.")
      else if not (is_pending_review state.status)
      then raised (http_error 409 "Job non in pending_review.")
      else if not body.approved
      then ok (rejected_state state body.feedback, false)
      else ok (approved_state state body.feedback, true)

  -- `initial_state` of `run_qualification_task`.
  unfoldable pub initial_state : LeadContext → AgentState W
  initial_state lead = record {
    lead = lead;
    messages = [];
    retrieved_docs = [];
    confidence_score = fl.literal 0;
    human_approved = none;
    review_feedback = none;
    status = Status.processing;
    error_detail = none;
    sanitized_text = "";
    extracted_services = [];
    mapped_services = [];
    total_quote = fl.literal 0;
    on_request_services = [];
    retry_count = 0;
    delivery_status = DeliveryStatus.pending;
    delivery_attempts = 0;
    delivery_error = none;
  }

  -- `update` is the database's answer to `aupdate_state`; its failure is swallowed.
  pub update_state_on_crash : Answer (Unit {0}) → AgentState W → Exc → AgentState W
  update_state_on_crash (ok done) state exc = record state {
    status = Status.error;
    error_detail = some (type_name exc.kind);
  }
  update_state_on_crash (raised failure) state exc = state

  -- The checkpoint that a task leaves, and its answer: the exception is raised again.
  pub after_run : Answer (Unit {0}) → Outcome W → AgentState W × Answer String
  unfolding update_state_on_crash
  after_run update (finished s) = (s, ok "completed")
  after_run update (interrupted s payload) = (s, ok "completed")
  after_run update (crashed exc s) = (update_state_on_crash update s exc, raised exc)

  module _ (settings : Settings W) (world : World W) (recursion_limit : ℕ) where
    -- From the lead and the graph on: where these cannot be had, the task raises before it touches the
    -- checkpoint.
    unfoldable pub run_qualification_task :
        Answer (Unit {0}) → LeadContext → AgentState W × Answer String
    unfolding after_run
    run_qualification_task update lead =
        after_run update (ainvoke settings world recursion_limit (initial_state lead))

    -- On the state that `approve_lead` wrote.
    unfoldable pub resume_run : AgentState W → Outcome W
    resume_run state = run settings world recursion_limit 0 (next settings evaluator state) state

    unfoldable pub run_qualification_task_resume :
        Answer (Unit {0}) → AgentState W → AgentState W × Answer String
    unfolding after_run resume_run
    run_qualification_task_resume update state = after_run update (resume_run state)
