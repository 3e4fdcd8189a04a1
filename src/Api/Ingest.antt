-- ===== src/Api/Ingest.antt =====
-- backend/api/routes.py: the stream of an ingestion run, and the approval that resumes one. What the
-- engine does with a decision on a run that is not suspended is a parameter, and so is `json.dumps`.
pub mod Stream
pub mod Decisions
use ai_lead_qualifier.Prelude.{
  ℕ, zero, suc, ◌+◌, String, Bool, true, false, Option, none, some, List, [], ◌∷◌, ◌++◌, map, drop,
  length, not, or_else, str_eq, if◌then◌else◌,
}
use ai_lead_qualifier.Float.{Float}
use ai_lead_qualifier.Core.Text.{f_string, is_empty_text, join}
use ai_lead_qualifier.Core.Exceptions.{Answer, ok, raised, Exc, is_value_error, http_error, ◌>>=◌}
use ai_lead_qualifier.Core.Config.{Settings}
use ai_lead_qualifier.Database.Catalogue.{Table}
use ai_lead_qualifier.Ingestion.State.{IngestionState, Services}
use ai_lead_qualifier.Ingestion.Validator.{Decision, ReviewPayload}
use ai_lead_qualifier.Ingestion.Pipeline.Snapshots.{last_of}
use ai_lead_qualifier.Ingestion.Pipeline.{Outcome, finished, suspended, crashed, resume}

-- `_format_sse`
unfoldable pub format_sse : String → Option String → String
format_sse payload event =
    let lines = f_string ("data: " ∷ payload ∷ []) ∷ "" ∷ [] in
    f_string (
      join "\n" (
        if is_empty_text (or_else event "")
        then lines
        else f_string ("event: " ∷ or_else event "" ∷ []) ∷ lines)
      ∷ "\n"
      ∷ [])

-- The dict of the last event.
pub record Done : Type 0 where
  pub thread_id : String
  pub tenant_id : String
  pub total_items : ℕ
  pub flagged_count : ℕ
  pub validation_errors : List String
  pub error : Option String

-- The events that the generator yields, before their dicts are written as JSON.
pub data Event (W : Type 0) : Type 0 where
  log_event : String → Event W
  interrupt_event : String → String → Option (ReviewPayload W) → Event W
  error_event : String → String → String → Event W
  done_event : Done → Event W

-- How the engine's stream of snapshots ends: it is exhausted, it raises GraphInterrupt with the value of
-- its first interrupt, or it raises something else.
pub data Ending (W : Type 0) : Type 0 where
  exhausted : Ending W
  graph_interrupt : Option (ReviewPayload W) → Ending W
  failed : Exc → Ending W

module _ {W : Type 0} where
  -- The loop over the snapshots, after `emitted_log_count` lines.
  pub emit_logs : ℕ → List (IngestionState W) → List (Event W)
  emit_logs emitted_log_count [] = []
  emit_logs emitted_log_count (snapshot ∷ snapshots) =
      let new_logs = drop emitted_log_count snapshot.sse_logs in
      map log_event new_logs ++ emit_logs (emitted_log_count + length new_logs) snapshots

  pub done_of : String → String → IngestionState W → Event W
  done_of thread_id tenant_id state = done_event (record {
    thread_id = thread_id;
    tenant_id = tenant_id;
    total_items = length state.normalized_items;
    flagged_count = length state.flagged_items;
    validation_errors = state.validation_errors;
    error = state.error;
  })

  -- The last event. `pending` is what the interrupts of the checkpoint are; a failure to read it counts
  -- as none.
  pub close_stream :
      String → String → IngestionState W → Ending W → Answer (List (ReviewPayload W)) → Event W
  unfolding done_of
  close_stream thread_id tenant_id state (graph_interrupt payload) pending =
      interrupt_event thread_id tenant_id payload
  close_stream thread_id tenant_id state (failed exc) pending =
      error_event exc.message tenant_id thread_id
  close_stream thread_id tenant_id state exhausted (ok (payload ∷ rest)) =
      interrupt_event thread_id tenant_id (some payload)
  close_stream thread_id tenant_id state exhausted (ok []) = done_of thread_id tenant_id state
  close_stream thread_id tenant_id state exhausted (raised e) = done_of thread_id tenant_id state

  unfoldable pub ingest_sse_generator :
      String
      → String
      → IngestionState W
      → List (IngestionState W)
      → Ending W
      → Answer (List (ReviewPayload W))
      → List (Event W)
  unfolding emit_logs close_stream
  ingest_sse_generator thread_id tenant_id initial_state snapshots ending pending =
      emit_logs 0 snapshots
      ++ close_stream thread_id tenant_id (last_of initial_state snapshots) ending pending ∷ []

-- `thread_id` of a stream, for a new UUID.
pub ingest_thread_id : String → String → String
ingest_thread_id tenant_id uuid = f_string ("ingest-" ∷ tenant_id ∷ "-" ∷ uuid ∷ [])

pub record ApprovalDecision : Type 0 where
  pub approved : Bool
  pub feedback : Option String

pub record ApprovalResponse : Type 0 where
  pub thread_id : String
  pub status : String
  pub total_items : ℕ
  pub flagged_count : ℕ
  pub validation_errors : List String
  pub error : Option String

-- The checkpoint of a thread, and whether its run waits for a decision.
pub record Snapshot (W : Type 0) : Type 0 where
  pub state : IngestionState W
  pub waits : Bool

-- `except ValueError`, and `except Exception`
abbrev pub approval_failure : String → Exc → Exc
approval_failure thread_id exc =
    if is_value_error exc.kind
    then http_error 404 (f_string ("Nessuna run sospesa per thread_id='" ∷ thread_id ∷ "'." ∷ []))
    else http_error 500 exc.message

module _ {W : Type 0} where
  abbrev pub to_response : String → Bool → IngestionState W → ApprovalResponse
  to_response thread_id approved state = record {
    thread_id = thread_id;
    status = if approved then "completed" else "rejected";
    total_items = length state.normalized_items;
    flagged_count = length state.flagged_items;
    validation_errors = state.validation_errors;
    error = state.error;
  }

  -- The answer and the catalogue after the resumed run. It does not suspend again.
  pub after_resume : String → Bool → Outcome W → Answer ApprovalResponse × Table W
  after_resume thread_id approved (finished state table) =
      (ok (to_response thread_id approved state), table)
  after_resume thread_id approved (suspended state table payload) =
      (ok (to_response thread_id approved state), table)
  after_resume thread_id approved (crashed exc state table) =
      (raised (approval_failure thread_id exc), table)

module _ {W : Type 0} ⦃fl : Float W⦄ (settings : Settings W) (services : ℕ → Services W)
    (repr : Option String → String) (recursion_limit : ℕ)
    (idle : Decision → IngestionState W → Table W → Outcome W) where
  pub resume_snapshot : Decision → Snapshot W → Table W → Outcome W
  unfolding resume
  resume_snapshot decision snapshot table =
      if snapshot.waits
      then resume settings services repr recursion_limit decision snapshot.state table
      else idle decision snapshot.state table

  unfoldable pub approve_ingestion :
      String
      → ApprovalDecision
      → String
      → Option (Snapshot W)
      → Table W
      → Answer ApprovalResponse × Table W
  unfolding resume_snapshot after_resume
  approve_ingestion thread_id body tenant_id none table = (
    raised
        (http_error 404 (f_string ("Nessuna run trovata per thread_id='" ∷ thread_id ∷ "'." ∷ []))),
    table,
  )
  approve_ingestion thread_id body tenant_id (some snapshot) table =
      if not (str_eq snapshot.state.tenant_id tenant_id)
      then (raised (http_error 403 "Accesso negato."), table)
      else after_resume thread_id body.approved (
          resume_snapshot
            (record { approved = body.approved; feedback = some (or_else body.feedback "") })
            snapshot table)
