-- ===== src/Api/Tests/Runs.antt =====
-- An ingestion run of three rows, streamed and decided.
use ai_lead_qualifier.Prelude.{true, false, none, some, [], ◌∷◌, ◌++◌, ◌≡◌, refl, ◌⊎◌}
use ai_lead_qualifier.Float.{Fixed, fixed_float}
use ai_lead_qualifier.Core.Text.{f_string, join}
use ai_lead_qualifier.Core.Exceptions.{ok}
use ai_lead_qualifier.Agents.Fixtures.{settings}
use ai_lead_qualifier.Database.Catalogue.{Table}
use ai_lead_qualifier.Ingestion.State.{IngestionState}
use ai_lead_qualifier.Ingestion.Fixtures.{services, start}
use ai_lead_qualifier.Ingestion.Pipeline.{chunker, finished, ingest}
use ai_lead_qualifier.Ingestion.Pipeline.Snapshots.{snapshots, state_of}
use ai_lead_qualifier.Api.Ingest.{
  Snapshot, ApprovalDecision, exhausted, close_stream, ingest_sse_generator, approve_ingestion,
  format_sse,
}
use ai_lead_qualifier.Api.Ingest.Stream.{is_closing, logs, ingest_sse_generator-logs}
use ai_lead_qualifier.Api.Ingest.Decisions.{approve_ingestion-IsAllowed}

abbrev no_rows : Table Fixed
no_rows = []

abbrev last : IngestionState Fixed
last = state_of (ingest settings (λ i. services) 5 start no_rows)

sse_frame : format_sse "riga" (some "log") ≡ "event: log\ndata: riga\n\n"
unfolding format_sse f_string join
sse_frame = refl

ingest_sse_generator-logs_example :
    (ingest_sse_generator "ingest-acme-1" "acme" start
        (start ∷ snapshots settings (λ i. services) no_rows 5 0 chunker start)
        exhausted
        (ok [])
      ≡ logs last.sse_logs ++ close_stream "ingest-acme-1" "acme" last exhausted (ok []) ∷ [])
    × (is_closing (close_stream "ingest-acme-1" "acme" last exhausted (ok [])) ≡ true)
ingest_sse_generator-logs_example =
    ingest_sse_generator-logs settings (λ i. services) no_rows "ingest-acme-1" "acme" 5 start
      exhausted (ok [])

abbrev waiting : Snapshot Fixed
waiting = record { state = start; waits = true }

abbrev rejection : ApprovalDecision
rejection = record { approved = false; feedback = none }

approve_ingestion-IsAllowed_example :
    ((approve_ingestion settings
        (λ i. services)
        (λ f. "None")
        5
        (λ d s t. finished s t)
        "ingest-acme-1"
        rejection
        "acme"
        (some waiting)
        no_rows).1
      ≡ no_rows)
    ⊎ ((false ≡ true) × (start.tenant_id ≡ "acme"))
approve_ingestion-IsAllowed_example =
    approve_ingestion-IsAllowed settings (λ i. services) (λ f. "None") 5 (λ d s t. finished s t)
      "ingest-acme-1" "acme" rejection waiting no_rows refl
