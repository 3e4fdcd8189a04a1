-- ===== src/Api/Ingest/Decisions.antt =====
-- Who can let a suspended run write to the catalogue.
use ai_lead_qualifier.Prelude.{
  ℕ, String, Bool, true, Option, some, ◌≡◌, refl, ◌∙◌, ◌⊎◌, inl, inr, or_else, str_eq, eq_iff,
  Bool-cases, arith,
}
use ai_lead_qualifier.Float.{Float}
use ai_lead_qualifier.Core.Config.{Settings}
use ai_lead_qualifier.Database.Catalogue.{Table}
use ai_lead_qualifier.Ingestion.State.{IngestionState, Services}
use ai_lead_qualifier.Ingestion.Validator.{Decision}
use ai_lead_qualifier.Ingestion.Pipeline.{Outcome, resume}
use ai_lead_qualifier.Ingestion.Pipeline.Approval.{table_of, resume_rejected}
use ai_lead_qualifier.Api.Ingest.{
  Snapshot, ApprovalDecision, after_resume, resume_snapshot, approve_ingestion,
}

module _ {W : Type 0} ⦃fl : Float W⦄ (settings : Settings W) (services : ℕ → Services W)
    (repr : Option String → String) (limit : ℕ)
    (idle : Decision → IngestionState W → Table W → Outcome W) where
  after_resume-table :
      (thread_id : String) (approved : Bool) (o : Outcome W)
      → (after_resume thread_id approved o).1 ≡ table_of o
  unfolding after_resume
  after_resume-table thread_id approved o = ground arith

  -- On a thread whose run waits for a decision: the catalogue changes only where the decision approves
  -- the run and comes from the run's tenant, whatever the route answers.
  pub approve_ingestion-IsAllowed :
      (thread_id tenant_id : String) (body : ApprovalDecision) (snapshot : Snapshot W)
      (table : Table W)
      → snapshot.waits ≡ true
      → ((approve_ingestion settings services repr limit idle thread_id body tenant_id
            (some snapshot)
            table).1
          ≡ table)
        ⊎ ((body.approved ≡ true) × (snapshot.state.tenant_id ≡ tenant_id))
  unfolding approve_ingestion resume_snapshot
  approve_ingestion-IsAllowed thread_id tenant_id body snapshot table w =
      elim (Bool-cases (str_eq snapshot.state.tenant_id tenant_id)) [
        | inr other ↦ rw (other, approve_ingestion) (inl refl)
        | inl owner ↦ elim (Bool-cases body.approved) [
          | inl agreed ↦ inr (agreed, (eq_iff snapshot.state.tenant_id tenant_id).0 owner)
          | inr refused ↦
              let decision : Decision = record {
                approved = body.approved;
                feedback = some (or_else body.feedback "");
              } in
              rw (owner, w, approve_ingestion)
                (inl (
                  after_resume-table thread_id body.approved
                    (resume settings services repr limit decision snapshot.state table)
                  ∙ resume_rejected settings services table repr limit decision snapshot.state
                      refused))
        ]
      ]
