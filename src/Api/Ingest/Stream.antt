-- ===== src/Api/Ingest/Stream.antt =====
-- Every log line is sent once, in order, and then one closing event.
use ai_lead_qualifier.Prelude.{
  ℕ, ◌+◌, String, Bool, true, false, List, [], ◌∷◌, ◌++◌, map, drop, length, ◌≡◌, refl, sym, ◌∙◌,
  ap, append-nil, append_assoc, arith, length-append, map-append,
}
use ai_lead_qualifier.Core.Exceptions.{Answer}
use ai_lead_qualifier.Ingestion.State.{IngestionState}
use ai_lead_qualifier.Ingestion.Validator.{ReviewPayload}
use ai_lead_qualifier.Float.{Float}
use ai_lead_qualifier.Core.Config.{Settings}
use ai_lead_qualifier.Database.Catalogue.{Table}
use ai_lead_qualifier.Ingestion.State.{Services}
use ai_lead_qualifier.Ingestion.Pipeline.{ingest, chunker}
use ai_lead_qualifier.Ingestion.Pipeline.Snapshots.{
  Grows, ends, goes_on, last_of, state_of, snapshots, ingest-IsStream,
}
use ai_lead_qualifier.Api.Ingest.{
  Event, log_event, Ending, emit_logs, close_stream, ingest_sse_generator,
}

module _ {W : Type 0} where
  -- Whether an event closes the stream.
  abbrev pub is_closing : Event W → Bool
  is_closing (log_event line) = false
  is_closing _ = true

drop_prefix : (xs ys : List String) → drop (length xs) (xs ++ ys) ≡ ys
drop_prefix [] ys = refl
drop_prefix (x ∷ xs) ys = drop_prefix xs ys

module _ {W : Type 0} where
  abbrev pub logs : List String → List (Event W)
  logs lines = map log_event lines

  emit_logs_lem :
      (state : IngestionState W) (snapshots : List (IngestionState W))
      → Grows state snapshots
      → logs state.sse_logs ++ emit_logs (length state.sse_logs) snapshots
        ≡ logs (last_of state snapshots).sse_logs
  unfolding emit_logs
  emit_logs_lem state [] ends = append-nil (logs state.sse_logs)
  emit_logs_lem state (snapshot ∷ snapshots) (goes_on (more, e) g) =
      let before = state.sse_logs in
      let d : drop (length before) snapshot.sse_logs ≡ more =
        ap (drop (length before)) e ∙ drop_prefix before more in
      let n : length before + length more ≡ length snapshot.sse_logs =
        sym (ap length e ∙ length-append before more) in
      let later = emit_logs (length snapshot.sse_logs) snapshots in
      rw d (
        rw n (
          sym (append_assoc (logs before) (logs more) later)
          ∙ ap (λ xs. xs ++ later) (sym (map-append log_event before more) ∙ ap logs (sym e))
          ∙ emit_logs_lem snapshot snapshots g))

  is_closing-close_stream :
      (thread_id tenant_id : String) (state : IngestionState W) (ending : Ending W)
      (pending : Answer (List (ReviewPayload W)))
      → is_closing (close_stream thread_id tenant_id state ending pending) ≡ true
  unfolding close_stream
  is_closing-close_stream thread_id tenant_id state ending pending = ground arith

module _ {W : Type 0} ⦃fl : Float W⦄ (settings : Settings W) (services : ℕ → Services W)
    (table : Table W) where
  -- However the stream of an ingestion run ends, the client is sent every log line of the run's last
  -- state, once and in order, and then one event that closes the stream, about that state.
  pub ingest_sse_generator-logs :
      (thread_id tenant_id : String) (limit : ℕ) (s : IngestionState W) (ending : Ending W)
      (pending : Answer (List (ReviewPayload W)))
      → (ingest_sse_generator thread_id tenant_id s
            (s ∷ snapshots settings services table limit 0 chunker s)
            ending
            pending
          ≡ logs (state_of (ingest settings services limit s table)).sse_logs
            ++ close_stream thread_id tenant_id
                (state_of (ingest settings services limit s table))
                ending
                pending
              ∷ [])
        × (is_closing (
              close_stream thread_id tenant_id
                (state_of (ingest settings services limit s table))
                ending
                pending)
            ≡ true)
  unfolding ingest_sse_generator emit_logs
  ingest_sse_generator-logs thread_id tenant_id limit s ending pending =
      let later = snapshots settings services table limit 0 chunker s in
      let stream = ingest-IsStream settings services table limit s in
      let z : 0 + length s.sse_logs ≡ length s.sse_logs = omega arith in
      (
        ap
              (λ n.
                (logs s.sse_logs ++ emit_logs n later)
                ++ close_stream thread_id tenant_id (last_of s later) ending pending ∷ [])
              z
            ∙ ap
                (λ xs. xs ++ close_stream thread_id tenant_id (last_of s later) ending pending ∷ [])
                (emit_logs_lem s later stream.grows)
            ∙ ap (λ t. logs t.sse_logs ++ close_stream thread_id tenant_id t ending pending ∷ [])
                stream.last,
        is_closing-close_stream thread_id tenant_id
            (state_of (ingest settings services limit s table)) ending pending,
      )
