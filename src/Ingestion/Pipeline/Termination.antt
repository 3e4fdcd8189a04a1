-- ===== src/Ingestion/Pipeline/Termination.antt =====
-- An ingestion run ends within a bound on its supersteps.
use ai_lead_qualifier.Prelude.{ℕ, zero, suc, ◌+◌, ◌-◌, ◌≤◌, ◌<◌, ◌≡◌, inl, inr, length, arith}
use Prim.Native.Nat.{max}
use ai_lead_qualifier.Float.{Float, FloatLaws}
use ai_lead_qualifier.Core.Exceptions.{ok, raised, Answer-cases}
use ai_lead_qualifier.Core.Config.{Settings}
use ai_lead_qualifier.Database.Catalogue.{Table}
use ai_lead_qualifier.Ingestion.State.{IngestionState, Services}
use ai_lead_qualifier.Ingestion.Nodes.{chunker_node, normalizer_node}
use ai_lead_qualifier.Ingestion.Nodes.Steps.{normalizer_node-IsStep}
use ai_lead_qualifier.Ingestion.Validator.{validator_node}
use ai_lead_qualifier.Ingestion.Pipeline.{
  Node, chunker, normalizer, validator, approval, finalizer, finish, Outcome, finished, suspended,
  crashed, route_after_normalizer, route_after_validator, run, ingest,
}

-- The chunker does not run twice.
abbrev IsActive : Node → Type 0
IsActive chunker = ⊥
IsActive _ = Unit

module _ {W : Type 0} ⦃fl : Float W⦄ where
  -- An upper bound on the supersteps that are left.
  abbrev pub bound : Node → IngestionState W → ℕ
  bound normalizer s = max 1 (length s.raw_chunks - s.current_chunk_index) + 2
  bound validator s = 2
  bound approval s = 1
  bound finalizer s = 1
  bound finish s = 0
  bound chunker s = 0

  route_after_validator-IsActive : (s : IngestionState W) → IsActive (route_after_validator s)
  unfolding route_after_validator
  route_after_validator-IsActive s = ground arith

  route_after_normalizer-IsActive : (s : IngestionState W) → IsActive (route_after_normalizer s)
  unfolding route_after_normalizer
  route_after_normalizer-IsActive s = ground arith

  module _ (laws : FloatLaws W) (settings : Settings W) (services : ℕ → Services W)
      (table : Table W) where
    -- A run that was suspended or finished, or that ended because the normalizer raised.
    abbrev pub EndsProperly : Outcome W → Type 0
    EndsProperly (finished s t) = Unit
    EndsProperly (suspended s t payload) = Unit
    EndsProperly (crashed exc s t) = (i : ℕ) × (normalizer_node (services i) s ≡ raised exc)

    normalizer_falls :
        (i : ℕ) (s s' : IngestionState W)
        → normalizer_node (services i) s ≡ ok s'
        → bound (route_after_normalizer s') s' < bound normalizer s
    unfolding route_after_normalizer
    normalizer_falls i s s' h =
        let step = normalizer_node-IsStep laws (services i) s s' h in
        ground (arith, step.counted, step.same_chunks)

    validator_falls : (s : IngestionState W) → bound (route_after_validator s) s ≤ 1
    unfolding route_after_validator
    validator_falls s = ground arith

    -- Where the run has not passed the limit, its end is proper.
    run-EndsProperly :
        (left i : ℕ) (n : Node) (s : IngestionState W)
        → IsActive n
        → bound n s ≤ left
        → EndsProperly (run settings services left i n s table)
    unfolding run
    run-EndsProperly zero i normalizer s a b = absurd (omega arith)
    run-EndsProperly zero i validator s a b = absurd (omega arith)
    run-EndsProperly zero i approval s a b = absurd (omega arith)
    run-EndsProperly zero i finalizer s a b = absurd (omega arith)
    run-EndsProperly zero i chunker s a b = absurd a
    run-EndsProperly (suc left) i chunker s a b = absurd a
    run-EndsProperly zero i finish s a b = tt
    run-EndsProperly (suc left) i finish s a b = tt
    run-EndsProperly (suc left) i approval s a b = tt
    run-EndsProperly (suc left) i finalizer s a b = tt
    run-EndsProperly (suc left) i validator s a b =
        run-EndsProperly left (suc i) (route_after_validator (validator_node s)) (validator_node s)
          (route_after_validator-IsActive (validator_node s))
          (omega (arith, validator_falls (validator_node s)))
    run-EndsProperly (suc left) i normalizer s a b =
        elim (Answer-cases (normalizer_node (services i) s)) [
          | inl (s', e) ↦
              let fall = normalizer_falls i s s' e in
              rw e (
                run-EndsProperly left (suc i) (route_after_normalizer s') s'
                  (route_after_normalizer-IsActive s') (omega arith))
          | inr (exc, e) ↦ rw e (i, e)
        ]

    -- With a recursion limit of at least three more than the number of chunks (or four, if the file has
    -- no rows) an ingestion run is suspended or finishes, unless the normalizer raises.
    pub ingest-EndsProperly :
        (limit : ℕ) (s : IngestionState W)
        → max 1 (length (chunker_node (services 0) settings s).raw_chunks) + 3 ≤ limit
        → EndsProperly (ingest settings services limit s table)
    unfolding ingest run
    ingest-EndsProperly zero s b = absurd (omega arith)
    ingest-EndsProperly (suc left) s b =
        run-EndsProperly left 1 normalizer (chunker_node (services 0) settings s) tt (ground arith)
