-- ===== src/Ingestion/Pipeline/Snapshots.antt =====
-- The states that a run passes through, as `graph.astream(…, stream_mode="values")` yields them after
-- its input. Their logs only grow.
use ai_lead_qualifier.Prelude.{ℕ, zero, suc, List, [], ◌∷◌, ◌≡◌, refl}
use ai_lead_qualifier.Float.{Float}
use ai_lead_qualifier.Core.Exceptions.{Answer, ok, raised}
use ai_lead_qualifier.Core.Config.{Settings}
use ai_lead_qualifier.Database.Catalogue.{Table}
use ai_lead_qualifier.Ingestion.State.{IngestionState, Services}
use ai_lead_qualifier.Ingestion.Nodes.{chunker_node, normalizer_node}
use ai_lead_qualifier.Ingestion.Nodes.Logs.{
  Appends, AppendsIf, chunker_node-Appends, normalizer_node-Appends,
}
use ai_lead_qualifier.Ingestion.Validator.{validator_node}
use ai_lead_qualifier.Ingestion.Finalizer.{finalizer_node}
use ai_lead_qualifier.Ingestion.Finalizer.Writes.{finalizer_node-Appends}
use ai_lead_qualifier.Ingestion.Pipeline.{
  Node, chunker, normalizer, validator, approval, finalizer, finish, Outcome, finished, suspended,
  crashed, route_after_normalizer, route_after_validator, advance, run, ingest,
}

-- Each state's log goes on from that of the one before it.
pub data Grows {W : Type 0} : IngestionState W → List (IngestionState W) → Type 0 where
  ends : {s : IngestionState W} → Grows s []
  goes_on :
      {s s' : IngestionState W} {later : List (IngestionState W)}
      → Appends s s'
      → Grows s' later
      → Grows s (s' ∷ later)

abbrev pub state_of : {W : Type 0} → Outcome W → IngestionState W
state_of (finished s table) = s
state_of (suspended s table payload) = s
state_of (crashed exc s table) = s

abbrev pub last_of : {W : Type 0} → IngestionState W → List (IngestionState W) → IngestionState W
last_of s [] = s
last_of s (s' ∷ later) = last_of s' later

module _ {W : Type 0} ⦃fl : Float W⦄ (settings : Settings W) (services : ℕ → Services W)
    (table : Table W) where
  -- The state of a node that returned, and what follows it.
  abbrev prepend :
      (IngestionState W → List (IngestionState W))
      → Answer (IngestionState W)
      → List (IngestionState W)
  prepend rest (ok s') = s' ∷ rest s'
  prepend rest (raised exc) = []

  -- The states after the supersteps of `run`.
  pub snapshots : ℕ → ℕ → Node → IngestionState W → List (IngestionState W)
  snapshots left i finish s = []
  snapshots zero i node s = []
  snapshots (suc left) i chunker s =
      let s' = chunker_node (services i) settings s in s' ∷ snapshots left (suc i) normalizer s'
  snapshots (suc left) i normalizer s =
      prepend (λ s'. snapshots left (suc i) (route_after_normalizer s') s')
        (normalizer_node (services i) s)
  snapshots (suc left) i validator s =
      let s' = validator_node s in s' ∷ snapshots left (suc i) (route_after_validator s') s'
  snapshots (suc left) i approval s = []
  snapshots (suc left) i finalizer s = (finalizer_node (services i) settings s table).0 ∷ []

  validator_node-Appends : (s : IngestionState W) → Appends s (validator_node s)
  unfolding validator_node
  validator_node-Appends s = (_, refl)

  -- The stream of a run, whose logs grow, ends in the state that the run ends in.
  pub record IsStream (s : IngestionState W) (later : List (IngestionState W)) (o : Outcome W)
      : Type 0 where
    pub grows : Grows s later
    pub last : last_of s later ≡ state_of o

  advance-IsStream :
      (rest : IngestionState W → List (IngestionState W)) (run_on : IngestionState W → Outcome W)
      (s : IngestionState W) (r : Answer (IngestionState W))
      → AppendsIf s r
      → ((s' : IngestionState W) → IsStream s' (rest s') (run_on s'))
      → IsStream s (prepend rest r) (advance settings services run_on s table r)
  advance-IsStream rest run_on s (ok s') a h = record {
    grows = goes_on a (h s').grows;
    last = (h s').last;
  }
  advance-IsStream rest run_on s (raised exc) a h = record { grows = ends; last = refl }

  snapshots-IsStream :
      (left i : ℕ) (n : Node) (s : IngestionState W)
      → IsStream s (snapshots left i n s) (run settings services left i n s table)
  unfolding snapshots run
  snapshots-IsStream zero i finish s = record { grows = ends; last = refl }
  snapshots-IsStream (suc left) i finish s = record { grows = ends; last = refl }
  snapshots-IsStream zero i chunker s = record { grows = ends; last = refl }
  snapshots-IsStream zero i normalizer s = record { grows = ends; last = refl }
  snapshots-IsStream zero i validator s = record { grows = ends; last = refl }
  snapshots-IsStream zero i approval s = record { grows = ends; last = refl }
  snapshots-IsStream zero i finalizer s = record { grows = ends; last = refl }
  snapshots-IsStream (suc left) i chunker s =
      let s' = chunker_node (services i) settings s in
      let rest = snapshots-IsStream left (suc i) normalizer s' in
      record {
        grows = goes_on (chunker_node-Appends (services i) s settings) rest.grows;
        last = rest.last;
      }
  snapshots-IsStream (suc left) i normalizer s =
      advance-IsStream _ _ s (normalizer_node (services i) s)
        (normalizer_node-Appends (services i) s)
        (λ s'. snapshots-IsStream left (suc i) (route_after_normalizer s') s')
  snapshots-IsStream (suc left) i validator s =
      let s' = validator_node s in
      let rest = snapshots-IsStream left (suc i) (route_after_validator s') s' in
      record { grows = goes_on (validator_node-Appends s) rest.grows; last = rest.last }
  snapshots-IsStream (suc left) i approval s = record { grows = ends; last = refl }
  snapshots-IsStream (suc left) i finalizer s = record {
    grows = goes_on (finalizer_node-Appends (services i) settings s table) ends;
    last = refl;
  }

  -- The supersteps of a whole run.
  pub ingest-IsStream :
      (limit : ℕ) (s : IngestionState W)
      → IsStream s (snapshots limit 0 chunker s) (ingest settings services limit s table)
  unfolding ingest
  ingest-IsStream limit s = snapshots-IsStream limit 0 chunker s
