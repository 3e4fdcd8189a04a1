-- ===== src/Ingestion/Pipeline/Approval.antt =====
-- Nothing reaches the catalogue before a review that is due.
use ai_lead_qualifier.Prelude.{
  ℕ, zero, suc, String, true, false, Option, ◌≡◌, refl, sym, ◌⊎◌, is_empty, arith,
}
use mathlib.Core.Path.{subst}
use ai_lead_qualifier.Float.{Float, float_lt, ◌≼◌}
use ai_lead_qualifier.Core.Config.{Settings}
use ai_lead_qualifier.Database.Catalogue.{Table}
use ai_lead_qualifier.Ingestion.State.{IngestionState, Services}
use ai_lead_qualifier.Ingestion.Validator.{Decision, approval_node}
use ai_lead_qualifier.Ingestion.Pipeline.{
  Node, approval, finalizer, finish, Outcome, finished, suspended, crashed, route_after_approval,
  run, resume,
}

module _ {W : Type 0} ⦃fl : Float W⦄ where
  -- No item is flagged and the average confidence reaches 0.75.
  abbrev pub IsClean : IngestionState W → Type 0
  IsClean s = (fl.literal 75 ≼ s.confidence_score) × (is_empty s.flagged_items ≡ true)

  abbrev pub NeedsReview : IngestionState W → Type 0
  NeedsReview s =
      (float_lt s.confidence_score (fl.literal 75) ≡ true) ⊎ (is_empty s.flagged_items ≡ false)

  -- A run that finished without a review was clean; one that did not finish wrote nothing, and is
  -- suspended only where a review is due.
  abbrev pub IsGuarded : Table W → Outcome W → Type 0
  IsGuarded table (finished s t) = IsClean s
  IsGuarded table (suspended s t payload) = (t ≡ table) × NeedsReview s
  IsGuarded table (crashed exc s t) = t ≡ table

  abbrev pub table_of : Outcome W → Table W
  table_of (finished s t) = t
  table_of (suspended s t payload) = t
  table_of (crashed exc s t) = t

  rejected_ends :
      (repr : Option String → String) (decision : Decision) (s : IngestionState W)
      → decision.approved ≡ false
      → route_after_approval (approval_node repr decision s) ≡ finish
  unfolding approval_node route_after_approval
  rejected_ends repr decision s h = ground arith

  -- The state before a node, on a run that has not been reviewed.
  abbrev At : Node → IngestionState W → Type 0
  At approval s = NeedsReview s
  At finalizer s = IsClean s
  At finish s = IsClean s
  At _ s = Unit

  module _ (settings : Settings W) (services : ℕ → Services W) (table : Table W) where
    -- A rejected run, when it is resumed with any limit, leaves the catalogue as it was.
    pub resume_rejected :
        (repr : Option String → String) (limit : ℕ) (decision : Decision) (s : IngestionState W)
        → decision.approved ≡ false
        → (table_of (resume settings services repr limit decision s table)) ≡ table
    unfolding resume run
    resume_rejected repr zero decision s h = refl
    resume_rejected repr (suc zero) decision s h =
        subst
          (λ n.
            table_of (run settings services zero 1 n (approval_node repr decision s) table) ≡ table)
          (sym (rejected_ends repr decision s h)) refl
    resume_rejected repr (suc (suc left)) decision s h =
        subst
          (λ n.
            table_of (run settings services (suc left) 1 n (approval_node repr decision s) table)
            ≡ table)
          (sym (rejected_ends repr decision s h)) refl
