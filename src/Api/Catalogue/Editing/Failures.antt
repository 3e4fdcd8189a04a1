-- ===== src/Api/Catalogue/Editing/Failures.antt =====
-- An update that fails.
use ai_lead_qualifier.Prelude.{String, Bool, true, false, List, ◌≡◌, ◌⊎◌, inl, inr, arith}
use ai_lead_qualifier.Float.{Float}
use ai_lead_qualifier.Core.Exceptions.{raised, Exc, Answer-cases}
use ai_lead_qualifier.Database.Catalogue.{Row}
use ai_lead_qualifier.Api.Catalogue.{
  StoredRow, Store, CatalogueItemPatch, patchable, needs_reembedding,
}
use ai_lead_qualifier.Api.Catalogue.Editing.{
  Calls, enqueue_update, write_update, transaction, after_transaction, commit_update, plan_patch,
  patch_catalogue_item,
}

module _ {W : Type 0} ⦃fl : Float W⦄ (repr : W → String) (calls : Calls) where
  enqueue_update_raised :
      (item_id id tenant_id : String) (queued : Bool) (updated : Row W) (store after : Store W)
      (e : Exc)
      → enqueue_update calls item_id id tenant_id queued updated store ≡ (after, raised e)
      → calls.enqueue_job ≡ raised e
  unfolding enqueue_update
  enqueue_update_raised item_id id tenant_id false updated store after e h = absurd (ground arith)
  enqueue_update_raised item_id id tenant_id true updated store after e h =
      elim (Answer-cases calls.enqueue_job) [
        | inr (x, q) ↦ ground arith
        | inl (done, q) ↦ absurd (ground arith)
      ]

  -- An update that fails has changed nothing, unless the failure is the queue's.
  pub patch_catalogue_item_raised :
      (item_id tenant_id : String) (body : CatalogueItemPatch W) (seen : List (StoredRow W))
      (store after : Store W) (e : Exc)
      → patch_catalogue_item repr calls item_id body tenant_id seen store ≡ (after, raised e)
      → (after ≡ store) ⊎ (calls.enqueue_job ≡ raised e)
  unfolding patch_catalogue_item commit_update after_transaction
  patch_catalogue_item_raised item_id tenant_id body seen store after e h =
      elim (Answer-cases (plan_patch repr calls item_id body tenant_id seen)) [
        | inr (x, p) ↦ inl (ground arith)
        | inl ((us, (id, existing)), p) ↦
            elim (Answer-cases (transaction repr calls id tenant_id (patchable us) store)) [
              | inr (x, t) ↦ inl (ground arith)
              | inl (updated, t) ↦ inr (
                  enqueue_update_raised item_id id tenant_id (needs_reembedding us) updated
                    (write_update repr calls id tenant_id (patchable us) existing store) after e
                    (ground arith))
            ]
      ]
