-- ===== src/Api/Catalogue/Editing/Answers.antt =====
-- What an update that is answered has done.
use ai_lead_qualifier.Prelude.{
  String, Bool, true, false, some, List, [], ◌∷◌, ◌++◌, ◌||◌, All, ◌≡◌, refl, sym, ◌∙◌, ap, ◌⊎◌,
  inl, inr, if◌then◌else◌, arith, append-nil,
}
use ai_lead_qualifier.Float.{Float}
use ai_lead_qualifier.Core.Exceptions.{ok, Answer-cases}
use ai_lead_qualifier.Database.Catalogue.{Row}
use ai_lead_qualifier.Api.Catalogue.{
  AuditRow, Store, CatalogueItemPatch, CatalogueItemPatchResponse, Update, fetch_item, set_columns,
  patchable, needs_reembedding, audit_rows, str_price, updates_of, coerce_price_for_price_type,
}
use ai_lead_qualifier.Api.Catalogue.Constraints.{fetch_item-update_items}
use ai_lead_qualifier.Api.Catalogue.Editing.{
  Calls, enqueue_update, write_update, transaction, after_transaction, commit_update, plan_patch,
  patch_catalogue_item, to_response,
}
use ai_lead_qualifier.Api.Catalogue.Editing.Auditing.{
  names, IsChange, audit_rows-IsChange, audit_rows-read, service_IsColumn, description_IsColumn,
  price_IsColumn,
}
use ai_lead_qualifier.Api.Catalogue.Editing.Plans.{
  is_given, plan_patch_lem, transaction_lem, needs_reembedding_lem,
}

module _ {W : Type 0} ⦃fl : Float W⦄ (repr : W → String) (calls : Calls) where
  -- What an answered call did to the store, which held the row `existing` of the item.
  pub record IsEdited (item_id tenant_id : String) (body : CatalogueItemPatch W)
      (store after : Store W) (r : CatalogueItemPatchResponse W) : Type 0 where
    pub id : String
    pub existing : Row W
    pub updated : Row W
    pub found : fetch_item id tenant_id store.items ≡ some existing
    pub stored : fetch_item id tenant_id after.items ≡ some updated
    pub queued : Bool
    pub answer : r ≡ to_response id updated queued
    pub queued_iff : queued ≡ (is_given body.service || is_given body.description)
    pub jobs : after.jobs ≡ store.jobs ++ (if queued then (item_id, tenant_id) ∷ [] else [])
    pub rows : List AuditRow
    pub logged : after.audit_log ≡ store.audit_log ++ rows
    pub changes : All (IsChange repr id) rows
    pub service : (names repr "service" rows ≡ true) ⊎ (updated.service ≡ existing.service)
    pub price :
        (names repr "price" rows ≡ true)
        ⊎ (str_price repr updated.price ≡ str_price repr existing.price)
    pub description :
        (names repr "description" rows ≡ true) ⊎ (updated.description ≡ existing.description)

  enqueue_update_lem :
      (item_id id tenant_id : String) (queued : Bool) (updated : Row W) (store after : Store W)
      (r : CatalogueItemPatchResponse W)
      → enqueue_update calls item_id id tenant_id queued updated store ≡ (after, ok r)
      → (r ≡ to_response id updated queued)
        × (after.items ≡ store.items)
        × (after.audit_log ≡ store.audit_log)
        × (after.jobs ≡ store.jobs ++ (if queued then (item_id, tenant_id) ∷ [] else []))
  unfolding enqueue_update
  enqueue_update_lem item_id id tenant_id false updated store after r h =
      ground (arith, append-nil store.jobs)
  enqueue_update_lem item_id id tenant_id true updated store after r h =
      elim (Answer-cases calls.enqueue_job) [
        | inr (e, q) ↦ absurd (ground arith)
        | inl (done, q) ↦ ground arith
      ]

  commit_update-IsEdited :
      (item_id id tenant_id : String) (body : CatalogueItemPatch W) (us : List (Update W))
      (existing : Row W) (store after : Store W) (r : CatalogueItemPatchResponse W)
      → us ≡ updates_of (coerce_price_for_price_type body)
      → fetch_item id tenant_id store.items ≡ some existing
      → commit_update repr calls item_id id tenant_id us existing store ≡ (after, ok r)
      → IsEdited item_id tenant_id body store after r
  unfolding commit_update after_transaction write_update
  commit_update-IsEdited item_id id tenant_id body us existing store after r u f h =
      let kept = patchable us in
      elim (Answer-cases (transaction repr calls id tenant_id kept store)) [
        | inr (e, t) ↦ absurd (ground arith)
        | inl (updated, t) ↦
            let written = write_update repr calls id tenant_id kept existing store in
            let set : updated ≡ set_columns kept existing =
              transaction_lem repr calls id tenant_id kept store updated existing t f in
            let (answer, items, log, jobs) =
              enqueue_update_lem item_id id tenant_id (needs_reembedding us) updated written after r
                (ground arith) in
            let rows : List AuditRow = audit_rows repr id existing kept in
            record {
              id = id;
              existing = existing;
              updated = updated;
              found = f;
              stored =
                  ap (fetch_item id tenant_id) items
                  ∙ fetch_item-update_items id tenant_id kept store.items existing f
                  ∙ ap some (sym set);
              queued = needs_reembedding us;
              answer = answer;
              queued_iff = ap needs_reembedding u ∙ needs_reembedding_lem body;
              jobs = jobs;
              rows = rows;
              logged = log;
              changes = audit_rows-IsChange repr id existing kept;
              service = rw set (
                  audit_rows-read repr "service" (λ row. row.service) id existing existing kept
                    (service_IsColumn repr) refl);
              price = rw set (
                  audit_rows-read repr "price" (λ row. str_price repr row.price) id existing
                    existing kept (price_IsColumn repr) refl);
              description = rw set (
                  audit_rows-read repr "description" (λ row. row.description) id existing existing
                    kept (description_IsColumn repr) refl);
            }
      ]

  -- An update that is answered, with no other transaction between its read and its write, has found
  -- the item of the tenant. The answer is the row that is stored then; a job for the embedding was
  -- enqueued exactly when a service or a description was given; the rows added to the audit log are
  -- of the item and their texts differ, and every column of service, price and description whose text
  -- changed is named by one.
  pub patch_catalogue_item-IsEdited :
      (item_id tenant_id : String) (body : CatalogueItemPatch W) (store after : Store W)
      (r : CatalogueItemPatchResponse W)
      → patch_catalogue_item repr calls item_id body tenant_id store.items store ≡ (after, ok r)
      → IsEdited item_id tenant_id body store after r
  unfolding patch_catalogue_item
  patch_catalogue_item-IsEdited item_id tenant_id body store after r h =
      elim (Answer-cases (plan_patch repr calls item_id body tenant_id store.items)) [
        | inr (e, p) ↦ absurd (ground arith)
        | inl ((us, (id, existing)), p) ↦
            let (updates, found) =
              plan_patch_lem repr calls item_id tenant_id id body store.items us existing p in
            commit_update-IsEdited item_id id tenant_id body us existing store after r updates found
              (ground arith)
      ]
