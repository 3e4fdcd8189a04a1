-- ===== src/Api/Catalogue/Editing.antt =====
-- backend/api/catalogue_routes.py: `patch_catalogue_item`. Another transaction can run between the
-- read of the item and its update, so both see a table of their own.
pub mod Pricing
pub mod Rule
pub mod Auditing
pub mod Plans
pub mod Answers
pub mod Failures
use ai_lead_qualifier.Prelude.{
  String, Bool, true, false, Option, none, some, List, [], ◌∷◌, ◌++◌, not, is_empty, if◌then◌else◌,
}
use ai_lead_qualifier.Float.{Float}
use ai_lead_qualifier.Core.Text.{f_string}
use ai_lead_qualifier.Core.Exceptions.{
  Answer, ok, raised, unique_violation_error, http_error, ◌>>=◌,
}
use ai_lead_qualifier.Database.Catalogue.{Row}
use ai_lead_qualifier.Api.Catalogue.{
  StoredRow, AuditRow, Store, CatalogueItemPatch, CatalogueItemPatchResponse, Update, fetch_item,
  set_columns, update_items, has_duplicate, patchable, needs_reembedding, chk_hybrid_pricing_logic,
  read_patch, updates_of, audit_rows,
}

-- What one call meets outside the program: asyncpg's reading of the id, the end of the transaction,
-- and the queue.
pub record Calls : Type 0 where
  pub parse_uuid : String → Answer String
  pub commit : Answer (Unit {0})
  pub enqueue_job : Answer (Unit {0})

module _ {W : Type 0} where
  abbrev pub to_response : String → Row W → Bool → CatalogueItemPatchResponse W
  to_response item_id updated queued = record {
    id = item_id;
    service = updated.service;
    price = updated.price;
    price_type = updated.price_type;
    description = updated.description;
    embedding_sync = if queued then "queued" else "not_needed";
  }

  -- The job is enqueued after the transaction, and what that raises comes too late for it.
  pub enqueue_update :
      Calls
      → String
      → String
      → String
      → Bool
      → Row W
      → Store W
      → Store W × Answer (CatalogueItemPatchResponse W)
  enqueue_update calls item_id id tenant_id false updated store =
      (store, ok (to_response id updated false))
  enqueue_update calls item_id id tenant_id true updated store = elim calls.enqueue_job [
    | raised e ↦ (store, raised e)
    | ok done ↦ (
      record store { jobs = store.jobs ++ (item_id, tenant_id) ∷ [] },
      ok (to_response id updated true),
    )
  ]

module _ {W : Type 0} ⦃fl : Float W⦄ (repr : W → String) (calls : Calls) where
  -- The UPDATE, and what the constraints of the table raise. The UniqueViolationError is not caught.
  pub check_update :
      String → String → List (Update W) → Option (Row W) → List (StoredRow W) → Answer (Row W)
  unfolding set_columns has_duplicate chk_hybrid_pricing_logic
  check_update item_id tenant_id updates none items = raised (http_error 404 "Item non trovato.")
  check_update item_id tenant_id updates (some row) items =
      let updated = set_columns updates row in
      if not (chk_hybrid_pricing_logic updated)
      then raised (http_error 422 "Combinazione price / price_type non valida.")
      else if has_duplicate item_id updated items
      then raised (record { kind = unique_violation_error; message = "tenant_id, service" })
      else ok updated

  pub write_update : String → String → List (Update W) → Row W → Store W → Store W
  unfolding update_items audit_rows
  write_update item_id tenant_id updates existing store = record store {
    items = update_items item_id tenant_id updates store.items;
    audit_log = store.audit_log ++ audit_rows repr item_id existing updates;
  }

  -- `id` is the id as the database has it. The row that the transaction commits.
  pub transaction : String → String → List (Update W) → Store W → Answer (Row W)
  unfolding check_update fetch_item
  transaction id tenant_id updates store = do
    updated ← check_update id tenant_id updates (fetch_item id tenant_id store.items) store.items
    _ ← calls.commit
    ok updated

  pub after_transaction :
      String
      → String
      → String
      → List (Update W)
      → Row W
      → Store W
      → Answer (Row W)
      → Store W × Answer (CatalogueItemPatchResponse W)
  unfolding write_update enqueue_update patchable needs_reembedding
  after_transaction item_id id tenant_id updates existing store (raised e) = (store, raised e)
  after_transaction item_id id tenant_id updates existing store (ok updated) =
      enqueue_update calls item_id id tenant_id (needs_reembedding updates) updated
        (write_update id tenant_id (patchable updates) existing store)

  pub commit_update :
      String
      → String
      → String
      → List (Update W)
      → Row W
      → Store W
      → Store W × Answer (CatalogueItemPatchResponse W)
  unfolding transaction after_transaction patchable
  commit_update item_id id tenant_id updates existing store =
      after_transaction item_id id tenant_id updates existing store
        (transaction id tenant_id (patchable updates) store)

  -- The row that the first query finds, where the call goes on.
  pub find_existing :
      String → String → List (Update W) → List (StoredRow W) → Answer (String × Row W)
  unfolding fetch_item patchable
  find_existing item_id tenant_id updates seen =
      if is_empty updates
      then raised
          (http_error 422 "Almeno un campo (service, price, description) deve essere fornito.")
      else calls.parse_uuid item_id >>= λ id. elim (fetch_item id tenant_id seen) [
        | none ↦ raised (
            http_error 404 (
              f_string
                ("Item '" ∷ item_id ∷ "' non trovato per il tenant '" ∷ tenant_id ∷ "'." ∷ [])))
        | some existing ↦
            if is_empty (patchable updates)
            then raised (http_error 422 "Nessun campo valido fornito.")
            else ok (id, existing)
      ]

  pub plan_patch :
      String
      → CatalogueItemPatch W
      → String
      → List (StoredRow W)
      → Answer (List (Update W) × (String × Row W))
  unfolding read_patch updates_of find_existing
  plan_patch item_id body tenant_id seen = do
    patch ← read_patch body
    found ← find_existing item_id tenant_id (updates_of patch) seen
    ok (updates_of patch, found)

  -- The table that the first query sees, and the store at the update.
  unfoldable pub patch_catalogue_item :
      String
      → CatalogueItemPatch W
      → String
      → List (StoredRow W)
      → Store W
      → Store W × Answer (CatalogueItemPatchResponse W)
  unfolding plan_patch commit_update
  patch_catalogue_item item_id body tenant_id seen store =
      elim (plan_patch item_id body tenant_id seen) [
        | raised e ↦ (store, raised e)
        | ok (updates, (id, existing)) ↦ commit_update item_id id tenant_id updates existing store
      ]
