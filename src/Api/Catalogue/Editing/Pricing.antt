-- ===== src/Api/Catalogue/Editing/Pricing.antt =====
-- The table keeps its constraints under every update, and the rows of other tenants as they are.
use ai_lead_qualifier.Prelude.{
  String, Bool, true, false, some, List, [], ◌≡◌, refl, ◌⊎◌, inl, inr, Option-cases, Bool-cases,
  All, ◌∷◌, arith, ap, sym, ◌∙◌,
}
use mathlib.Core.Path.{subst}
use mathlib.Core.Option.{some-injective}
use ai_lead_qualifier.Float.{Float}
use ai_lead_qualifier.Core.Exceptions.{Answer, ok, raised, Answer-cases}
use ai_lead_qualifier.Database.Catalogue.{Row}
use ai_lead_qualifier.Api.Catalogue.{
  StoredRow, Store, CatalogueItemPatch, Update, fetch_item, set_columns, update_items,
  has_duplicate, patchable, needs_reembedding, chk_hybrid_pricing_logic, is_item, updates_of,
  coerce_price_for_price_type,
}
use ai_lead_qualifier.Api.Catalogue.Constraints.{
  is_priced, IsTable, others, others-update_items, update_items-HasUniqueIds,
  update_items-HasUniqueKeys, update_items-IsPriced,
}
use ai_lead_qualifier.Api.Catalogue.Editing.Plans.{plan_patch_lem}
use ai_lead_qualifier.Api.Catalogue.Editing.Rule.{set_columns-IsPriced}
use ai_lead_qualifier.Api.Catalogue.Editing.{
  Calls, enqueue_update, check_update, write_update, transaction, after_transaction, commit_update,
  plan_patch, patch_catalogue_item,
}

module _ {W : Type 0} ⦃fl : Float W⦄ (repr : W → String) (calls : Calls) where
  -- A call leaves the table as it is, or makes an update that the constraints admit.
  pub record IsUpdated (id tenant_id : String) (us : List (Update W))
      (before after : List (StoredRow W)) : Type 0 where
    pub row : Row W
    pub fetched : fetch_item id tenant_id before ≡ some row
    pub checked : chk_hybrid_pricing_logic (set_columns us row) ≡ true
    pub single : has_duplicate id (set_columns us row) before ≡ false
    pub written : after ≡ update_items id tenant_id us before

  write_update-items :
      (id tenant_id : String) (us : List (Update W)) (existing : Row W) (store : Store W)
      → (write_update repr calls id tenant_id us existing store).items
        ≡ update_items id tenant_id us store.items
  unfolding write_update
  write_update-items id tenant_id us existing store = refl

  -- The columns that an update writes.
  abbrev columns_of : CatalogueItemPatch W → List (Update W)
  columns_of body = patchable (updates_of (coerce_price_for_price_type body))

  fetch_item-All :
      (id tenant_id : String) (items : List (StoredRow W)) (row : Row W)
      → fetch_item id tenant_id items ≡ some row
      → All (λ stored. is_priced stored.row ≡ true) items
      → is_priced row ≡ true
  unfolding fetch_item
  fetch_item-All id tenant_id [] row f h = cc
  fetch_item-All id tenant_id (stored ∷ items) row f (first, h) =
      elim (Bool-cases (is_item id tenant_id stored)) [
        | inl this ↦ ap is_priced (sym (some-injective _ _ (rw this at f))) ∙ first
        | inr other ↦ fetch_item-All id tenant_id items row (rw other at f) h
      ]

  update_items-IsTable :
      (id tenant_id : String) (body : CatalogueItemPatch W) (before after : List (StoredRow W))
      → IsUpdated id tenant_id (columns_of body) before after
      → IsTable before
      → IsTable after
  update_items-IsTable id tenant_id body before after u t =
      let us = columns_of body in
      let ruled : is_priced u.row ≡ true =
        fetch_item-All id tenant_id before u.row u.fetched t.priced in
      rw u.written (record {
        ids = update_items-HasUniqueIds id tenant_id us before t.ids;
        keys =
            update_items-HasUniqueKeys id tenant_id us u.row before t.ids u.fetched u.single t.keys;
        priced =
            update_items-IsPriced id tenant_id us u.row before t.ids u.fetched
              (set_columns-IsPriced body u.row ruled u.checked) t.priced;
      })

  enqueue_update-items :
      (item_id id tenant_id : String) (queued : Bool) (updated : Row W) (store : Store W)
      → (enqueue_update calls item_id id tenant_id queued updated store).0.items ≡ store.items
  unfolding enqueue_update
  enqueue_update-items item_id id tenant_id queued updated store = ground arith

  transaction-IsUpdated :
      (id tenant_id : String) (us : List (Update W)) (store : Store W) (updated : Row W)
      → transaction repr calls id tenant_id us store ≡ ok updated
      → IsUpdated id tenant_id us store.items (update_items id tenant_id us store.items)
  unfolding transaction check_update
  transaction-IsUpdated id tenant_id us store updated h =
      elim (Option-cases (fetch_item id tenant_id store.items)) [
        | inl n ↦ absurd (ground arith)
        | inr (row, f) ↦ record {
          row = row;
          fetched = f;
          checked = ground arith;
          single = ground arith;
          written = refl;
        }
      ]

  abbrev IsKept :
      String → String → List (Update W) → List (StoredRow W) → List (StoredRow W) → Type 0
  IsKept id tenant_id us before after = (after ≡ before) ⊎ IsUpdated id tenant_id us before after

  after_transaction-IsKept :
      (item_id id tenant_id : String) (us : List (Update W)) (existing : Row W) (store : Store W)
      (r : Answer (Row W))
      → transaction repr calls id tenant_id (patchable us) store ≡ r
      → IsKept id tenant_id
          (patchable us)
          store.items
          (after_transaction repr calls item_id id tenant_id us existing store r).0.items
  unfolding after_transaction
  after_transaction-IsKept item_id id tenant_id us existing store (raised e) h = inl refl
  after_transaction-IsKept item_id id tenant_id us existing store (ok updated) h =
      let written = write_update repr calls id tenant_id (patchable us) existing store in
      inr (
        subst (IsUpdated id tenant_id (patchable us) store.items)
          (sym (
            enqueue_update-items item_id id tenant_id (needs_reembedding us) updated written
            ∙ write_update-items id tenant_id (patchable us) existing store))
          (transaction-IsUpdated id tenant_id (patchable us) store updated h))

  patch_catalogue_item-IsKept :
      (item_id tenant_id : String) (body : CatalogueItemPatch W) (seen : List (StoredRow W))
      (store : Store W)
      → (id : String) × IsKept id tenant_id
          (columns_of body)
          store.items
          (patch_catalogue_item repr calls item_id body tenant_id seen store).0.items
  unfolding patch_catalogue_item commit_update
  patch_catalogue_item-IsKept item_id tenant_id body seen store =
      elim (Answer-cases (plan_patch repr calls item_id body tenant_id seen)) [
        | inr (e, p) ↦ rw (p, patch_catalogue_item) (item_id, inl refl)
        | inl ((us, (id, existing)), p) ↦
            let (updates, found) =
              plan_patch_lem repr calls item_id tenant_id id body seen us existing p in
            rw (p, patch_catalogue_item)
              (
                id,
                subst
                    (λ vs.
                      IsKept id tenant_id vs store.items
                        (after_transaction repr calls item_id id tenant_id us existing store
                          (transaction repr calls id tenant_id (patchable us) store)).0.items)
                    (ap patchable updates)
                    (after_transaction-IsKept item_id id tenant_id us existing store
                      (transaction repr calls id tenant_id (patchable us) store) refl),
              )
      ]

  -- An update of a tenant leaves the rows of the other tenants as they are, in order. A table with
  -- unique ids, one row for each tenant and service, and the pricing rule in every row has all of
  -- these after every update, whatever another transaction did to the item since it was read.
  pub patch_catalogue_item-IsTable :
      (item_id tenant_id : String) (body : CatalogueItemPatch W) (seen : List (StoredRow W))
      (store : Store W)
      → IsTable store.items
      → IsTable (patch_catalogue_item repr calls item_id body tenant_id seen store).0.items
        × (others tenant_id
              (patch_catalogue_item repr calls item_id body tenant_id seen store).0.items
            ≡ others tenant_id store.items)
  patch_catalogue_item-IsTable item_id tenant_id body seen store t =
      let after = (patch_catalogue_item repr calls item_id body tenant_id seen store).0.items in
      let (id, kept) = patch_catalogue_item-IsKept item_id tenant_id body seen store in
      elim kept [
        | inl same ↦ (subst IsTable (sym same) t, ap (others tenant_id) same)
        | inr u ↦ (
          update_items-IsTable id tenant_id body store.items after u t,
          ap (others tenant_id) u.written
              ∙ others-update_items id tenant_id (columns_of body) store.items,
        )
      ]
