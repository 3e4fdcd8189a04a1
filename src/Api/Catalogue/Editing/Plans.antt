-- ===== src/Api/Catalogue/Editing/Plans.antt =====
-- What an update does before its transaction: the row that it finds, and the columns that it sets.
use ai_lead_qualifier.Prelude.{
  String, Bool, true, false, Option, none, some, List, ◌++◌, ◌||◌, ◌≡◌, refl, sym, ◌∙◌, ap, inl,
  inr, Option-cases, arith,
}
use ai_lead_qualifier.Float.{Float}
use ai_lead_qualifier.Core.Exceptions.{ok, Answer-cases}
use ai_lead_qualifier.Database.Catalogue.{Row}
use ai_lead_qualifier.Api.Catalogue.{
  StoredRow, Store, CatalogueItemPatch, Update, fetch_item, set_columns, needs_reembedding,
  read_patch, updates_of, coerce_price_for_price_type, coerce_price, given, clear_price,
  set_service, set_price, set_price_type, set_description,
}
use ai_lead_qualifier.Ingestion.Items.{PriceType, fixed, free, variable}
use ai_lead_qualifier.Api.Catalogue.Editing.{
  Calls, check_update, transaction, find_existing, plan_patch,
}

abbrev pub is_given : {A : Type 0} → Option A → Bool
is_given none = false
is_given (some a) = true

module _ {W : Type 0} ⦃fl : Float W⦄ (repr : W → String) (calls : Calls) where
  find_existing_lem :
      (item_id tenant_id id : String) (us : List (Update W)) (seen : List (StoredRow W))
      (existing : Row W)
      → find_existing repr calls item_id tenant_id us seen ≡ ok (id, existing)
      → fetch_item id tenant_id seen ≡ some existing
  unfolding find_existing
  find_existing_lem item_id tenant_id id us seen existing h =
      elim (Answer-cases (calls.parse_uuid item_id)) [
        | inr (e, p) ↦ absurd (ground arith)
        | inl (i, p) ↦ elim (Option-cases (fetch_item i tenant_id seen)) [
          | inl n ↦ absurd (ground arith)
          | inr (row, f) ↦ ground arith
        ]
      ]

  read_patch_lem :
      (body patch : CatalogueItemPatch W)
      → read_patch body ≡ ok patch
      → coerce_price_for_price_type body ≡ patch
  unfolding read_patch
  read_patch_lem body patch h = ground arith

  pub plan_patch_lem :
      (item_id tenant_id id : String) (body : CatalogueItemPatch W) (seen : List (StoredRow W))
      (us : List (Update W)) (existing : Row W)
      → plan_patch repr calls item_id body tenant_id seen ≡ ok (us, (id, existing))
      → (us ≡ updates_of (coerce_price_for_price_type body))
        × (fetch_item id tenant_id seen ≡ some existing)
  unfolding plan_patch
  plan_patch_lem item_id tenant_id id body seen us existing h =
      elim (Answer-cases (read_patch body)) [
        | inr (e, p) ↦ absurd (ground arith)
        | inl (patch, p) ↦
            let q : coerce_price_for_price_type body ≡ patch = read_patch_lem body patch p in
            elim (Answer-cases
              (find_existing repr calls item_id tenant_id (updates_of patch) seen)) [
                | inr (e, f) ↦ absurd (ground arith)
                | inl ((i, row), f) ↦
                    let found =
                      find_existing_lem item_id tenant_id i (updates_of patch) seen row f in
                    let s : updates_of patch ≡ us = ground arith in
                    (sym s ∙ ap updates_of (sym q), ground arith)
              ]
      ]

  pub transaction_lem :
      (id tenant_id : String) (us : List (Update W)) (store : Store W) (updated row : Row W)
      → transaction repr calls id tenant_id us store ≡ ok updated
      → fetch_item id tenant_id store.items ≡ some row
      → updated ≡ set_columns us row
  unfolding transaction check_update
  transaction_lem id tenant_id us store updated row h f = ground arith

reads_rest :
    (W : Type 0) (price_type : Option PriceType) (description : Option String)
    → needs_reembedding {W = W} (
        given set_price_type price_type
        ++ given set_description description
        ++ clear_price price_type)
      ≡ is_given description
unfolding needs_reembedding
reads_rest W none none = refl
reads_rest W none (some d) = refl
reads_rest W (some fixed) none = refl
reads_rest W (some fixed) (some d) = refl
reads_rest W (some free) none = refl
reads_rest W (some free) (some d) = refl
reads_rest W (some variable) none = refl
reads_rest W (some variable) (some d) = refl

module _ {W : Type 0} ⦃fl : Float W⦄ where
  reads_updates :
      (service : Option String) (price : Option W) (price_type : Option PriceType)
      (description : Option String)
      → needs_reembedding {W = W} (
          given set_service service
          ++ given (λ p. set_price (some p)) price
          ++ given set_price_type price_type
          ++ given set_description description
          ++ clear_price price_type)
        ≡ (is_given service || is_given description)
  unfolding needs_reembedding
  reads_updates (some v) price price_type description = refl
  reads_updates none (some v) price_type description = reads_rest W price_type description
  reads_updates none none price_type description = reads_rest W price_type description

  pub needs_reembedding_lem :
      (body : CatalogueItemPatch W)
      → needs_reembedding (updates_of (coerce_price_for_price_type body))
        ≡ (is_given body.service || is_given body.description)
  unfolding needs_reembedding updates_of coerce_price_for_price_type
  needs_reembedding_lem body =
      reads_updates body.service (coerce_price body.price_type body.price) body.price_type
        body.description
