-- ===== src/Worker/History.antt =====
-- Updates and embedding tasks of all tenants, in any order. Between the read and the write of each of
-- them others can come: a step takes the table that it read as it likes.
use ai_lead_qualifier.Prelude.{
  String, true, false, Option, none, some, List, [], ◌∷◌, any, All, ◌≡◌, refl, sym, ◌∙◌, ap, ◌⊎◌,
  inl, inr, str_eq, eq_iff, Bool-cases, arith,
}
use mathlib.Core.Path.{subst}
use ai_lead_qualifier.Float.{Float}
use ai_lead_qualifier.Core.Exceptions.{ok, Answer-cases}
use ai_lead_qualifier.Core.Config.{Settings}
use ai_lead_qualifier.Database.Catalogue.{Row}
use ai_lead_qualifier.Api.Catalogue.{StoredRow, Store, CatalogueItemPatch, is_item, fetch_item}
use ai_lead_qualifier.Api.Catalogue.Constraints.{
  IsTable, HasUniqueIds, HasUniqueKeys, has_id, has_service, others, own, is_priced,
}
use ai_lead_qualifier.Api.Catalogue.Editing.{Calls, patch_catalogue_item}
use ai_lead_qualifier.Api.Catalogue.Editing.Pricing.{patch_catalogue_item-IsTable}
use ai_lead_qualifier.Worker.{
  set_embedding, TaskCalls, new_embedding, embed_row, update_embedding_task,
}

module _ {W : Type 0} where
  own-others :
      (u t : String) (items : List (StoredRow W))
      → str_eq t u ≡ false
      → own u (others t items) ≡ own u items
  own-others u t [] h = refl
  own-others u t (stored ∷ items) h = ground (
    arith,
    own-others u t items h,
    eq_iff t u,
    eq_iff stored.row.tenant_id t,
    eq_iff stored.row.tenant_id u,
  )

  module _ (v : List W) (id tenant_id : String) where
    has_id-set_embedding :
        (j : String) (items : List (StoredRow W))
        → has_id j (set_embedding v id tenant_id items) ≡ has_id j items
    unfolding set_embedding
    has_id-set_embedding j [] = refl
    has_id-set_embedding j (stored ∷ items) = ground (arith, has_id-set_embedding j items)

    set_embedding-HasUniqueIds :
        (items : List (StoredRow W))
        → HasUniqueIds items
        → HasUniqueIds (set_embedding v id tenant_id items)
    unfolding set_embedding
    set_embedding-HasUniqueIds [] h = tt
    set_embedding-HasUniqueIds (stored ∷ items) (fresh, h) =
        ground (arith, has_id-set_embedding stored.id items, set_embedding-HasUniqueIds items h)

    has_service-set_embedding :
        (row : Row W) (items : List (StoredRow W))
        → has_service row (set_embedding v id tenant_id items) ≡ has_service row items
    unfolding set_embedding
    has_service-set_embedding row [] = refl
    has_service-set_embedding row (stored ∷ items) =
        ground (arith, has_service-set_embedding row items)

    set_embedding-HasUniqueKeys :
        (items : List (StoredRow W))
        → HasUniqueKeys items
        → HasUniqueKeys (set_embedding v id tenant_id items)
    unfolding set_embedding
    set_embedding-HasUniqueKeys [] h = tt
    set_embedding-HasUniqueKeys (stored ∷ items) (single, h) =
        ground
          (arith, has_service-set_embedding stored.row items, set_embedding-HasUniqueKeys items h)

    others-set_embedding :
        (items : List (StoredRow W))
        → others tenant_id (set_embedding v id tenant_id items) ≡ others tenant_id items
    unfolding set_embedding
    others-set_embedding [] = refl
    others-set_embedding (stored ∷ items) = ground (arith, others-set_embedding items)

    set_embedding-IsPriced :
        ⦃fl : Float W⦄ (items : List (StoredRow W))
        → All (λ stored. is_priced stored.row ≡ true) items
        → All (λ stored. is_priced stored.row ≡ true) (set_embedding v id tenant_id items)
    unfolding set_embedding is_priced
    set_embedding-IsPriced [] h = tt
    set_embedding-IsPriced (stored ∷ items) (first, h) =
        elim (Bool-cases (is_item id tenant_id stored)) [
          | inl found ↦ rw found (first, set_embedding-IsPriced items h)
          | inr other ↦ rw other (first, set_embedding-IsPriced items h)
        ]

    set_embedding-IsTable :
        ⦃fl : Float W⦄ (items : List (StoredRow W))
        → IsTable items
        → IsTable (set_embedding v id tenant_id items)
    set_embedding-IsTable items t = record {
      ids = set_embedding-HasUniqueIds items t.ids;
      keys = set_embedding-HasUniqueKeys items t.keys;
      priced = set_embedding-IsPriced items t.priced;
    }

module _ {W : Type 0} ⦃fl : Float W⦄ (settings : Settings W) (repr : W → String) where
  -- One call of a tenant, on the store that it leaves.
  pub data Step (tenant_id : String) : Store W → Store W → Type 0 where
    patched :
        {s : Store W} (calls : Calls) (item_id : String) (body : CatalogueItemPatch W)
        (seen : List (StoredRow W))
        → Step tenant_id s (patch_catalogue_item repr calls item_id body tenant_id seen s).0
    embedded :
        {s : Store W} (calls : TaskCalls W) (item_id status : String)
        (seen after : List (StoredRow W))
        → update_embedding_task settings calls item_id tenant_id seen s.items ≡ ok (after, status)
        → Step tenant_id s (record s { items = after })

  -- The calls so far, the last one first, by the tenants that made them.
  pub data History (s₀ : Store W) : List String → Store W → Type 0 where
    start : History s₀ [] s₀
    call :
        {tenants : List String} {tenant_id : String} {s s' : Store W}
        → History s₀ tenants s
        → Step tenant_id s s'
        → History s₀ (tenant_id ∷ tenants) s'

  -- What a call keeps.
  abbrev IsKept : String → List (StoredRow W) → List (StoredRow W) → Type 0
  IsKept tenant_id before after = IsTable after × (others tenant_id after ≡ others tenant_id before)

  embed_row-IsKept :
      (calls : TaskCalls W) (id tenant_id status : String) (found : Option (Row W))
      (items after : List (StoredRow W))
      → embed_row settings calls id tenant_id found items ≡ ok (after, status)
      → IsTable items
      → IsKept tenant_id items after
  unfolding embed_row
  embed_row-IsKept calls id tenant_id status none items after h t =
      let same : items ≡ after = ground arith in
      (subst IsTable same t, ap (others tenant_id) (sym same))
  embed_row-IsKept calls id tenant_id status (some row) items after h t =
      elim (Answer-cases (new_embedding settings calls tenant_id row)) [
        | inr (e, p) ↦ absurd (ground arith)
        | inl (v, p) ↦ elim (Answer-cases calls.execute) [
          | inr (e, q) ↦ absurd (ground arith)
          | inl (done, q) ↦
              let written : set_embedding v id tenant_id items ≡ after = ground arith in
              (
                subst IsTable written (set_embedding-IsTable v id tenant_id items t),
                ap (others tenant_id) (sym written) ∙ others-set_embedding v id tenant_id items,
              )
        ]
      ]

  update_embedding_task-IsKept :
      (calls : TaskCalls W) (item_id tenant_id status : String)
      (seen items after : List (StoredRow W))
      → update_embedding_task settings calls item_id tenant_id seen items ≡ ok (after, status)
      → IsTable items
      → IsKept tenant_id items after
  unfolding update_embedding_task
  update_embedding_task-IsKept calls item_id tenant_id status seen items after h t =
      elim (Answer-cases (calls.parse_uuid item_id)) [
        | inr (e, p) ↦ absurd (ground arith)
        | inl (id, p) ↦
            embed_row-IsKept calls id tenant_id status (fetch_item id tenant_id seen) items after
              (ground arith) t
      ]

  Step-IsKept :
      {tenant_id : String} {s s' : Store W}
      → Step tenant_id s s'
      → IsTable s.items
      → IsKept tenant_id s.items s'.items
  Step-IsKept {tenant_id} {s} (patched calls item_id body seen) t =
      patch_catalogue_item-IsTable repr calls item_id tenant_id body seen s t
  Step-IsKept {tenant_id} {s} (embedded calls item_id status seen after e) t =
      update_embedding_task-IsKept calls item_id tenant_id status seen s.items after e t

  -- Whatever updates and embedding tasks of any tenants came, in any order and between the reads and
  -- the writes of one another: a table with unique ids, one row for each tenant and service and the
  -- pricing rule in every row still has them, and a tenant that made no call has its rows as they were.
  pub History-IsTable :
      (u : String) {s₀ s : Store W} {tenants : List String}
      → IsTable s₀.items
      → History s₀ tenants s
      → IsTable s.items
        × ((any (λ t. str_eq t u) tenants ≡ true) ⊎ (own u s.items ≡ own u s₀.items))
  History-IsTable u {s₀} t start = (t, inr refl)
  History-IsTable u {s₀} t (call {tenants} {tenant_id} {s} {s'} h step) =
      let (before, rest) = History-IsTable u t h in
      let (after, kept) = Step-IsKept step before in
      let untouched : (any (λ t. str_eq t u) (tenant_id ∷ tenants) ≡ true)
          ⊎ (own u s'.items ≡ own u s₀.items) =
        elim (Bool-cases (str_eq tenant_id u)) [
          | inl same ↦ inl (rw same refl)
          | inr differ ↦ elim rest [
            | inl acted ↦ inl (ground (arith, differ, acted))
            | inr r ↦ inr (
                sym (own-others u tenant_id s'.items differ)
                ∙ ap (own u) kept
                ∙ own-others u tenant_id s.items differ
                ∙ r)
          ]
        ] in
      (after, untouched)
