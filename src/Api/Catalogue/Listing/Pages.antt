-- ===== src/Api/Catalogue/Listing/Pages.antt =====
-- A client that follows the pages gets the tenant's items, each of them once.
use mathlib.Core.Path.{subst}
use ai_lead_qualifier.Prelude.{
  Permᴰ, length-Permᴰ, map-Permᴰ, refl, ◌∷◌, ℕ, zero, suc, ◌+◌, ◌-◌, ◌<◌, String, true, List, [],
  ◌++◌, map, take, drop, length, leb, ◌&&◌, ◌≡◌, sym, ◌∙◌, ap, arith, if◌then◌else◌, length-drop,
  take-append-drop, drop-drop, take_all, map-append, ltb, Bool-cases, inl, inr,
}
use ai_lead_qualifier.Core.Exceptions.{ok, raised}
use ai_lead_qualifier.Api.Catalogue.{StoredRow}
use ai_lead_qualifier.Api.Catalogue.Constraints.{own}
use ai_lead_qualifier.Api.Catalogue.Listing.{
  CatalogueItemResponse, to_item_response, items_of, list_catalogue_items,
}

module _ {W : Type 0} where
  -- The client asks for the next page as long as the total is not reached; `fuel` bounds its requests.
  pub collect :
      (List (StoredRow W) → List (StoredRow W))
      → ℕ
      → ℕ
      → ℕ
      → String
      → List (StoredRow W)
      → List (CatalogueItemResponse W)
  collect order_by_service zero skip limit tenant_id items = []
  collect order_by_service (suc fuel) skip limit tenant_id items =
      let rest = collect order_by_service fuel (skip + limit) limit tenant_id items in
      elim (list_catalogue_items order_by_service skip limit tenant_id items) [
        | raised e ↦ []
        | ok r ↦ if ltb (skip + limit) r.total then r.items ++ rest else r.items
      ]

  items_of-own :
      (tenant_id : String) (items : List (StoredRow W))
      → items_of tenant_id items ≡ own tenant_id items
  unfolding items_of
  items_of-own tenant_id [] = refl
  items_of-own tenant_id (stored ∷ items) = ground (arith, items_of-own tenant_id items)

module _ {W : Type 0} (order_by_service : List (StoredRow W) → List (StoredRow W))
    (sorts : (items : List (StoredRow W)) → Permᴰ (order_by_service items) items) (limit : ℕ)
    (tenant_id : String) (items : List (StoredRow W)) where
  abbrev ordered : List (StoredRow W)
  ordered = order_by_service (items_of tenant_id items)

  length-ordered : length ordered ≡ length (items_of tenant_id items)
  length-ordered = length-Permᴰ (sorts (items_of tenant_id items))

  collect-drop :
      (leb 1 limit && leb limit 100) ≡ true
      → (fuel skip : ℕ) → length (items_of tenant_id items) - skip < fuel
      → collect order_by_service fuel skip limit tenant_id items
        ≡ map to_item_response (drop skip ordered)
  unfolding collect list_catalogue_items
  collect-drop b zero skip h = absurd (omega (arith, h))
  collect-drop b (suc fuel) skip h =
      elim (Bool-cases (ltb (skip + limit) (length (items_of tenant_id items)))) [
        | inl more ↦
            let later : length (items_of tenant_id items) - (skip + limit) < fuel =
              ground (arith, b) in
            rw (b, more, collect-drop b fuel (skip + limit) later, collect)
              (sym (
                  map-append to_item_response (take limit (drop skip ordered))
                    (drop (skip + limit) ordered))
                ∙ ap (map to_item_response) (
                    ap (λ ys. take limit (drop skip ordered) ++ ys)
                      (sym (drop-drop skip limit ordered))
                    ∙ take-append-drop limit (drop skip ordered)))
        | inr last ↦
            rw (b, last, collect)
              (ap (map to_item_response) (
                take_all limit (drop skip ordered)
                  (ground (arith, length-drop skip ordered, length-ordered))))
      ]

  -- Let the database's order rearrange the rows, and the limit be one that the route takes. A client
  -- that asks for page after page, until the reported total, has after at most one request more than
  -- the tenant has items the answers for these items and no others, each as often as it is stored,
  -- in the database's order.
  pub collect_all :
      (leb 1 limit && leb limit 100) ≡ true
      → let answer =
          collect order_by_service (suc (length (own tenant_id items))) 0 limit tenant_id items in
        Permᴰ answer (map to_item_response (own tenant_id items))
        × (answer ≡ map to_item_response (order_by_service (own tenant_id items)))
  collect_all b =
      let answer =
        collect order_by_service (suc (length (items_of tenant_id items))) 0 limit tenant_id
          items in
      let e : answer ≡ map to_item_response ordered =
        collect-drop b (suc (length (items_of tenant_id items))) 0 (omega arith) in
      let p : Permᴰ answer (map to_item_response (items_of tenant_id items)) =
        subst (λ xs. Permᴰ xs (map to_item_response (items_of tenant_id items))) (sym e)
          (map-Permᴰ to_item_response (sorts (items_of tenant_id items))) in
      subst
        (λ own_items.
          let xs = collect order_by_service (suc (length own_items)) 0 limit tenant_id items in
          Permᴰ xs (map to_item_response own_items)
          × (xs ≡ map to_item_response (order_by_service own_items)))
        (items_of-own tenant_id items) (p, e)
