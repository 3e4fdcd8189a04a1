-- ===== src/Api/Catalogue/Constraints.antt =====
-- An update that was checked keeps the constraints of the table, and the rows of other tenants.
use ai_lead_qualifier.Prelude.{
  ◌&&◌, ◌||◌, Option, none, String, Bool, true, false, some, List, [], ◌∷◌, any, All, ◌≡◌, refl,
  ◌∙◌, ap, inl, inr, str_eq, eq_iff, if◌then◌else◌, Bool-cases, arith,
}
use mathlib.Core.Option.{some-injective}
use ai_lead_qualifier.Float.{Float, float_eq}
use ai_lead_qualifier.Database.Catalogue.{Row, has_key}
use ai_lead_qualifier.Api.Catalogue.{
  StoredRow, Update, is_item, fetch_item, set_column, set_columns, update_items, has_duplicate,
}

-- The pricing rule of the catalogue: what is free costs 0, what has a fixed price has one that is not
-- negative, and what is variable has none.
module _ {W : Type 0} ⦃fl : Float W⦄ where
  abbrev pub priced : Option W → String → Bool
  priced none price_type = str_eq price_type "VARIABLE"
  priced (some price) price_type =
      str_eq price_type "FREE" && float_eq price (fl.literal 0)
      || str_eq price_type "FIXED" && fl.le (fl.literal 0) price

  unfoldable pub is_priced : Row W → Bool
  is_priced row = priced row.price row.price_type

module _ {W : Type 0} where
  abbrev pub has_id : String → List (StoredRow W) → Bool
  has_id id items = any (λ stored. str_eq stored.id id) items

  -- The primary key, and the UNIQUE constraint.
  abbrev pub HasUniqueIds : List (StoredRow W) → Type 0
  HasUniqueIds [] = Unit
  HasUniqueIds (stored ∷ items) = (has_id stored.id items ≡ false) × HasUniqueIds items

  abbrev pub has_service : Row W → List (StoredRow W) → Bool
  has_service row items = any (λ stored. has_key row.tenant_id row.service stored.row) items

  abbrev pub HasUniqueKeys : List (StoredRow W) → Type 0
  HasUniqueKeys [] = Unit
  HasUniqueKeys (stored ∷ items) = (has_service stored.row items ≡ false) × HasUniqueKeys items

  abbrev pub others : String → List (StoredRow W) → List (StoredRow W)
  others tenant_id [] = []
  others tenant_id (stored ∷ items) =
      let rest = others tenant_id items in
      if str_eq stored.row.tenant_id tenant_id then rest else stored ∷ rest

  -- A tenant's rows, in order.
  abbrev pub own : String → List (StoredRow W) → List (StoredRow W)
  own tenant_id [] = []
  own tenant_id (stored ∷ items) =
      let rest = own tenant_id items in
      if str_eq stored.row.tenant_id tenant_id then stored ∷ rest else rest

  set_column-tenant_id : (u : Update W) (row : Row W) → (set_column u row).tenant_id ≡ row.tenant_id
  set_column-tenant_id u row = ground arith

  set_columns-tenant_id :
      (us : List (Update W)) (row : Row W) → (set_columns us row).tenant_id ≡ row.tenant_id
  unfolding set_columns
  set_columns-tenant_id [] row = refl
  set_columns-tenant_id (u ∷ us) row =
      set_columns-tenant_id us (set_column u row) ∙ set_column-tenant_id u row

  has_key_sym : (a b : Row W) → has_key a.tenant_id a.service b ≡ has_key b.tenant_id b.service a
  has_key_sym a b = ground (
    arith,
    eq_iff a.tenant_id b.tenant_id,
    eq_iff b.tenant_id a.tenant_id,
    eq_iff a.service b.service,
    eq_iff b.service a.service,
  )

  module _ (id tenant_id : String) (us : List (Update W)) where
    has_id-update_items :
        (j : String) (items : List (StoredRow W))
        → has_id j (update_items id tenant_id us items) ≡ has_id j items
    unfolding update_items
    has_id-update_items j [] = refl
    has_id-update_items j (stored ∷ items) = ground (arith, has_id-update_items j items)

    pub update_items-HasUniqueIds :
        (items : List (StoredRow W))
        → HasUniqueIds items
        → HasUniqueIds (update_items id tenant_id us items)
    unfolding update_items
    update_items-HasUniqueIds [] h = tt
    update_items-HasUniqueIds (stored ∷ items) (fresh, h) =
        ground (arith, has_id-update_items stored.id items, update_items-HasUniqueIds items h)

    update_items_missing :
        (items : List (StoredRow W))
        → has_id id items ≡ false
        → update_items id tenant_id us items ≡ items
    unfolding update_items
    update_items_missing [] h = refl
    update_items_missing (stored ∷ items) h = ground (arith, update_items_missing items)

    pub others-update_items :
        (items : List (StoredRow W))
        → others tenant_id (update_items id tenant_id us items) ≡ others tenant_id items
    unfolding update_items
    others-update_items [] = refl
    others-update_items (stored ∷ items) =
        ground (arith, others-update_items items, set_columns-tenant_id us stored.row)

    pub fetch_item-update_items :
        (items : List (StoredRow W)) (row : Row W)
        → fetch_item id tenant_id items ≡ some row
        → fetch_item id tenant_id (update_items id tenant_id us items) ≡ some (set_columns us row)
    unfolding update_items fetch_item
    fetch_item-update_items [] row h = absurd (ground arith)
    fetch_item-update_items (stored ∷ items) row h =
        ground (arith, fetch_item-update_items items row, set_columns-tenant_id us stored.row)

    -- Rows that are not the item, and no row with the key of the updated one.
    no_service :
        (updated : Row W) (items : List (StoredRow W))
        → has_id id items ≡ false
        → has_duplicate id updated items ≡ false
        → has_service updated items ≡ false
    unfolding has_duplicate
    no_service updated [] h d = refl
    no_service updated (stored ∷ items) h d = ground (arith, no_service updated items)

    has_service-update_items :
        (row other : Row W) (items : List (StoredRow W))
        → HasUniqueIds items
        → fetch_item id tenant_id items ≡ some row
        → has_key other.tenant_id other.service (set_columns us row) ≡ false
        → has_service other items ≡ false
        → has_service other (update_items id tenant_id us items) ≡ false
    unfolding update_items fetch_item
    has_service-update_items row other [] n f k h = refl
    has_service-update_items row other (stored ∷ items) (fresh, n) f k h =
        elim (Bool-cases (is_item id tenant_id stored)) [
          | inl found ↦
              let i : stored.id ≡ id = (eq_iff stored.id id).0 (ground arith) in
              let r : stored.row ≡ row = some-injective _ _ (ground arith) in
              let q : has_key other.tenant_id other.service (set_columns us stored.row) ≡ false =
                ap (λ x. has_key other.tenant_id other.service (set_columns us x)) r ∙ k in
              rw found (rw (update_items_missing items (rw i at fresh)) (ground arith))
          | inr not_found ↦
              rw not_found (ground (arith, has_service-update_items row other items n))
        ]

    pub update_items-HasUniqueKeys :
        (row : Row W) (items : List (StoredRow W))
        → HasUniqueIds items
        → fetch_item id tenant_id items ≡ some row
        → has_duplicate id (set_columns us row) items ≡ false
        → HasUniqueKeys items
        → HasUniqueKeys (update_items id tenant_id us items)
    unfolding update_items fetch_item has_duplicate
    update_items-HasUniqueKeys row [] n f d h = tt
    update_items-HasUniqueKeys row (stored ∷ items) (fresh, n) f d (single, h) =
        elim (Bool-cases (is_item id tenant_id stored)) [
          | inl found ↦
              let i : stored.id ≡ id = (eq_iff stored.id id).0 (ground arith) in
              let r : stored.row ≡ row = some-injective _ _ (ground arith) in
              let missing : has_id id items ≡ false = rw i at fresh in
              rw found (
                rw (update_items_missing items missing, r)
                  (no_service (set_columns us row) items missing (ground arith), h))
          | inr not_found ↦
              let later : fetch_item id tenant_id items ≡ some row = ground arith in
              let single' : has_service stored.row (update_items id tenant_id us items) ≡ false =
                elim (Bool-cases (str_eq stored.id id)) [
                  | inl same ↦
                      rw (update_items_missing items (rw ((eq_iff stored.id id).0 same) at fresh))
                        single
                  | inr differ ↦
                      has_service-update_items row stored.row items n later
                        (ground (arith, has_key_sym stored.row (set_columns us row))) single
                ] in
              rw not_found (single', update_items-HasUniqueKeys row items n later (ground arith) h)
        ]

    pub update_items-IsPriced :
        ⦃fl : Float W⦄ (row : Row W) (items : List (StoredRow W))
        → HasUniqueIds items
        → fetch_item id tenant_id items ≡ some row
        → is_priced (set_columns us row) ≡ true
        → All (λ stored. is_priced stored.row ≡ true) items
        → All (λ stored. is_priced stored.row ≡ true) (update_items id tenant_id us items)
    unfolding update_items fetch_item
    update_items-IsPriced row [] n f p h = tt
    update_items-IsPriced row (stored ∷ items) (fresh, n) f p (first, h) =
        elim (Bool-cases (is_item id tenant_id stored)) [
          | inl found ↦
              let i : stored.id ≡ id = (eq_iff stored.id id).0 (ground arith) in
              let r : stored.row ≡ row = some-injective _ _ (ground arith) in
              rw found (rw (update_items_missing items (rw i at fresh), r) (p, h))
          | inr not_found ↦
              rw not_found (first, update_items-IsPriced row items n (ground arith) p h)
        ]

-- The constraints of the table.
pub record IsTable {W : Type 0} ⦃fl : Float W⦄ (items : List (StoredRow W)) : Type 0 where
  pub ids : HasUniqueIds items
  pub keys : HasUniqueKeys items
  pub priced : All (λ stored. is_priced stored.row ≡ true) items
