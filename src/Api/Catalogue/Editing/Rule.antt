-- ===== src/Api/Catalogue/Editing/Rule.antt =====
-- An update of a row that has the pricing rule leaves the rule, if the CHECK of the table admits it. The
-- CHECK alone admits a free row without a price: its comparison with NULL is not false.
use ai_lead_qualifier.Prelude.{
  String, true, false, Option, none, some, ◌++◌, ◌≡◌, ◌≢◌, refl, sym, ◌∙◌, ◌⊎◌, inl, inr, arith,
  eq_iff, str_eq, Bool-cases, Option-cases,
}
use ai_lead_qualifier.Float.{Float}
use ai_lead_qualifier.Database.Catalogue.{Row}
use ai_lead_qualifier.Ingestion.Items.{PriceType, fixed, free, variable, price_type_value}
use ai_lead_qualifier.Api.Catalogue.{
  CatalogueItemPatch, set_columns, patchable, updates_of, coerce_price_for_price_type, coerce_price,
  given, clear_price, set_service, set_price, set_price_type, set_description,
  chk_hybrid_pricing_logic,
}
use ai_lead_qualifier.Api.Catalogue.Constraints.{priced, is_priced}

differ : (a b : String) → str_eq a b ≡ false → a ≢ b
differ a b h e = let same : str_eq a b ≡ true = (eq_iff a b).1 e in absurd (ground arith)

abbrev type_after : Option PriceType → String → String
type_after none old = old
type_after (some t) old = price_type_value t

module _ {W : Type 0} where
  -- The price and the price type that an update leaves.
  abbrev price_after : Option PriceType → Option W → Option W → Option W
  price_after (some variable) price old = none
  price_after _ none old = old
  price_after _ (some price) old = some price

  abbrev HasPricing : Row W → Option W → String → Type 0
  HasPricing row price price_type = (row.price ≡ price) × (row.price_type ≡ price_type)

  rest_pricing :
      (price_type : Option PriceType) (description : Option String) (row : Row W)
      → HasPricing
          (set_columns
            (patchable (
              given set_price_type price_type
              ++ given set_description description
              ++ clear_price price_type))
            row)
          (price_after price_type none row.price)
          (type_after price_type row.price_type)
  unfolding patchable set_columns
  rest_pricing none none row = (refl, refl)
  rest_pricing none (some d) row = (refl, refl)
  rest_pricing (some fixed) none row = (refl, refl)
  rest_pricing (some fixed) (some d) row = (refl, refl)
  rest_pricing (some free) none row = (refl, refl)
  rest_pricing (some free) (some d) row = (refl, refl)
  rest_pricing (some variable) none row = (refl, refl)
  rest_pricing (some variable) (some d) row = (refl, refl)

  price_after-given :
      (price_type : Option PriceType) (price : W) (old : Option W)
      → price_after price_type none (some price) ≡ price_after price_type (some price) old
  price_after-given none price old = refl
  price_after-given (some fixed) price old = refl
  price_after-given (some free) price old = refl
  price_after-given (some variable) price old = refl

  updates_pricing :
      (service : Option String) (price : Option W) (price_type : Option PriceType)
      (description : Option String) (row : Row W)
      → HasPricing
          (set_columns
            (patchable (
              given set_service service
              ++ given (λ p. set_price (some p)) price
              ++ given set_price_type price_type
              ++ given set_description description
              ++ clear_price price_type))
            row)
          (price_after price_type price row.price)
          (type_after price_type row.price_type)
  unfolding patchable set_columns
  updates_pricing none none price_type description row = rest_pricing price_type description row
  updates_pricing (some s) none price_type description row =
      rest_pricing price_type description (record row { service = s })
  updates_pricing none (some p) price_type description row =
      let (q, t) = rest_pricing price_type description (record row { price = some p }) in
      (q ∙ price_after-given price_type p row.price, t)
  updates_pricing (some s) (some p) price_type description row =
      let (q, t) =
        rest_pricing price_type description (record row { service = s; price = some p }) in
      (q ∙ price_after-given price_type p row.price, t)

module _ {W : Type 0} ⦃fl : Float W⦄ where
  -- Where the CHECK says less than the rule.
  chk-is_priced :
      (row : Row W)
      → chk_hybrid_pricing_logic row ≡ true
      → (is_priced row ≡ true) ⊎ ((row.price ≡ none) × (row.price_type ≡ "FREE"))
  unfolding chk_hybrid_pricing_logic is_priced
  chk-is_priced row h = elim (Option-cases row.price) [
    | inl missing ↦ elim (Bool-cases (str_eq row.price_type "FREE")) [
      | inl is_free ↦ inr (missing, (eq_iff row.price_type "FREE").0 is_free)
      | inr other ↦ inl (rw missing (ground (arith, missing, other)))
    ]
    | inr (price, present) ↦ inl (ground arith)
  ]

  not_free_without_price :
      (price_type : Option PriceType) (price : Option W) (row : Row W)
      → is_priced row ≡ true
      → price_after price_type (coerce_price price_type price) row.price ≡ none
      → type_after price_type row.price_type ≢ "FREE"
  unfolding is_priced
  not_free_without_price none none row h p t =
      let variable_only : priced {W = W} none "FREE" ≡ true = rw (p, t) at h in cc
  not_free_without_price none (some price) row h p t = cc
  not_free_without_price (some free) price row h p t = cc
  not_free_without_price (some fixed) price row h p t = differ "FIXED" "FREE" refl t
  not_free_without_price (some variable) price row h p t = differ "VARIABLE" "FREE" refl t

  pub set_columns-IsPriced :
      (body : CatalogueItemPatch W) (row : Row W)
      → let us = patchable (updates_of (coerce_price_for_price_type body)) in
        is_priced row ≡ true
        → chk_hybrid_pricing_logic (set_columns us row) ≡ true
        → is_priced (set_columns us row) ≡ true
  unfolding updates_of coerce_price_for_price_type
  set_columns-IsPriced body row h c =
      let us = patchable (updates_of (coerce_price_for_price_type body)) in
      let (p, t) =
        updates_pricing body.service (coerce_price body.price_type body.price) body.price_type
          body.description row in
      elim (chk-is_priced (set_columns us row) c) [
        | inl rule ↦ rule
        | inr (missing, type_free) ↦ absurd (
            not_free_without_price body.price_type body.price row h (sym p ∙ missing)
              (sym t ∙ type_free))
      ]
