-- ===== src/Ingestion/Items/Pricing.antt =====
-- The pricing rule that the database checks, and what else every constructed item satisfies.
use mathlib.Core.Path.{subst}
use ai_lead_qualifier.Prelude.{
  ℕ, String, true, false, Option, none, some, ◌≡◌, ◌⊎◌, inl, inr, arith, sym, refl, not, ◌&&◌,
  Bool-cases,
}
use ai_lead_qualifier.Float.{Float, FloatLaws, float_lt, ◌≼◌}
use ai_lead_qualifier.Core.Text.{is_empty_text}
use ai_lead_qualifier.Core.Json.{Json, Dict}
use ai_lead_qualifier.Core.Exceptions.{ok, ok-injective, Answer-cases}
use ai_lead_qualifier.Ingestion.Items.{
  PriceType, fixed, free, variable, ServiceItem, ItemFields, Pydantic, price_non_negative,
  currency_uppercase, confidence_field, enforce_hybrid_pricing_invariant, infer_price_type,
  auto_flag_low_confidence, new_item, service_item,
}

module _ {W : Type 0} ⦃fl : Float W⦄ where
  -- The CHECK constraint on catalogue_items.
  abbrev pub IsPriced : PriceType → Option W → Type 0
  IsPriced free price = price ≡ some (fl.literal 0)
  IsPriced variable price = price ≡ none
  IsPriced fixed price = (v : W) × (price ≡ some v) × (fl.literal 0 ≼ v)

  pub record IsValid (tenant_id : String) (item : ServiceItem W) : Type 0 where
    pub owned : item.tenant_id ≡ tenant_id
    pub named : is_empty_text item.name ≡ false
    pub priced : IsPriced item.price_type item.price
    pub sure : (fl.literal 0 ≼ item.confidence) × (item.confidence ≼ fl.literal 100)
    pub reviewed : (item.flagged ≡ true) ⊎ (float_lt item.confidence (fl.literal 50) ≡ false)

  module _ (laws : FloatLaws W) (pydantic : Pydantic W) where
    price_non_negative_lem :
        (p : Option (Option W)) (v : W)
        → price_non_negative pydantic p ≡ ok (some v)
        → fl.literal 0 ≼ v
    unfolding price_non_negative
    price_non_negative_lem none v h = ground (arith, laws.le_refl (fl.literal 0))
    price_non_negative_lem (some none) v h = ground arith
    price_non_negative_lem (some (some u)) v h = elim (Bool-cases (fl.le (fl.literal 0) u)) [
      | inl low ↦
          let r : fl.literal 0 ≼ fl.round 4 u =
            subst (λ o. o ≼ fl.round 4 u) (laws.round-zero 4)
              (laws.round_mono 4 (fl.literal 0) u low) in
          ground arith
      | inr negative ↦ ground arith
    ]

    enforce-IsPriced :
        (t : PriceType) (p : Option (Option W)) (g q : Option W)
        → price_non_negative pydantic p ≡ ok g
        → enforce_hybrid_pricing_invariant pydantic t g ≡ ok q
        → IsPriced t q
    unfolding enforce_hybrid_pricing_invariant
    enforce-IsPriced free p g q h e = ground arith
    enforce-IsPriced variable p g q h e = ground arith
    enforce-IsPriced fixed p none q h e = ground arith
    enforce-IsPriced fixed p (some v) q h e =
        (v, sym (ok-injective e), price_non_negative_lem p v h)

    auto_flag_low_confidence-IsValid :
        (tenant_id : String) (item : ServiceItem W)
        → item.tenant_id ≡ tenant_id
        → is_empty_text item.name ≡ false
        → IsPriced item.price_type item.price
        → (fl.literal 0 ≼ item.confidence) × (item.confidence ≼ fl.literal 100)
        → IsValid tenant_id (auto_flag_low_confidence pydantic item)
    unfolding auto_flag_low_confidence
    auto_flag_low_confidence-IsValid tenant_id item o n p c =
        elim (Bool-cases (float_lt item.confidence (fl.literal 50) && not item.flagged)) [
          | inl low ↦
              rw low (record { owned = o; named = n; priced = p; sure = c; reviewed = inl refl })
          | inr high ↦
              rw high
                (record { owned = o; named = n; priced = p; sure = c; reviewed = ground arith })
        ]

    confidence_field_lem :
        (f : Option W) (c : W)
        → confidence_field pydantic f ≡ ok c
        → (fl.literal 0 ≼ c) × (c ≼ fl.literal 100)
    unfolding confidence_field
    confidence_field_lem none c h =
        ground (arith, laws.le_refl (fl.literal 100), laws.literal_mono 0 100 (omega arith))
    confidence_field_lem (some f) c h = ground arith

    -- Every item that the model constructs belongs to the tenant, has a name, keeps the pricing rule that
    -- the database checks (FREE costs 0.0, VARIABLE has no price, FIXED has one that is not
    -- negative), has a confidence in [0, 1], and is flagged when that is below 0.5.
    pub service_item-IsValid :
        (i : ℕ) (tenant_id : String) (raw_data : Dict (Json W)) (fields : ItemFields W)
        (item : ServiceItem W)
        → service_item pydantic i tenant_id raw_data fields ≡ ok item
        → IsValid tenant_id item
    unfolding service_item
    service_item-IsValid i tenant_id raw_data fields item h =
        elim (Answer-cases (price_non_negative pydantic fields.price)) [
          | inr (x, a) ↦ absurd (ground arith)
          | inl (given, a) ↦ elim (Answer-cases (currency_uppercase pydantic fields.currency)) [
            | inr (x, b) ↦ absurd (ground arith)
            | inl (currency, b) ↦
                elim (Answer-cases (confidence_field pydantic fields.confidence)) [
                  | inr (x, c) ↦ absurd (ground arith)
                  | inl (confidence, c) ↦
                      let t = infer_price_type pydantic fields.price_type fields.price in
                      elim (Answer-cases (enforce_hybrid_pricing_invariant pydantic t given)) [
                        | inr (x, d) ↦ absurd (ground arith)
                        | inl (price, d) ↦
                            let built =
                              new_item pydantic i tenant_id raw_data fields currency confidence
                                price in
                            let e : auto_flag_low_confidence pydantic built ≡ item = ground arith in
                            let named : is_empty_text fields.name ≡ false = ground arith in
                            subst (IsValid tenant_id) e (
                              auto_flag_low_confidence-IsValid tenant_id built refl named
                                (enforce-IsPriced t fields.price given price a d)
                                (confidence_field_lem fields.confidence confidence c))
                      ]
                ]
          ]
        ]
