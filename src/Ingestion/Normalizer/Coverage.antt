-- ===== src/Ingestion/Normalizer/Coverage.antt =====
-- What becomes of each entry of a reply.
use mathlib.Core.Path.{subst}
use ai_lead_qualifier.Prelude.{
  ℕ, suc, String, ◌≡◌, refl, ap, List, [], ◌∷◌, All, length, inl, inr, arith, Bool-cases,
  Option-cases,
}
use ai_lead_qualifier.Float.{Float, FloatLaws}
use ai_lead_qualifier.Core.Json.{
  Json, null, boolean, number, text, array, object, entries, Dict, lookup, without,
}
use ai_lead_qualifier.Core.Exceptions.{Answer, ok, raised, Answer-cases, ok-injective}
use ai_lead_qualifier.Agents.Extractor.{JsonLibrary}
use ai_lead_qualifier.Ingestion.Items.{ServiceItem, Pydantic}
use ai_lead_qualifier.Ingestion.Items.Pricing.{IsValid, service_item-IsValid}
use ai_lead_qualifier.Ingestion.Normalizer.{
  is_construction_error, raw_row, placeholder, construct, or_placeholder, normalize_entry,
  normalize_entries, reply_entries, parse_normalizer_response,
}

-- The dicts of a list; each is to become an item.
abbrev pub count_objects : {W : Type 0} → List (Json W) → ℕ
count_objects [] = 0
count_objects (object given ∷ es) = suc (count_objects es)
count_objects (_ ∷ es) = count_objects es

module _ {W : Type 0} ⦃fl : Float W⦄ (laws : FloatLaws W) (json : JsonLibrary W)
    (pydantic : Pydantic W) (chunk : List (Json W)) (tenant_id : String) where
  or_placeholder-IsValid :
      (i : ℕ) (row : Dict (Json W)) (r : Answer (ServiceItem W)) (item : ServiceItem W)
      → ((a : ServiceItem W) → r ≡ ok a → IsValid tenant_id a)
      → or_placeholder json pydantic i tenant_id row r ≡ ok item
      → IsValid tenant_id item
  or_placeholder-IsValid i row (ok a) item v h = v item h
  or_placeholder-IsValid i row (raised exc) item v h =
      elim (Bool-cases (is_construction_error exc.kind)) [
        | inl caught ↦
            service_item-IsValid laws pydantic i tenant_id row (placeholder json pydantic i row exc)
              item (rw caught at h)
        | inr uncaught ↦ absurd (ground arith)
      ]

  construct-IsValid :
      (i : ℕ) (row given : Dict (Json W)) (item : ServiceItem W)
      → construct json pydantic i tenant_id row given ≡ ok item
      → IsValid tenant_id item
  unfolding construct
  construct-IsValid i row given item h = elim (Option-cases (lookup "raw_data" given)) [
    | inr (v, e) ↦ absurd (ground arith)
    | inl e ↦ elim (Answer-cases (pydantic.coerce (without "tenant_id" given))) [
      | inl (fields, f) ↦
          service_item-IsValid laws pydantic i tenant_id row fields item (ground arith)
      | inr (x, f) ↦ absurd (ground arith)
    ]
  ]

  normalize_entry-IsValid :
      (i : ℕ) (given : Dict (Json W)) (item : ServiceItem W)
      → normalize_entry json pydantic chunk tenant_id i given ≡ ok item
      → IsValid tenant_id item
  unfolding normalize_entry
  normalize_entry-IsValid i given item h = elim (Answer-cases (raw_row json pydantic chunk i)) [
    | inl (row, e) ↦
        or_placeholder-IsValid i row (construct json pydantic i tenant_id row given) item
          (λ a. construct-IsValid i row given a) (rw e at h)
    | inr (x, e) ↦ absurd (ground arith)
  ]

  -- The items of the entries from `i` on.
  abbrev Makes : ℕ → List (Json W) → List (ServiceItem W) → Type 0
  Makes i es items = All (IsValid tenant_id) items × (length items ≡ count_objects es)

  normalize_entries-Makes :
      (i : ℕ) (es : List (Json W)) (items : List (ServiceItem W))
      → normalize_entries json pydantic chunk tenant_id i es ≡ ok items
      → Makes i es items
  unfolding normalize_entries
  normalize_entries-Makes i [] items h = subst (Makes i []) (ok-injective h) (tt, refl)
  normalize_entries-Makes i (object given ∷ es) items h =
      elim (Answer-cases (normalize_entry json pydantic chunk tenant_id i (entries given))) [
        | inr (x, e) ↦ absurd (ground arith)
        | inl (item, e) ↦
            elim (Answer-cases (normalize_entries json pydantic chunk tenant_id (suc i) es)) [
              | inr (x, f) ↦ absurd (ground arith)
              | inl (rest, f) ↦
                  let (valid, count) = normalize_entries-Makes (suc i) es rest f in
                  let made : item ∷ rest ≡ items = ground arith in
                  subst (Makes i (object given ∷ es)) made
                    ((normalize_entry-IsValid i (entries given) item e, valid), ap suc count)
            ]
      ]
  normalize_entries-Makes i (null ∷ es) items h = normalize_entries-Makes (suc i) es items h
  normalize_entries-Makes i (boolean b ∷ es) items h = normalize_entries-Makes (suc i) es items h
  normalize_entries-Makes i (number x ∷ es) items h = normalize_entries-Makes (suc i) es items h
  normalize_entries-Makes i (text t ∷ es) items h = normalize_entries-Makes (suc i) es items h
  normalize_entries-Makes i (array vs ∷ es) items h = normalize_entries-Makes (suc i) es items h

  -- When a reply is parsed, every dict in its list has become one item, by itself or as a placeholder;
  -- each item belongs to the tenant, has a name and a price that keeps the pricing rule, and is flagged
  -- if its confidence is below 0.5.
  pub parse_normalizer_response-IsValid :
      (raw : String) (items : List (ServiceItem W))
      → parse_normalizer_response json pydantic raw chunk tenant_id ≡ ok items
      → All (IsValid tenant_id) items
        × (length items ≡ count_objects (reply_entries json pydantic raw))
  unfolding parse_normalizer_response
  parse_normalizer_response-IsValid raw items h =
      normalize_entries-Makes 0 (reply_entries json pydantic raw) items h
