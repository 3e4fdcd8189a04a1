-- ===== src/Api/Catalogue/Editing/Auditing.antt =====
-- What the answer and the audit log of an update say.
use ai_lead_qualifier.Prelude.{
  String, Bool, true, false, List, [], ◌∷◌, any, All, ◌≡◌, refl, sym, ◌∙◌, ◌⊎◌, inl, inr, str_eq,
  eq_iff, Bool-cases, arith,
}
use mathlib.Core.Path.{subst}
use ai_lead_qualifier.Database.Catalogue.{Row}
use ai_lead_qualifier.Api.Catalogue.{
  AuditRow, Update, set_service, set_price, set_price_type, set_description, column, set_column,
  set_columns, audit_rows, old_text, new_text, or_none, str_price,
}

module _ {W : Type 0} (repr : W → String) where
  abbrev pub names : String → List AuditRow → Bool
  names field rows = any (λ a. str_eq a.field_changed field) rows

  -- What an update does to a column that is read as text: its own update writes the new text over the
  -- old one, and any other keeps the text.
  abbrev pub Writes : (Row W → String) → Update W → Row W → Bool → Type 0
  Writes read u row true =
      (read (set_column u row) ≡ new_text repr u) × (or_none (old_text repr u row) ≡ read row)
  Writes read u row false = read (set_column u row) ≡ read row

  abbrev pub IsColumn : String → (Row W → String) → Type 0
  IsColumn field read = (u : Update W) (row : Row W) → Writes read u row (str_eq (column u) field)

  pub audit_rows-read :
      (field : String) (read : Row W → String) (item_id : String) (existing row : Row W)
      (us : List (Update W))
      → IsColumn field read
      → read row ≡ read existing
      → (names field (audit_rows repr item_id existing us) ≡ true)
        ⊎ (read (set_columns us row) ≡ read existing)
  unfolding audit_rows set_columns
  audit_rows-read field read item_id existing row [] c h = inr h
  audit_rows-read field read item_id existing row (u ∷ us) c h =
      elim (Bool-cases (str_eq (column u) field)) [
        | inl own ↦
            let (w, _) = subst (Writes read u row) own (c u row) in
            let (_, o) = subst (Writes read u existing) own (c u existing) in
            elim (Bool-cases (str_eq (or_none (old_text repr u existing)) (new_text repr u))) [
              | inl same ↦
                  let e : read (set_column u row) ≡ read existing =
                    w
                    ∙ sym ((eq_iff (or_none (old_text repr u existing)) (new_text repr u)).0 same)
                    ∙ o in
                  rw same (audit_rows-read field read item_id existing (set_column u row) us c e)
              | inr differ ↦ rw (differ, own) (inl refl)
            ]
        | inr other ↦
            let e : read (set_column u row) ≡ read existing =
              subst (Writes read u row) other (c u row) ∙ h in
            let rest = audit_rows-read field read item_id existing (set_column u row) us c e in
            elim (Bool-cases (str_eq (or_none (old_text repr u existing)) (new_text repr u))) [
              | inl same ↦ rw same rest
              | inr differ ↦ rw (differ, other) rest
            ]
      ]

  pub service_IsColumn : IsColumn "service" (λ row. row.service)
  service_IsColumn (set_service v) row = (refl, refl)
  service_IsColumn (set_price v) row = refl
  service_IsColumn (set_price_type v) row = refl
  service_IsColumn (set_description v) row = refl

  pub description_IsColumn : IsColumn "description" (λ row. row.description)
  description_IsColumn (set_service v) row = refl
  description_IsColumn (set_price v) row = refl
  description_IsColumn (set_price_type v) row = refl
  description_IsColumn (set_description v) row = (refl, refl)

  pub price_IsColumn : IsColumn "price" (λ row. str_price repr row.price)
  price_IsColumn (set_service v) row = refl
  price_IsColumn (set_price v) row = (refl, ground arith)
  price_IsColumn (set_price_type v) row = refl
  price_IsColumn (set_description v) row = refl

  -- A row of the audit log for the item, whose texts differ.
  abbrev pub IsChange : String → AuditRow → Type 0
  IsChange id a = (a.item_id ≡ id) × (str_eq (or_none a.old_value) a.new_value ≡ false)

  pub audit_rows-IsChange :
      (id : String) (existing : Row W) (us : List (Update W))
      → All (IsChange id) (audit_rows repr id existing us)
  unfolding audit_rows
  audit_rows-IsChange id existing [] = tt
  audit_rows-IsChange id existing (u ∷ us) =
      elim (Bool-cases (str_eq (or_none (old_text repr u existing)) (new_text repr u))) [
        | inl same ↦ rw same (audit_rows-IsChange id existing us)
        | inr differ ↦ rw differ ((refl, differ), audit_rows-IsChange id existing us)
      ]
