-- ===== src/Database/Catalogue/Isolation.antt =====
-- No write of one tenant reaches the rows of another.
use ai_lead_qualifier.Prelude.{
  String, true, List, [], ◌∷◌, ◌≡◌, refl, ◌∙◌, str_eq, eq_iff, if◌then◌else◌, length, Bool-cases,
  inl, inr, arith,
}
use ai_lead_qualifier.Database.Catalogue.{
  Row, Item, Table, has_key, owned_by, upsert_row, to_row, upsert_all, upsert_items, delete_rows,
  wipe_tenant,
}

module _ {W : Type 0} (tenant_id : String) where
  -- The rows of the other tenants, in order, and the tenant's own.
  abbrev pub others : Table W → Table W
  others [] = []
  others (row ∷ rows) =
      let rest = others rows in if owned_by tenant_id row then rest else row ∷ rest

  abbrev pub own : Table W → Table W
  own [] = []
  own (row ∷ rows) = let rest = own rows in if owned_by tenant_id row then row ∷ rest else rest

  others-upsert_row :
      (new : Row W) (table : Table W)
      → owned_by tenant_id new ≡ true
      → others (upsert_row new table) ≡ others table
  unfolding upsert_row
  others-upsert_row new [] h = ground arith
  others-upsert_row new (row ∷ rows) h = elim (Bool-cases (has_key new.tenant_id new.service row)) [
    | inl same ↦
        let t : str_eq row.tenant_id new.tenant_id ≡ true = ground arith in
        let owned : owned_by tenant_id row ≡ true =
          rw ((eq_iff row.tenant_id new.tenant_id).0 t) h in
        rw same (ground arith)
    | inr other ↦ rw other (ground (arith, others-upsert_row new rows h))
  ]

  others-upsert_all :
      (items : List (Item W)) (table : Table W)
      → others (upsert_all tenant_id items table) ≡ others table
  unfolding upsert_all
  others-upsert_all [] table = refl
  others-upsert_all (item ∷ items) table =
      others-upsert_all items (upsert_row (to_row tenant_id item) table)
      ∙ others-upsert_row (to_row tenant_id item) table ((eq_iff tenant_id tenant_id).1 refl)

  delete_rows_lem :
      (table : Table W)
      → ((delete_rows tenant_id table).0 ≡ others table)
        × ((delete_rows tenant_id table).1 ≡ length (own table))
  unfolding delete_rows
  delete_rows_lem [] = (refl, refl)
  delete_rows_lem (row ∷ rows) = ground (arith, delete_rows_lem rows)

  -- An upsert and a wipe of a tenant leave the rows of the other tenants as they are, in order. The wipe
  -- leaves no other row, and returns how many rows the tenant had.
  pub wipe_tenant_isolated :
      (items : List (Item W)) (table : Table W)
      → (others (upsert_items items tenant_id table).0 ≡ others table)
        × ((wipe_tenant tenant_id table).0 ≡ others table)
        × ((wipe_tenant tenant_id table).1 ≡ length (own table))
  unfolding upsert_items wipe_tenant
  wipe_tenant_isolated items table =
      let (kept, deleted) = delete_rows_lem table in (others-upsert_all items table, kept, deleted)
