-- ===== src/Database/Catalogue/Keys.antt =====
-- What a lookup by key finds after an upsert, and that no two rows have the same key.
use ai_lead_qualifier.Prelude.{
  String, Bool, true, false, Option, none, some, List, [], ◌∷◌, ◌≡◌, refl, ap, sym, ◌∙◌, str_eq,
  eq_iff, if◌then◌else◌, Bool-cases, inl, inr, arith,
}
use ai_lead_qualifier.Database.Catalogue.{
  Row, Item, Table, has_key, find_row, upsert_row, to_row, upsert_all, upsert_items,
}

module _ {W : Type 0} where
  has_key_self : (row : Row W) → has_key row.tenant_id row.service row ≡ true
  has_key_self row =
      ground (
        arith,
        (eq_iff row.tenant_id row.tenant_id).1 refl,
        (eq_iff row.service row.service).1 refl,
      )

  -- Rows with one key answer every key alike.
  has_key_same :
      (a b : Row W) (tenant_id service : String)
      → has_key a.tenant_id a.service b ≡ true
      → has_key tenant_id service b ≡ has_key tenant_id service a
  has_key_same a b tenant_id service h =
      let t : str_eq b.tenant_id a.tenant_id ≡ true = ground arith in
      let u : str_eq b.service a.service ≡ true = ground arith in
      rw ((eq_iff b.tenant_id a.tenant_id).0 t, (eq_iff b.service a.service).0 u)

  has_key_both :
      (a b : Row W) (tenant_id service : String)
      → has_key tenant_id service a ≡ true
      → has_key tenant_id service b ≡ true
      → has_key a.tenant_id a.service b ≡ true
  has_key_both a b tenant_id service h k =
      let t : str_eq a.tenant_id tenant_id ≡ true = ground arith in
      let u : str_eq a.service service ≡ true = ground arith in
      rw ((eq_iff a.tenant_id tenant_id).0 t, (eq_iff a.service service).0 u) k

  -- What a lookup finds after one row is written.
  abbrev written : Bool → Row W → Option (Row W) → Option (Row W)
  written true new old = some new
  written false new old = old

  find_row-upsert_row :
      (new : Row W) (table : Table W) (tenant_id service : String)
      → find_row tenant_id service (upsert_row new table)
        ≡ written (has_key tenant_id service new) new (find_row tenant_id service table)
  unfolding find_row upsert_row
  find_row-upsert_row new [] tenant_id service = ground arith
  find_row-upsert_row new (row ∷ rows) tenant_id service =
      elim (Bool-cases (has_key new.tenant_id new.service row)) [
        | inl same ↦ rw same (ground (arith, has_key_same new row tenant_id service same))
        | inr other ↦ rw other (elim (Bool-cases (has_key tenant_id service row)) [
          | inl this ↦ rw this (elim (Bool-cases (has_key tenant_id service new)) [
            | inl also ↦ absurd (ground (arith, has_key_both new row tenant_id service also this))
            | inr not_new ↦ rw not_new
          ])
          | inr that ↦ rw that (find_row-upsert_row new rows tenant_id service)
        ])
      ]

  -- The row of the last item with this service.
  abbrev pub last_written : String → String → List (Item W) → Option (Row W) → Option (Row W)
  last_written tenant_id service [] old = old
  last_written tenant_id service (item ∷ items) old =
      last_written tenant_id service items
        (if str_eq item.service service then some (to_row tenant_id item) else old)

  find_row-upsert_all :
      (items : List (Item W)) (tenant_id service : String) (table : Table W)
      → find_row tenant_id service (upsert_all tenant_id items table)
        ≡ last_written tenant_id service items (find_row tenant_id service table)
  unfolding upsert_all
  find_row-upsert_all [] tenant_id service table = refl
  find_row-upsert_all (item ∷ items) tenant_id service table =
      let new = to_row tenant_id item in
      let e : find_row tenant_id service (upsert_row new table)
          ≡ (if str_eq item.service service then some new else find_row tenant_id service table) =
        ground (
          arith,
          find_row-upsert_row new table tenant_id service,
          (eq_iff tenant_id tenant_id).1 refl,
        ) in
      find_row-upsert_all items tenant_id service (upsert_row new table)
      ∙ ap (last_written tenant_id service items) e

  -- After an upsert a service of the tenant has the row of the last item that names it, or the row that
  -- it had before where no item does.
  pub upsert_items_lookup :
      (items : List (Item W)) (tenant_id service : String) (table : Table W)
      → find_row tenant_id service (upsert_items items tenant_id table).0
        ≡ last_written tenant_id service items (find_row tenant_id service table)
  unfolding upsert_items
  upsert_items_lookup items tenant_id service table =
      find_row-upsert_all items tenant_id service table

  -- No key twice: the UNIQUE constraint.
  abbrev pub IsUnique : Table W → Type 0
  IsUnique [] = Unit
  IsUnique (row ∷ rows) = (find_row row.tenant_id row.service rows ≡ none) × IsUnique rows

  has_key_sym : (a b : Row W) → has_key a.tenant_id a.service b ≡ has_key b.tenant_id b.service a
  has_key_sym a b = elim (Bool-cases (has_key a.tenant_id a.service b)) [
    | inl same ↦ same ∙ sym (sym (has_key_same a b b.tenant_id b.service same) ∙ has_key_self b)
    | inr other ↦ elim (Bool-cases (has_key b.tenant_id b.service a)) [
      | inl same ↦
          absurd (ground (arith, has_key_same b a a.tenant_id a.service same, has_key_self a))
      | inr other' ↦ other ∙ sym other'
    ]
  ]

  find_row_same :
      (a b : Row W) (rows : Table W)
      → has_key a.tenant_id a.service b ≡ true
      → find_row a.tenant_id a.service rows ≡ find_row b.tenant_id b.service rows
  find_row_same a b rows h =
      let t : str_eq b.tenant_id a.tenant_id ≡ true = ground arith in
      let u : str_eq b.service a.service ≡ true = ground arith in
      rw ((eq_iff b.tenant_id a.tenant_id).0 t, (eq_iff b.service a.service).0 u)

  find_row_empty : (new : Row W) → find_row {W = W} new.tenant_id new.service [] ≡ none
  unfolding find_row
  find_row_empty new = refl

  upsert_row-IsUnique :
      (new : Row W) (table : Table W) → IsUnique table → IsUnique (upsert_row new table)
  unfolding upsert_row
  upsert_row-IsUnique new [] h = (find_row_empty new, tt)
  upsert_row-IsUnique new (row ∷ rows) (f, h) =
      elim (Bool-cases (has_key new.tenant_id new.service row)) [
        | inl same ↦ rw same (find_row_same new row rows same ∙ f, h)
        | inr other ↦ rw other (
          find_row-upsert_row new rows row.tenant_id row.service
              ∙ rw (sym (has_key_sym new row), other) f,
          upsert_row-IsUnique new rows h,
        )
      ]

  upsert_all-IsUnique :
      (tenant_id : String) (items : List (Item W)) (table : Table W)
      → IsUnique table
      → IsUnique (upsert_all tenant_id items table)
  unfolding upsert_all
  upsert_all-IsUnique tenant_id [] table h = h
  upsert_all-IsUnique tenant_id (item ∷ items) table h =
      upsert_all-IsUnique tenant_id items (upsert_row (to_row tenant_id item) table)
        (upsert_row-IsUnique (to_row tenant_id item) table h)

  -- An upsert keeps at most one row for each tenant and service.
  pub upsert_items-IsUnique :
      (items : List (Item W)) (tenant_id : String) (table : Table W)
      → IsUnique table
      → IsUnique (upsert_items items tenant_id table).0
  unfolding upsert_items
  upsert_items-IsUnique items tenant_id table h = upsert_all-IsUnique tenant_id items table h
