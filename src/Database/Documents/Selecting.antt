-- ===== src/Database/Documents/Selecting.antt =====
-- What the query of `similarity_search` selects from a table.
use ai_lead_qualifier.Prelude.{
  String, true, ◌≡◌, refl, sym, ◌∙◌, ap, inl, inr, List, [], ◌∷◌, arith, length, Memᴰ, eq_iff,
  Bool-cases,
}
use ai_lead_qualifier.Database.Catalogue.{Row, Table, owned_by}
use ai_lead_qualifier.Database.Catalogue.Isolation.{own}
use ai_lead_qualifier.Database.Documents.{Match, to_match, select_from}

Memᴰ-cons :
    {A : Type 0} {P : Type 0} {a b : A} {xs : List A}
    → Memᴰ a (b ∷ xs)
    → (a ≡ b → P)
    → (Memᴰ a xs → P)
    → P
Memᴰ-cons (Memᴰ.head e) f g = f e
Memᴰ-cons (Memᴰ.tail m) f g = g m

module _ {W : Type 0} (distance : List W → List W → W) where
  -- Where a row of the query's result comes from.
  unfoldable pub IsSelected : Table W → List W → String → Match W → Type 0
  IsSelected table v tenant_id m =
      (row : Row W) × Memᴰ row table × (row.tenant_id ≡ tenant_id) × (m ≡ to_match distance v row)

  IsSelected-tail :
      (row : Row W) (table : Table W) (v : List W) (tenant_id : String) (m : Match W)
      → IsSelected table v tenant_id m
      → IsSelected (row ∷ table) v tenant_id m
  unfolding IsSelected
  IsSelected-tail row table v tenant_id m (r, stored, owner, e) = (r, Memᴰ.tail stored, owner, e)

  IsSelected-head :
      (row : Row W) (table : Table W) (v : List W) (tenant_id : String) (m : Match W)
      → owned_by tenant_id row ≡ true
      → m ≡ to_match distance v row
      → IsSelected (row ∷ table) v tenant_id m
  unfolding IsSelected
  IsSelected-head row table v tenant_id m owned e =
      (row, Memᴰ.head refl, (eq_iff row.tenant_id tenant_id).0 owned, e)

  pub select_from-IsSelected :
      (table : Table W) (v : List W) (tenant_id : String) (m : Match W)
      → Memᴰ m (select_from distance v tenant_id table)
      → IsSelected table v tenant_id m
  unfolding select_from
  select_from-IsSelected [] v tenant_id m h = elim h [ ]
  select_from-IsSelected (row ∷ table) v tenant_id m h =
      let later : Memᴰ m (select_from distance v tenant_id table)
          → IsSelected (row ∷ table) v tenant_id m =
        λ t.
          IsSelected-tail row table v tenant_id m (select_from-IsSelected table v tenant_id m t) in
      elim (Bool-cases (owned_by tenant_id row)) [
        | inl owned ↦
            let i : Memᴰ m (to_match distance v row ∷ select_from distance v tenant_id table) =
              rw owned at h in
            Memᴰ-cons i (IsSelected-head row table v tenant_id m owned) later
        | inr other ↦ later (rw other at h)
      ]

  pub select_from-complete :
      (table : Table W) (v : List W) (tenant_id : String) (row : Row W)
      → Memᴰ row table
      → row.tenant_id ≡ tenant_id
      → Memᴰ (to_match distance v row) (select_from distance v tenant_id table)
  unfolding select_from
  select_from-complete [] v tenant_id row m h = elim m [ ]
  select_from-complete (first ∷ table) v tenant_id row (Memᴰ.head e) h =
      let owned : owned_by tenant_id first ≡ true =
        (eq_iff first.tenant_id tenant_id).1 (ap (λ r. r.tenant_id) (sym e) ∙ h) in
      rw owned (Memᴰ.head (ap (to_match distance v) e))
  select_from-complete (first ∷ table) v tenant_id row (Memᴰ.tail m) h =
      let later = select_from-complete table v tenant_id row m h in
      elim (Bool-cases (owned_by tenant_id first)) [
        | inl owned ↦ rw owned (Memᴰ.tail later)
        | inr other ↦ rw other later
      ]

  pub length-select_from :
      (table : Table W) (v : List W) (tenant_id : String)
      → length (select_from distance v tenant_id table) ≡ length (own tenant_id table)
  unfolding select_from
  length-select_from [] v tenant_id = refl
  length-select_from (row ∷ table) v tenant_id =
      ground (arith, length-select_from table v tenant_id)
