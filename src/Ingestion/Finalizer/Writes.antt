-- ===== src/Ingestion/Finalizer/Writes.antt =====
-- What the finalizer leaves alone, and what it writes.
use Prim.Native.Nat.{min}
use ai_lead_qualifier.Prelude.{
  ℕ, length, map, ◌+◌, Bool, Option, or_else, String, true, false, none, some, List, [], ◌∷◌, ◌≡◌,
  refl, sym, ap, ◌∙◌, ◌⊎◌, any, str_eq, eq_iff, Bool-cases, if◌then◌else◌, inl, inr, arith,
}
use ai_lead_qualifier.Float.{Float}
use ai_lead_qualifier.Core.Json.{Json, text, lookup}
use ai_lead_qualifier.Core.Exceptions.{Answer, ok, raised, Answer-cases, ok-injective}
use ai_lead_qualifier.Core.Config.{Settings}
use ai_lead_qualifier.Services.Embeddings.{aembed_documents}
use ai_lead_qualifier.Database.Catalogue.{Item, Table, upsert_items}
use ai_lead_qualifier.Database.Catalogue.Isolation.{others, wipe_tenant_isolated}
use ai_lead_qualifier.Ingestion.Nodes.Logs.{Appends}
use ai_lead_qualifier.Ingestion.State.{IngestionState, Services}
use ai_lead_qualifier.Ingestion.Items.{ServiceItem}
use ai_lead_qualifier.Ingestion.Finalizer.{
  after_write, unique_items, describe_item, as_runtime_error, pair_items, prepare_items,
  write_to_pgvector, finalizer_node,
}

module _ {W : Type 0} ⦃fl : Float W⦄ (services : Services W) where
  abbrev SameReview : IngestionState W → IngestionState W → Type 0
  SameReview s s' =
      (s'.confidence_score ≡ s.confidence_score) × (s'.flagged_items ≡ s.flagged_items)

  after_write-SameReview :
      (s : IngestionState W) (table : Table W) (r : Answer (Table W × ℕ))
      → SameReview s (after_write services s table r).0
  unfolding after_write
  after_write-SameReview s table (ok (t, n)) = (refl, refl)
  after_write-SameReview s table (raised exc) = (refl, refl)

  pub finalizer_node-SameReview :
      (settings : Settings W) (s : IngestionState W) (table : Table W)
      → SameReview s (finalizer_node services settings s table).0
  unfolding finalizer_node
  finalizer_node-SameReview settings s table = after_write-SameReview s table _

  after_write-Appends :
      (s : IngestionState W) (table : Table W) (r : Answer (Table W × ℕ))
      → Appends s (after_write services s table r).0
  unfolding after_write
  after_write-Appends s table (ok (t, n)) = (_, refl)
  after_write-Appends s table (raised exc) = (_, refl)

  pub finalizer_node-Appends :
      (settings : Settings W) (s : IngestionState W) (table : Table W)
      → Appends s (finalizer_node services settings s table).0
  unfolding finalizer_node
  finalizer_node-Appends settings s table = after_write-Appends s table _

  -- How often an id occurs.
  abbrev pub count_id : String → List (ServiceItem W) → ℕ
  count_id id [] = 0
  count_id id (item ∷ items) = (if str_eq item.id id then 1 else 0) + count_id id items

  str_eq_other : (a b : String) → str_eq a b ≡ false → str_eq b a ≡ false
  str_eq_other a b h = elim (Bool-cases (str_eq b a)) [
    | inl same ↦
        let p : str_eq a b ≡ true = (eq_iff a b).1 (sym ((eq_iff b a).0 same)) in
        absurd (ground arith)
    | inr other ↦ other
  ]

  unique_items_count :
      (id : String) (seen : List String) (items : List (ServiceItem W))
      → count_id id (unique_items services seen items)
        ≡ (if any (str_eq id) seen then 0 else min 1 (count_id id items))
  unfolding unique_items
  unique_items_count id seen [] = ground arith
  unique_items_count id seen (item ∷ items) = elim (Bool-cases (any (str_eq item.id) seen)) [
    | inl again ↦ elim (Bool-cases (str_eq item.id id)) [
      | inl this ↦
          let p : any (str_eq item.id) seen ≡ any (str_eq id) seen =
            ap (λ x. any (str_eq x) seen) ((eq_iff item.id id).0 this) in
          rw again (ground (arith, unique_items_count id seen items))
      | inr other ↦ rw again (ground (arith, unique_items_count id seen items))
    ]
    | inr first ↦ elim (Bool-cases (str_eq item.id id)) [
      | inl this ↦
          let p : any (str_eq item.id) seen ≡ any (str_eq id) seen =
            ap (λ x. any (str_eq x) seen) ((eq_iff item.id id).0 this) in
          let q : str_eq id item.id ≡ true =
            (eq_iff id item.id).1 (sym ((eq_iff item.id id).0 this)) in
          rw first (ground (arith, unique_items_count id (item.id ∷ seen) items))
      | inr other ↦
          let q : str_eq id item.id ≡ false = str_eq_other item.id id other in
          rw first (ground (arith, unique_items_count id (item.id ∷ seen) items))
    ]
  ]

  -- The id that the metadata of a written row has, and how often an id is written.
  abbrev is_text : String → Option (Json W) → Bool
  is_text id (some (text t)) = str_eq t id
  is_text id _ = false

  pub count_written : String → List (Item W) → ℕ
  unfolding lookup
  count_written id [] = 0
  count_written id (item ∷ items) =
      (if is_text id (lookup "id" (or_else item.metadata [])) then 1 else 0)
      + count_written id items

  pair_items_count :
      (tenant_id id : String) (items : List (ServiceItem W)) (vs : List (List W))
      (rows : List (Item W))
      → pair_items services tenant_id items vs ≡ ok rows
      → count_written id rows ≡ count_id id items
  unfolding pair_items count_written
  pair_items_count tenant_id id [] vs rows h = rw (sym (ok-injective h)) refl
  pair_items_count tenant_id id (item ∷ items) [] rows h = absurd (ground arith)
  pair_items_count tenant_id id (item ∷ items) (v ∷ vs) rows h =
      elim (Answer-cases (pair_items services tenant_id items vs)) [
        | inr (x, e) ↦ absurd (ground arith)
        | inl (rest, e) ↦
            let p = ok-injective (rw e at h) in
            rw (sym p, pair_items_count tenant_id id items vs rest e) refl
      ]

  prepare_items_count :
      (settings : Settings W) (tenant_id id : String) (items : List (ServiceItem W))
      (rows : List (Item W))
      → prepare_items services settings tenant_id items ≡ ok rows
      → count_written id rows ≡ count_id id items
  unfolding prepare_items
  prepare_items_count settings tenant_id id items rows h =
      elim (Answer-cases (
        as_runtime_error services tenant_id (length items) (
          aembed_documents settings services.embeddings tenant_id
            (map (describe_item services) items)))) [
              | inr (x, e) ↦ absurd (ground arith)
              | inl (vs, e) ↦ pair_items_count tenant_id id items vs rows (rw e at h)
            ]

  -- What a write of items puts into the table: rows with the ids of the items, each as often.
  pub record IsWritten (tenant_id : String) (count : String → ℕ) (table t : Table W) : Type 0 where
    pub rows : List (Item W)
    pub upserted : t ≡ (upsert_items rows tenant_id table).0
    pub ids : (id : String) → count_written id rows ≡ count id

  write_to_pgvector-IsWritten :
      (settings : Settings W) (tenant_id : String) (items : List (ServiceItem W))
      (table t : Table W) (n : ℕ)
      → write_to_pgvector services settings tenant_id items table ≡ ok (t, n)
      → IsWritten tenant_id (λ id. count_id id items) table t
  unfolding write_to_pgvector
  write_to_pgvector-IsWritten settings tenant_id [] table t n h = record {
    rows = [];
    upserted = unfold upsert_items in sym (ap (λ x. x.0) (ok-injective h));
    ids = λ id. unfold count_written in refl;
  }
  write_to_pgvector-IsWritten settings tenant_id (item ∷ items) table t n h =
      elim (Answer-cases (prepare_items services settings tenant_id (item ∷ items))) [
        | inr (x, e) ↦ absurd (ground arith)
        | inl (rows, e) ↦ elim (Answer-cases services.commit) [
          | inr (x, f) ↦ absurd (ground arith)
          | inl (u, f) ↦
              let p : (upsert_items rows tenant_id table).0 ≡ t = ground arith in
              record {
                rows = rows;
                upserted = sym p;
                ids = λ id. prepare_items_count settings tenant_id id (item ∷ items) rows e;
              }
        ]
      ]

  IsWritten-others :
      (tenant_id : String) (count : String → ℕ) (table t : Table W)
      → IsWritten tenant_id count table t
      → others tenant_id t ≡ others tenant_id table
  IsWritten-others tenant_id count table t w =
      ap (others tenant_id) w.upserted ∙ (wipe_tenant_isolated tenant_id w.rows table).0

  -- The finalizer reports no error, has written rows with every id of the items once, and leaves the
  -- other tenants' rows as they are; or it reports one and leaves the table as it is.
  abbrev pub IsAtomic : IngestionState W → Table W → IngestionState W × Table W → Type 0
  IsAtomic s table (s', t) =
      ((s'.error ≡ none)
        × IsWritten s.tenant_id (λ id. min 1 (count_id id s.normalized_items)) table t
        × (others s.tenant_id t ≡ others s.tenant_id table))
      ⊎ (((detail : String) × (s'.error ≡ some detail)) × (t ≡ table))

  after_write-IsAtomic :
      (s : IngestionState W) (table : Table W) (r : Answer (Table W × ℕ))
      → ((t : Table W) (n : ℕ)
          → r ≡ ok (t, n)
          → IsWritten s.tenant_id (λ id. min 1 (count_id id s.normalized_items)) table t)
      → IsAtomic s table (after_write services s table r)
  unfolding after_write
  after_write-IsAtomic s table (ok (t, n)) h =
      inl (refl, h t n refl, IsWritten-others s.tenant_id _ table t (h t n refl))
  after_write-IsAtomic s table (raised exc) h = inr ((_, refl), refl)

  -- When the finalizer reports no error it has upserted rows of the tenant that hold every id of the
  -- items exactly once, and no other id, and the rows of every other tenant are as they were; when it
  -- reports one, the whole table is as it was.
  pub finalizer_node-IsAtomic :
      (settings : Settings W) (s : IngestionState W) (table : Table W)
      → IsAtomic s table (finalizer_node services settings s table)
  unfolding finalizer_node
  finalizer_node-IsAtomic settings s table = after_write-IsAtomic s table _ λ t n e.
      let w =
        write_to_pgvector-IsWritten settings s.tenant_id
          (unique_items services [] s.normalized_items) table t n e in
      record {
        rows = w.rows;
        upserted = w.upserted;
        ids = λ id. w.ids id ∙ unique_items_count id [] s.normalized_items;
      }
