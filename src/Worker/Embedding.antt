-- ===== src/Worker/Embedding.antt =====
-- The task writes embeddings, of the right dimension, and nothing else.
use ai_lead_qualifier.Prelude.{
  String, Option, none, some, List, [], ◌∷◌, map, ◌≡◌, refl, sym, ◌∙◌, ap, ◌⊎◌, inl, inr,
  if◌then◌else◌, Bool-cases, length, arith,
}
use ai_lead_qualifier.Float.{Float}
use ai_lead_qualifier.Core.Exceptions.{ok, Answer-cases}
use ai_lead_qualifier.Core.Config.{Settings}
use ai_lead_qualifier.Database.Catalogue.{Row}
use ai_lead_qualifier.Services.Embeddings.{aembed_documents}
use ai_lead_qualifier.Services.Embeddings.Dimensions.{aembed_documents-HasDimension}
use ai_lead_qualifier.Ingestion.Normalizer.{row_to_text}
use ai_lead_qualifier.Api.Catalogue.{StoredRow, is_item, fetch_item}
use ai_lead_qualifier.Worker.{
  set_embedding, TaskCalls, raw_row, new_embedding, embed_row, update_embedding_task,
}

module _ {W : Type 0} where
  -- A row without its embedding.
  abbrev pub bare : StoredRow W → StoredRow W
  bare stored = record stored { row = record stored.row { embedding = [] } }

  set_embedding-bare :
      (v : List W) (id tenant_id : String) (items : List (StoredRow W))
      → map bare (set_embedding v id tenant_id items) ≡ map bare items
  unfolding set_embedding
  set_embedding-bare v id tenant_id [] = refl
  set_embedding-bare v id tenant_id (stored ∷ items) =
      elim (Bool-cases (is_item id tenant_id stored)) [
        | inl found ↦ rw found (ap (◌∷◌ (bare stored)) (set_embedding-bare v id tenant_id items))
        | inr other ↦ rw other (ap (◌∷◌ (bare stored)) (set_embedding-bare v id tenant_id items))
      ]

  abbrev pub without_item : String → String → List (StoredRow W) → List (StoredRow W)
  without_item id tenant_id [] = []
  without_item id tenant_id (stored ∷ items) =
      let rest = without_item id tenant_id items in
      if is_item id tenant_id stored then rest else stored ∷ rest

  without_item-set_embedding :
      (v : List W) (id tenant_id : String) (items : List (StoredRow W))
      → without_item id tenant_id (set_embedding v id tenant_id items)
        ≡ without_item id tenant_id items
  unfolding set_embedding
  without_item-set_embedding v id tenant_id [] = refl
  without_item-set_embedding v id tenant_id (stored ∷ items) =
      ground (arith, without_item-set_embedding v id tenant_id items)

  fetch_item-set_embedding :
      (v : List W) (id tenant_id : String) (items : List (StoredRow W)) (row : Row W)
      → fetch_item id tenant_id items ≡ some row
      → fetch_item id tenant_id (set_embedding v id tenant_id items)
        ≡ some (record row { embedding = v })
  unfolding set_embedding fetch_item
  fetch_item-set_embedding v id tenant_id [] row h = absurd (ground arith)
  fetch_item-set_embedding v id tenant_id (stored ∷ items) row h =
      ground (arith, fetch_item-set_embedding v id tenant_id items row)

module _ {W : Type 0} ⦃fl : Float W⦄ (settings : Settings W) (calls : TaskCalls W) where
  new_embedding_lem :
      (tenant_id : String) (row : Row W) (v : List W)
      → new_embedding settings calls tenant_id row ≡ ok v
      → length v ≡ settings.pgvector_embedding_dim
  unfolding new_embedding
  new_embedding_lem tenant_id row v h =
      let texts = row_to_text calls.json calls.pydantic (raw_row settings calls row) ∷ [] in
      elim (Answer-cases (aembed_documents settings calls.embeddings tenant_id texts)) [
        | inr (e, p) ↦ absurd (ground arith)
        | inl ([], p) ↦ absurd (ground arith)
        | inl (u ∷ us, p) ↦
            let (d, _) =
              aembed_documents-HasDimension settings calls.embeddings tenant_id texts (u ∷ us) p in
            let e : u ≡ v = ground arith in ap length (sym e) ∙ d
      ]

  -- What a task that returns has done to the rows.
  pub record IsEmbedded (tenant_id : String) (before after : List (StoredRow W)) (status : String)
      : Type 0 where
    pub kept : map bare after ≡ map bare before
    pub done :
        ((status ≡ "not_found") × (after ≡ before))
        ⊎ ((status ≡ "updated")
            × ((id : String) × (row : Row W) × (v : List W) × (fetch_item id tenant_id before
                  ≡ some row)
                × (fetch_item id tenant_id after ≡ some (record row { embedding = v }))
                × (length v ≡ settings.pgvector_embedding_dim)
                × (without_item id tenant_id after ≡ without_item id tenant_id before)))

  embed_row-IsEmbedded :
      (id tenant_id : String) (found : Option (Row W)) (items after : List (StoredRow W))
      (status : String)
      → fetch_item id tenant_id items ≡ found
      → embed_row settings calls id tenant_id found items ≡ ok (after, status)
      → IsEmbedded tenant_id items after status
  unfolding embed_row
  embed_row-IsEmbedded id tenant_id none items after status f h =
      let same : items ≡ after = ground arith in
      rw (sym same) (record { kept = refl; done = inl (ground arith, refl) })
  embed_row-IsEmbedded id tenant_id (some row) items after status f h =
      elim (Answer-cases (new_embedding settings calls tenant_id row)) [
        | inr (e, p) ↦ absurd (ground arith)
        | inl (v, p) ↦ elim (Answer-cases calls.execute) [
          | inr (e, q) ↦ absurd (ground arith)
          | inl (done, q) ↦
              let written : set_embedding v id tenant_id items ≡ after = ground arith in
              rw (sym written) (record {
                kept = set_embedding-bare v id tenant_id items;
                done = inr (
                  ground arith,
                  (
                    id,
                    row,
                    v,
                    f,
                    fetch_item-set_embedding v id tenant_id items row f,
                    new_embedding_lem tenant_id row v p,
                    without_item-set_embedding v id tenant_id items,
                  ),
                );
              })
        ]
      ]

  -- Let no other transaction change the table between the read and the write. A task that returns has
  -- changed no column but embedding. It reports "not_found" and has changed nothing, or it reports
  -- "updated": then the item of the tenant has an embedding of the configured dimension and is
  -- otherwise what it was, and every other row is unchanged.
  pub update_embedding_task-IsEmbedded :
      (item_id tenant_id : String) (items after : List (StoredRow W)) (status : String)
      → update_embedding_task settings calls item_id tenant_id items items ≡ ok (after, status)
      → IsEmbedded tenant_id items after status
  unfolding update_embedding_task
  update_embedding_task-IsEmbedded item_id tenant_id items after status h =
      elim (Answer-cases (calls.parse_uuid item_id)) [
        | inr (e, p) ↦ absurd (ground arith)
        | inl (id, p) ↦
            embed_row-IsEmbedded id tenant_id (fetch_item id tenant_id items) items after status
              refl (ground arith)
      ]
