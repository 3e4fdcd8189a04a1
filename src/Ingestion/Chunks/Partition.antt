-- ===== src/Ingestion/Chunks/Partition.antt =====
-- The chunks are the rows, in order, none lost or read twice.
use ai_lead_qualifier.Prelude.{
  ℕ, zero, suc, ◌+◌, ◌≤◌, ◌<◌, ◌≡◌, sym, List, [], ◌∷◌, ◌++◌, map, ltb, length, take, drop,
  if◌then◌else◌, take-append-drop, drop-drop, drop_all, length-take, length-drop, Bool-cases, inl,
  inr, All, arith,
}
use mathlib.Core.Path.{subst}
use ai_lead_qualifier.Ingestion.Chunks.{range_from, split_chunks}

module _ {A : Type 0} where
  abbrev pub concat : List (List A) → List A
  concat [] = []
  concat (xs ∷ xss) = xs ++ concat xss

  module _ (rows : List A) (size : ℕ) (positive : 0 < size) where
    abbrev chunk_at : ℕ → List A
    chunk_at i = take size (drop i rows)

    -- The chunks from `i` on are the rows from `i` on.
    concat-range_from :
        (fuel i : ℕ)
        → length rows ≤ i + fuel
        → concat (map chunk_at (range_from fuel i (length rows) size)) ≡ drop i rows
    unfolding range_from
    concat-range_from zero i h = sym (drop_all i rows (omega arith))
    concat-range_from (suc fuel) i h = elim (Bool-cases (ltb i (length rows))) [
      | inl more ↦
          let rest = concat-range_from fuel (i + size) (omega arith) in
          rw (more, rest, sym (drop-drop i size rows)) (take-append-drop size (drop i rows))
      | inr done ↦ rw done (sym (drop_all i rows (ground arith)))
    ]

    -- The size of a chunk.
    abbrev IsChunk : List A → Type 0
    IsChunk c = (0 < length c) × (length c ≤ size)

    range_from-IsChunk :
        (fuel i : ℕ) → All IsChunk (map chunk_at (range_from fuel i (length rows) size))
    unfolding range_from
    range_from-IsChunk zero i = tt
    range_from-IsChunk (suc fuel) i = elim (Bool-cases (ltb i (length rows))) [
      | inl more ↦
          let c : IsChunk (chunk_at i) =
            ground (arith, length-take size (drop i rows), length-drop i rows) in
          subst
            (λ b.
              All IsChunk (
                map chunk_at (if b then i ∷ range_from fuel (i + size) (length rows) size else [])))
            (sym more) (c, range_from-IsChunk fuel (i + size))
      | inr done ↦
          subst
            (λ b.
              All IsChunk (
                map chunk_at (if b then i ∷ range_from fuel (i + size) (length rows) size else [])))
            (sym done) tt
    ]

    -- With a positive chunk size the chunks put together are the rows, in order, and every chunk has at
    -- least one row and at most the configured number.
    pub split_chunks_partition :
        (concat (split_chunks rows size) ≡ rows) × All IsChunk (split_chunks rows size)
    unfolding split_chunks
    split_chunks_partition =
        (concat-range_from (length rows) 0 (omega arith), range_from-IsChunk (length rows) 0)
