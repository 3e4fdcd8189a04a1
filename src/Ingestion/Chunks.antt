-- ===== src/Ingestion/Chunks.antt =====
-- backend/ingestion/graph.py: `_split_chunks`.
pub mod Partition
use ai_lead_qualifier.Prelude.{
  ℕ, zero, suc, ◌+◌, List, [], ◌∷◌, map, ltb, length, take, drop, if◌then◌else◌,
}

-- `range(i, n, size)`, on fuel; `n - i` is enough for a positive size.
pub range_from : ℕ → ℕ → ℕ → ℕ → List ℕ
range_from zero i n size = []
range_from (suc fuel) i n size =
    let rest = range_from fuel (i + size) n size in if ltb i n then i ∷ rest else []

unfoldable pub split_chunks : {A : Type 0} → List A → ℕ → List (List A)
unfolding range_from
split_chunks rows size =
    map (λ i. take size (drop i rows)) (range_from (length rows) 0 (length rows) size)
