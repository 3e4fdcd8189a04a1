-- ===== src/Ingestion/Nodes/Reading.antt =====
-- The chunker on a file that is there and can be read.
use ai_lead_qualifier.Prelude.{◌<◌, ◌≤◌, String, none, some, List, All, length, ◌≡◌, refl}
use ai_lead_qualifier.Float.{Float}
use ai_lead_qualifier.Core.Json.{Json}
use ai_lead_qualifier.Core.Exceptions.{Answer, ok}
use ai_lead_qualifier.Core.Config.{Settings}
use ai_lead_qualifier.Ingestion.Chunks.Partition.{concat, split_chunks_partition}
use ai_lead_qualifier.Ingestion.State.{IngestionState, Services}
use ai_lead_qualifier.Ingestion.Nodes.{reader, with_chunks, after_read, chunker_node}

module _ {W : Type 0} ⦃fl : Float W⦄ (services : Services W) (settings : Settings W)
    (s : IngestionState W) where
  -- The chunks are the rows, in order, none of them empty or larger than the setting.
  pub record IsChunked (rows : List (Json W)) (s' : IngestionState W) : Type 0 where
    pub all_rows : concat s'.raw_chunks ≡ rows
    pub sizes : All (λ c. (0 < length c) × (length c ≤ settings.ingestion_chunk_size)) s'.raw_chunks
    pub error : s'.error ≡ none
    pub index : s'.current_chunk_index ≡ 0

  chunker_node_lem :
      (read : String → Answer (List (Json W))) (content : String) (rows : List (Json W))
      → reader services s.file_format ≡ some read
      → services.download_file s.source_file ≡ ok content
      → read content ≡ ok rows
      → chunker_node services settings s ≡ with_chunks services settings s rows
  unfolding chunker_node after_read
  chunker_node_lem read content rows r d p = rw (r, d, p, chunker_node, after_read) refl

  with_chunks-IsChunked :
      (rows : List (Json W))
      → 0 < settings.ingestion_chunk_size
      → IsChunked rows (with_chunks services settings s rows)
  unfolding with_chunks
  with_chunks-IsChunked rows size =
      let (all, sizes) = split_chunks_partition rows settings.ingestion_chunk_size size in
      record { all_rows = all; sizes = sizes; error = refl; index = refl }

  pub chunker_node-IsChunked :
      (read : String → Answer (List (Json W))) (content : String) (rows : List (Json W))
      → 0 < settings.ingestion_chunk_size
      → reader services s.file_format ≡ some read
      → services.download_file s.source_file ≡ ok content
      → read content ≡ ok rows
      → IsChunked rows (chunker_node services settings s)
  chunker_node-IsChunked read content rows size r d p =
      rw (chunker_node_lem read content rows r d p) (with_chunks-IsChunked rows size)
