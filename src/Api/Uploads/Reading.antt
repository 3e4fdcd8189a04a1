-- ===== src/Api/Uploads/Reading.antt =====
-- A run on an uploaded file reads what was uploaded.
use ai_lead_qualifier.Prelude.{◌<◌, String, Option, some, List, true, ◌≡◌, ◌∙◌}
use ai_lead_qualifier.Float.{Float}
use ai_lead_qualifier.Core.Json.{Json}
use ai_lead_qualifier.Core.Exceptions.{Answer, ok}
use ai_lead_qualifier.Core.Config.{Settings}
use ai_lead_qualifier.Services.Storage.{S3, S3Laws, download_file}
use ai_lead_qualifier.Services.Storage.Keys.{all_safe}
use ai_lead_qualifier.Ingestion.State.{Services, make_initial_state}
use ai_lead_qualifier.Ingestion.Nodes.{reader, chunker_node}
use ai_lead_qualifier.Ingestion.Nodes.Reading.{IsChunked, chunker_node-IsChunked}
use ai_lead_qualifier.Api.Uploads.{UploadResponse, upload_catalogue}
use ai_lead_qualifier.Api.Uploads.Storing.{upload_catalogue-IsStored}

module _ {B W : Type 0} ⦃fl : Float W⦄ (s3 : S3 B) (laws : S3Laws B s3) (settings : Settings W)
    (services : Services W) where
  -- By the laws of S3: let an upload succeed, and let an ingestion run be started with the key and the
  -- format of its answer, on the bucket that it left. If the reader of the format makes rows of the
  -- uploaded contents, the chunker ends without an error, and its chunks are these rows, in order.
  pub chunker_node-upload_catalogue :
      (lower : String → String) (filename : Option String) (contents tenant_id hex : String)
      (bucket bucket' : B) (r : UploadResponse) (feedback : Option String)
      (read : String → Answer (List (Json W))) (rows : List (Json W))
      → all_safe hex ≡ true
      → 0 < settings.ingestion_chunk_size
      → upload_catalogue s3 settings lower filename contents tenant_id hex bucket ≡ ok (r, bucket')
      → services.download_file r.object_key ≡ download_file s3 r.object_key bucket'
      → reader services r.file_format ≡ some read
      → read contents ≡ ok rows
      → IsChunked services settings
          (make_initial_state tenant_id r.object_key r.file_format feedback)
          rows
          (chunker_node services settings
            (make_initial_state tenant_id r.object_key r.file_format feedback))
  unfolding make_initial_state
  chunker_node-upload_catalogue lower filename contents tenant_id hex bucket bucket' r feedback read
        rows safe size uploaded same found p =
      let stored =
        upload_catalogue-IsStored s3 laws settings lower filename contents tenant_id hex bucket
          bucket' r safe uploaded in
      chunker_node-IsChunked services settings
        (make_initial_state tenant_id r.object_key r.file_format feedback) read contents rows size
        found (same ∙ stored.stored) p
