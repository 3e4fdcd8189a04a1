-- ===== src/Api/Uploads.antt =====
-- backend/api/routes.py: `upload_catalogue`. `lower` is that of `str`, and `hex` that of a new UUID; a
-- byte of the file is a character of its text.
pub mod Storing
pub mod Reading
use ai_lead_qualifier.Prelude.{
  ℕ, suc, String, Bool, Option, none, some, ◌≡◌, [], ◌∷◌, ◌||◌, ltb, or_else, if◌then◌else◌,
}
use ai_lead_qualifier.Core.Text.{f_string, is_empty_text, rfind_char, drop_text, text_length}
use ai_lead_qualifier.Core.Json.{Dict, lookup}
use ai_lead_qualifier.Core.Exceptions.{
  Answer, ok, raised, Exc, Kind, client_error, boto_core_error, http_error, ◌>>=◌,
}
use ai_lead_qualifier.Core.Config.{Settings}
use ai_lead_qualifier.Services.Storage.{S3, upload_file}

-- `_ALLOWED_EXTENSIONS`
abbrev pub allowed_extensions : Dict String
allowed_extensions = (".csv", "csv") ∷ (".json", "json") ∷ (".xlsx", "xlsx") ∷ []

-- `_CONTENT_TYPE_MAP`
abbrev pub content_type_map : Dict String
content_type_map =
    (".csv", "text/csv")
    ∷ (".json", "application/json")
    ∷ (".xlsx", "application/vnd.openxmlformats-officedocument.spreadsheetml.sheet")
    ∷ []

pub record UploadResponse : Type 0 where
  pub object_key : String
  pub file_format : String

-- The text behind the last dot of the name, in lower case.
unfoldable pub extension_of : (String → String) → Option String → String
unfolding rfind_char drop_text
extension_of lower filename =
    let original_name = or_else filename "" in
    elim (rfind_char b'.' original_name) [
      | none ↦ ""
      | some dot_idx ↦ f_string ("." ∷ lower (drop_text (suc dot_idx) original_name) ∷ [])
    ]

-- `except (ClientError, BotoCoreError)`, and `except Exception`
upload_failure : Exc → Exc
upload_failure e =
    let unavailable =
      http_error 502 "Impossibile caricare il file su S3. Riprovare tra qualche istante." in
    elim e.kind [
      | client_error ↦ unavailable
      | boto_core_error ↦ unavailable
      | _ ↦ http_error 500 "Errore interno durante l'upload."
    ]

module _ {B : Type 0} (s3 : S3 B) where
  after_upload : String → Answer (String × B) → Answer (UploadResponse × B)
  unfolding upload_failure
  after_upload file_format (ok (object_key, bucket)) =
      ok (record { object_key = object_key; file_format = file_format }, bucket)
  after_upload file_format (raised e) = raised (upload_failure e)

  -- With an extension that is allowed.
  pub upload_contents :
      ℕ → String → String → String → String → String → B → Answer (UploadResponse × B)
  unfolding after_upload upload_file lookup
  upload_contents upload_max_bytes file_format ext_str contents tenant_id hex bucket =
      if is_empty_text contents
      then raised (http_error 400 "File vuoto.")
      else if ltb upload_max_bytes (text_length contents)
      then raised (http_error 413 "File troppo grande.")
      else after_upload file_format (
          upload_file s3 contents (or_else (lookup ext_str content_type_map) "") tenant_id hex
            ext_str bucket)

  unfoldable pub upload_catalogue :
      {W : Type 0}
      → Settings W
      → (String → String)
      → Option String
      → String
      → String
      → String
      → B
      → Answer (UploadResponse × B)
  unfolding extension_of upload_contents lookup
  upload_catalogue settings lower filename contents tenant_id hex bucket =
      let ext_str = extension_of lower filename in
      elim (lookup ext_str allowed_extensions) [
        | none ↦ raised (
            http_error 400 (
              f_string
                ("Estensione non supportata: '" ∷ ext_str ∷ "'. Usa .csv, .json o .xlsx." ∷ [])))
        | some file_format ↦
            upload_contents settings.upload_max_bytes file_format ext_str contents tenant_id hex
              bucket
      ]
