-- ===== src/Api/Uploads/Storing.antt =====
-- What an upload that succeeds has stored, and under which key.
use ai_lead_qualifier.Prelude.{
  ◌≤◌, String, true, false, Option, some, ◌≡◌, refl, sym, inl, inr, arith, Bool-cases, Option-cases,
  str_eq, eq_iff, or_else,
}
use mathlib.Core.Path.{subst}
use ai_lead_qualifier.Core.Text.{is_empty_text, text_length}
use ai_lead_qualifier.Core.Json.{lookup}
use ai_lead_qualifier.Core.Exceptions.{ok, Answer-cases}
use ai_lead_qualifier.Core.Config.{Settings}
use ai_lead_qualifier.Services.Storage.{
  S3, S3Laws, make_object_key, safe_tenant, upload_file, download_file,
}
use ai_lead_qualifier.Services.Storage.Keys.{all_safe, has_char, IsScoped, make_object_key-IsScoped}
use ai_lead_qualifier.Api.Uploads.{
  allowed_extensions, content_type_map, UploadResponse, extension_of, upload_contents,
  upload_catalogue,
}

allowed_no_slash :
    (ext format : String) → lookup ext allowed_extensions ≡ some format → has_char b'/' ext ≡ false
unfolding lookup
allowed_no_slash ext format h = elim (Bool-cases (str_eq ".csv" ext)) [
  | inl e ↦ rw (sym ((eq_iff ".csv" ext).0 e)) refl
  | inr a ↦ elim (Bool-cases (str_eq ".json" ext)) [
    | inl e ↦ rw (sym ((eq_iff ".json" ext).0 e)) refl
    | inr b ↦ elim (Bool-cases (str_eq ".xlsx" ext)) [
      | inl e ↦ rw (sym ((eq_iff ".xlsx" ext).0 e)) refl
      | inr c ↦ absurd (ground arith)
    ]
  ]
]

module _ {B W : Type 0} (s3 : S3 B) (laws : S3Laws B s3) (settings : Settings W)
    (lower : String → String) where
  -- What was stored of the contents, and where.
  pub record IsStored (filename : Option String) (contents tenant_id : String) (r : UploadResponse)
      (bucket : B) : Type 0 where
    pub format : lookup (extension_of lower filename) allowed_extensions ≡ some r.file_format
    pub not_empty : is_empty_text contents ≡ false
    pub size : text_length contents ≤ settings.upload_max_bytes
    pub scoped : IsScoped (safe_tenant tenant_id) r.object_key
    pub stored : download_file s3 r.object_key bucket ≡ ok contents

  upload_file_lem :
      (contents content_type tenant_id hex ext key : String) (bucket bucket' : B)
      → upload_file s3 contents content_type tenant_id hex ext bucket ≡ ok (key, bucket')
      → (make_object_key tenant_id hex ext ≡ key) × (download_file s3 key bucket' ≡ ok contents)
  unfolding upload_file download_file
  upload_file_lem contents content_type tenant_id hex ext key bucket bucket' h =
      let made = make_object_key tenant_id hex ext in
      elim (Answer-cases (s3.put_object made contents content_type bucket)) [
        | inr (x, e) ↦ absurd (ground arith)
        | inl (b, e) ↦
            let same : made ≡ key = ground arith in
            let after : b ≡ bucket' = ground arith in
            (
              same,
              rw (sym same) (laws.get-put made contents content_type bucket bucket' (ground arith)),
            )
      ]

  upload_contents_lem :
      (format ext contents tenant_id hex : String) (bucket bucket' : B) (r : UploadResponse)
      → upload_contents s3 settings.upload_max_bytes format ext contents tenant_id hex bucket
        ≡ ok (r, bucket')
      → (is_empty_text contents ≡ false)
        × (text_length contents ≤ settings.upload_max_bytes)
        × (r.file_format ≡ format)
        × (make_object_key tenant_id hex ext ≡ r.object_key)
        × (download_file s3 r.object_key bucket' ≡ ok contents)
  unfolding upload_contents
  upload_contents_lem format ext contents tenant_id hex bucket bucket' r h =
      let content_type = or_else (lookup ext content_type_map) "" in
      elim (Answer-cases (upload_file s3 contents content_type tenant_id hex ext bucket)) [
        | inr (x, e) ↦ absurd (ground arith)
        | inl ((key, b), e) ↦
            let (same, read) =
              upload_file_lem contents content_type tenant_id hex ext key bucket b e in
            ground arith
      ]

  -- By the laws of S3, and with a hexadecimal name of safe characters: an upload that succeeds had an
  -- allowed extension, whose format it reports, and contents that were neither empty nor larger than
  -- upload_max_bytes; the key that it reports is the tenant's, and a download of it gives the contents.
  pub upload_catalogue-IsStored :
      (filename : Option String) (contents tenant_id hex : String) (bucket bucket' : B)
      (r : UploadResponse)
      → all_safe hex ≡ true
      → upload_catalogue s3 settings lower filename contents tenant_id hex bucket ≡ ok (r, bucket')
      → IsStored filename contents tenant_id r bucket'
  unfolding upload_catalogue
  upload_catalogue-IsStored filename contents tenant_id hex bucket bucket' r h e =
      elim (Option-cases (lookup (extension_of lower filename) allowed_extensions)) [
        | inl n ↦ absurd (ground arith)
        | inr (format, s) ↦
            let ext = extension_of lower filename in
            let (filled, small, reported, made, read) =
              upload_contents_lem format ext contents tenant_id hex bucket bucket' r
                (ground arith) in
            record {
              format = ground arith;
              not_empty = filled;
              size = small;
              scoped =
                  subst (IsScoped (safe_tenant tenant_id)) made
                    (make_object_key-IsScoped tenant_id hex ext h (allowed_no_slash ext format s));
              stored = read;
            }
      ]
