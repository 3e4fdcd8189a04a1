-- ===== src/Services/Storage.antt =====
-- backend/services/storage.py: the keys of the objects and the calls of S3, whose client is a
-- parameter. A byte of a file is a character of its text.
pub mod Keys
use Prim.Native.Char.{Char, code}
use Prim.Native.String.{[], ◌∷◌}
use mathlib.Core.List.{[] as nil, ◌∷◌ as ◌::◌}
use ai_lead_qualifier.Prelude.{
  ℕ, String, Bool, Option, none, some, ◌≡◌, ◌≢◌, ◌==◌, ◌&&◌, ◌||◌, leb, if◌then◌else◌,
}
use ai_lead_qualifier.Core.Text.{f_string, is_empty_text}
use ai_lead_qualifier.Core.Exceptions.{Answer, ok, ◌>>=◌}

-- The client's calls on the state of the bucket.
pub record S3 (B : Type 0) : Type 0 where
  pub put_object : String → String → String → B → Answer B
  pub get_object : String → B → Answer String
  pub delete_object : String → B → Answer B
  pub generate_presigned_url : String → ℕ → B → Answer String

-- S3 is consistent: an object is read as it was last written, and a write is to one key.
pub record S3Laws (B : Type 0) (s3 : S3 B) : Type 0 where
  pub get-put :
      (k body content_type : String) (b b' : B)
      → s3.put_object k body content_type b ≡ ok b'
      → s3.get_object k b' ≡ ok body
  pub get-put_other :
      (k j body content_type : String) (b b' : B)
      → s3.put_object k body content_type b ≡ ok b'
      → k ≢ j
      → s3.get_object j b' ≡ s3.get_object j b
  pub get-delete_other :
      (k j : String) (b b' : B)
      → s3.delete_object k b ≡ ok b'
      → k ≢ j
      → s3.get_object j b' ≡ s3.get_object j b

-- `[A-Za-z0-9_-]`
unfoldable pub is_safe : Char → Bool
is_safe c =
    let n = code c in
    leb b'A' n && leb n b'Z'
    || leb b'a' n && leb n b'z'
    || leb b'0' n && leb n b'9'
    || n == b'_'
    || n == b'-'

-- `_SAFE_TENANT_RE.sub("", tenant_id)`
unfoldable pub keep_safe : String → String
unfolding is_safe
keep_safe [] = []
keep_safe (c ∷ s) = let rest = keep_safe s in if is_safe c then c ∷ rest else rest

unfoldable pub safe_tenant : String → String
unfolding keep_safe
safe_tenant tenant_id =
    if is_empty_text (keep_safe tenant_id) then "unknown" else keep_safe tenant_id

-- `hex` is that of a new UUID.
unfoldable pub make_object_key : String → String → String → String
unfolding safe_tenant f_string
make_object_key tenant_id hex extension =
    f_string (safe_tenant tenant_id :: "/" :: hex :: extension :: nil)

module _ {S : Type 0} where
  -- The session of the process, which is made from the settings where there is none, and the state
  -- of the module after the call.
  abbrev pub get_session : S → Option S → S × Option S
  get_session new none = (new, some new)
  get_session new (some session) = (session, some session)

  abbrev pub init_storage : S → Option S → Option S
  init_storage new session = (get_session new session).1

  abbrev pub close_storage : Option S → Option S
  close_storage session = none

module _ {B : Type 0} (s3 : S3 B) where
  -- Its exceptions are logged and raised again.
  unfoldable pub upload_file : String → String → String → String → String → B → Answer (String × B)
  upload_file contents content_type tenant_id hex extension bucket = do
    bucket' ← s3.put_object (make_object_key tenant_id hex extension) contents content_type bucket
    ok (make_object_key tenant_id hex extension, bucket')

  unfoldable pub get_presigned_url : String → ℕ → B → Answer String
  get_presigned_url object_key expires_in bucket =
      s3.generate_presigned_url object_key expires_in bucket

  unfoldable pub download_file : String → B → Answer String
  download_file object_key bucket = s3.get_object object_key bucket

  unfoldable pub delete_file : String → B → Answer B
  delete_file object_key bucket = s3.delete_object object_key bucket
