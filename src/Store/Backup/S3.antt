-- ===== src/Store/Backup/S3.antt =====
-- `S3CompatibleObjectStorage` of src/sombreado/store/object_storage.py, on any S3 client.
use sombreado_service.Base.{
  ℕ, zero, suc, Bool, Option, none, some, List, [], ◌∷◌, ◌++◌, any, same_codes, leb, if◌then◌else◌,
}
use sombreado_service.Base.Order.{sorted}
use sombreado_service.Store.Errors.{Text}
use sombreado_service.Store.Schema.{Codes}
use sombreado_service.Store.Geometry.{codes}
use sombreado_service.Store.Backup.{
  StorageError, file_not_found, upload_failed, download_failed, delete_failed, list_failed, Answer,
  done, raised,
}

-- What a call of boto3 returns, or one of the two kinds of errors it raises; a `ClientError` has the
-- code of its response.
pub data Called (A : Type 0) : Type 0 where
  returned : A → Called A
  client_error : Codes → Called A
  boto_core_error : Called A

-- The response of `list_objects_v2`.
pub record Page : Type 0 where
  pub contents : List Text
  pub is_truncated : Bool
  pub next_token : Option Text

-- The client, whose state is S; a listing takes the prefix and the token of its page.
pub record S3Client (S : Type 0) : Type 0 where
  pub put_object : Text → ℕ → S → Called (Unit {0}) × S
  pub get_object : Text → S → Called ℕ
  pub list_objects : (Text → Bool) → Option Text → S → Called Page
  pub delete_object : Text → S → Called (Unit {0}) × S

abbrev pub s3_missing_codes : List Codes
s3_missing_codes = codes "NoSuchKey" ∷ codes "404" ∷ codes "NotFound" ∷ []

unfoldable pub is_missing_object : Codes → Bool
is_missing_object code = any (same_codes code) s3_missing_codes

-- `except _S3_CLIENT_ERRORS`
abbrev pub or_failed : {A : Type 0} → StorageError → Called A → Answer A
or_failed e (returned a) = done a
or_failed e (client_error code) = raised e
or_failed e boto_core_error = raised e

abbrev pub downloaded : Text → Called ℕ → Answer ℕ
downloaded key (returned bytes) = done bytes
downloaded key (client_error code) =
    if is_missing_object code then raised (file_not_found key) else raised (download_failed key)
downloaded key boto_core_error = raised (download_failed key)

abbrev pub sorted_keys : Answer (List Text) → Answer (List Text)
sorted_keys (done keys) = done (sorted leb keys)
sorted_keys (raised e) = raised e

module _ {S : Type 0} (client : S3Client S) where
  unfoldable pub s3_upload : Text → ℕ → S → Answer (Unit {0}) × S
  s3_upload key bytes s =
      let called = client.put_object key bytes s in
      (or_failed (upload_failed key) called.0, called.1)

  unfoldable pub s3_download : Text → S → Answer ℕ
  s3_download key s = downloaded key (client.get_object key s)

  unfoldable pub s3_delete : Text → S → Answer (Unit {0}) × S
  s3_delete key s =
      let called = client.delete_object key s in (or_failed (delete_failed key) called.0, called.1)

  -- The rest of a turn, behind the call; `rest` is the next turns.
  abbrev pub after_page :
      List Text
      → (List Text → Option Text → Option (Answer (List Text)))
      → Called Page
      → Option (Answer (List Text))
  after_page keys rest (returned page) =
      let seen = keys ++ page.contents in
      if page.is_truncated then rest seen page.next_token else some (done seen)
  after_page keys rest (client_error code) = some (raised list_failed)
  after_page keys rest boto_core_error = some (raised list_failed)

  -- `while True`, for at most `fuel` pages; `none` says that they were not enough.
  unfoldable pub list_pages :
      ℕ → (Text → Bool) → S → List Text → Option Text → Option (Answer (List Text))
  list_pages zero starts s keys token = none
  list_pages (suc fuel) starts s keys token =
      after_page keys (list_pages fuel starts s) (client.list_objects starts token s)

  abbrev pub sorted_pages : Option (Answer (List Text)) → Option (Answer (List Text))
  sorted_pages none = none
  sorted_pages (some answer) = some (sorted_keys answer)

  unfoldable pub s3_list_keys : ℕ → (Text → Bool) → S → Option (Answer (List Text))
  s3_list_keys fuel starts s = sorted_pages (list_pages fuel starts s [] none)
