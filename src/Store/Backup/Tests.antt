-- ===== src/Store/Backup/Tests.antt =====
-- The object storage at two old backups and a new one.
use sombreado_service.Base.{Option, arith, false, true, none, some, [], ◌∷◌, ◌≡◌, refl}
use sombreado_service.Base.Order.{sorted, insert}
use sombreado_service.Store.Backup.{
  ObjectStorage, Objects, memory, upload, delete, delete_all, list_keys, prune_old_backups,
}
use sombreado_service.Store.Errors.{Text}
use sombreado_service.Store.Backup.{done, raised, delete_failed}
use sombreado_service.Store.Backup.S3.{
  Page, Called, returned, boto_core_error, S3Client, s3_list_keys, list_pages, sorted_keys,
}
use sombreado_service.Store.Backup.Paging.{Pages, s3_list_keys-Pages}

abbrev old_backups : Objects
old_backups = (7, 70) ∷ (5, 50) ∷ []

two_retained :
    (prune_old_backups memory (λ k. true) 2 (upload 9 90 old_backups)).1 ≡ (7, 70) ∷ (9, 90) ∷ []
unfolding prune_old_backups delete_all delete list_keys sorted insert upload
two_retained = refl

-- A storage that cannot delete.
abbrev append_only : ObjectStorage Objects
append_only = record memory { delete = λ key objects. (raised (delete_failed key), objects) }

-- A bucket with two pages, of which the second has the token 1.
abbrev first_page : Page
first_page = record { contents = 9 ∷ 5 ∷ []; is_truncated = true; next_token = some 1 }

abbrev second_page : Page
second_page = record { contents = 7 ∷ []; is_truncated = false; next_token = none }

abbrev page_of : Option Text → Called Page
page_of none = returned first_page
page_of (some token) = returned second_page

abbrev bucket : S3Client (Unit {0})
bucket = record {
  put_object = λ key bytes s. (returned tt, s);
  get_object = λ key s. boto_core_error;
  list_objects = λ starts token s. page_of token;
  delete_object = λ key s. (returned tt, s);
}

two_turns : s3_list_keys bucket 2 (λ k. true) tt ≡ some (done (5 ∷ 7 ∷ 9 ∷ []))
unfolding s3_list_keys list_pages sorted insert
two_turns = refl

s3_list_keys-Pages_example :
    s3_list_keys bucket 2 (λ k. true) tt ≡ some (sorted_keys (done (9 ∷ 5 ∷ 7 ∷ [])))
s3_list_keys-Pages_example =
    s3_list_keys-Pages bucket (λ k. true) tt 2
      (Pages.more none first_page 1 (done (7 ∷ [])) refl refl
        (Pages.last (some 1) second_page refl refl))
      (omega arith)
