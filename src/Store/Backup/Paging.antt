-- ===== src/Store/Backup/Paging.antt =====
-- The listing of src/sombreado/store/object_storage.py ends when the pages do.
use sombreado_service.Base.{
  ℕ, zero, suc, ◌≤◌, Bool, true, false, Option, none, some, List, [], ◌++◌, ◌≡◌, refl, ap, ◌∙◌,
  arith,
}
use mathlib.Core.List.{append_assoc}
use sombreado_service.Store.Errors.{Text}
use sombreado_service.Store.Schema.{Codes}
use sombreado_service.Store.Backup.{Answer, done, raised, list_failed}
use sombreado_service.Store.Backup.S3.{
  Called, returned, client_error, boto_core_error, Page, S3Client, list_pages, s3_list_keys,
  sorted_keys, sorted_pages,
}

-- The keys of a page before those of the pages behind it.
abbrev pub prepend : List Text → Answer (List Text) → Answer (List Text)
prepend keys (done rest) = done (keys ++ rest)
prepend keys (raised e) = raised e

prepend-append :
    (ks ls : List Text) (answer : Answer (List Text))
    → prepend (ks ++ ls) answer ≡ prepend ks (prepend ls answer)
prepend-append ks ls (done rest) = ap done (append_assoc ks ls rest)
prepend-append ks ls (raised e) = refl

-- The pages from a token on, as many as the number: the last one is not truncated, or its call raises;
-- each before it is truncated and names the next one.
pub data Pages (list : Option Text → Called Page)
    : Option Text → ℕ → Answer (List Text) → Type 0 where
  last :
      (token : Option Text) (page : Page)
      → list token ≡ returned page
      → page.is_truncated ≡ false
      → Pages list token 1 (done page.contents)
  fails :
      (token : Option Text) (code : Codes)
      → list token ≡ client_error code
      → Pages list token 1 (raised list_failed)
  breaks :
      (token : Option Text) → list token ≡ boto_core_error → Pages list token 1 (raised list_failed)
  more :
      (token : Option Text) (page : Page) (n : ℕ) (rest : Answer (List Text))
      → list token ≡ returned page
      → page.is_truncated ≡ true
      → Pages list page.next_token n rest
      → Pages list token (suc n) (prepend page.contents rest)

Pages-positive :
    (list : Option Text → Called Page) {token : Option Text} {n : ℕ} {answer : Answer (List Text)}
    → Pages list token n answer
    → 1 ≤ n
Pages-positive list (last token page e t) = omega arith
Pages-positive list (fails token code e) = omega arith
Pages-positive list (breaks token e) = omega arith
Pages-positive list (more token page n rest e t p) = omega arith

module _ {S : Type 0} (client : S3Client S) (starts : Text → Bool) (s : S) where
  list_pages-Pages :
      {token : Option Text} {n : ℕ} {answer : Answer (List Text)} (keys : List Text) (fuel : ℕ)
      → Pages (λ t. client.list_objects starts t s) token n answer
      → n ≤ fuel
      → list_pages client fuel starts s keys token ≡ some (prepend keys answer)
  unfolding list_pages
  list_pages-Pages keys zero p h = absurd (omega (arith, Pages-positive _ p))
  list_pages-Pages keys (suc fuel) (last token page e t) h = rw (e, t) refl
  list_pages-Pages keys (suc fuel) (fails token code e) h = rw e refl
  list_pages-Pages keys (suc fuel) (breaks token e) h = rw e refl
  list_pages-Pages keys (suc fuel) (more token page n rest e t p) h =
      rw (e, t)
        (list_pages-Pages (keys ++ page.contents) fuel p (omega arith)
          ∙ ap some (prepend-append keys page.contents rest))

  sorted-prepend :
      (answer : Answer (List Text))
      → sorted_pages client (some (prepend [] answer)) ≡ some (sorted_keys answer)
  sorted-prepend (done keys) = refl
  sorted-prepend (raised e) = refl

  -- When the listing that the bucket offers ends after some pages, the loop ends within that many turns:
  -- with the keys of all pages, sorted, or with the error of the page whose call raised.
  pub s3_list_keys-Pages :
      {n : ℕ} {answer : Answer (List Text)} (fuel : ℕ)
      → Pages (λ t. client.list_objects starts t s) none n answer
      → n ≤ fuel
      → s3_list_keys client fuel starts s ≡ some (sorted_keys answer)
  unfolding s3_list_keys
  s3_list_keys-Pages {answer = answer} fuel p h =
      ap (sorted_pages client) (list_pages-Pages [] fuel p h) ∙ sorted-prepend answer
