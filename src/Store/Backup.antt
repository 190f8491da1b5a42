-- ===== src/Store/Backup.antt =====
-- The object storage of src/sombreado/store/object_storage.py: its protocol, `MemoryObjectStorage`, and
-- `_prune_old_backups` of src/sombreado/store/backup.py. A key is a text, and the bytes of an object are
-- an opaque number.
pub mod Objects
pub mod Job
pub mod Keys
pub mod Newest
pub mod S3
pub mod Paging
mod Tests
use sombreado_service.Base.{
  ℕ, ◌-◌, Bool, true, false, not, Option, none, some, List, [], ◌∷◌, map, filter, length, take, ltb,
  leb, ◌==◌, if◌then◌else◌,
}
use sombreado_service.Base.Order.{sorted}
use sombreado_service.Store.Errors.{Text}

-- What a call of the storage raises.
pub data StorageError : Type 0 where
  file_not_found : Text → StorageError
  upload_failed download_failed delete_failed : Text → StorageError
  list_failed : StorageError

pub data Answer (A : Type 0) : Type 0 where
  done : A → Answer A
  raised : StorageError → Answer A

-- `ObjectStorage`; `startswith` of the prefix stands for the prefix.
pub record ObjectStorage (S : Type 0) : Type 0 where
  pub upload : Text → ℕ → S → Answer (Unit {0}) × S
  pub download : Text → S → Answer ℕ
  pub list_keys : (Text → Bool) → S → Answer (List Text)
  pub delete : Text → S → Answer (Unit {0}) × S

-- The dictionary, in the order of its first insertions.
abbrev pub Objects : Type 0
Objects = List (Text × ℕ)

unfoldable pub upload : Text → ℕ → Objects → Objects
upload key bytes [] = (key, bytes) ∷ []
upload key bytes (o ∷ objects) =
    let rest = upload key bytes objects in if o.0 == key then (key, bytes) ∷ objects else o ∷ rest

-- `none` is the KeyError.
unfoldable pub download : Text → Objects → Option ℕ
download key [] = none
download key (o ∷ objects) =
    let rest = download key objects in if o.0 == key then some o.1 else rest

unfoldable pub delete : Text → Objects → Objects
delete key objects = filter (λ o. not (o.0 == key)) objects

unfoldable pub list_keys : (Text → Bool) → Objects → List Text
list_keys starts objects = sorted leb (filter starts (map (λ o. o.0) objects))

abbrev pub found : Text → Option ℕ → Answer ℕ
found key none = raised (file_not_found key)
found key (some bytes) = done bytes

-- `MemoryObjectStorage`
abbrev pub memory : ObjectStorage Objects
memory = record {
  upload = λ key bytes objects. (done tt, upload key bytes objects);
  download = λ key objects. found key (download key objects);
  list_keys = λ starts objects. done (list_keys starts objects);
  delete = λ key objects. (done tt, delete key objects);
}

-- `keys[:-retain] if retain > 0 else keys`
abbrev pub stale_keys : ℕ → List Text → List Text
stale_keys retain keys = if ltb 0 retain then take (length keys - retain) keys else keys

module _ {S : Type 0} (storage : ObjectStorage S) where
  -- The rest of the loop, unless the deletion before it raised.
  abbrev pub unless_raised :
      (S → Answer (Unit {0}) × S) → Answer (Unit {0}) × S → Answer (Unit {0}) × S
  unless_raised rest (done u, s) = rest s
  unless_raised rest (raised e, s) = (raised e, s)

  unfoldable pub delete_all : List Text → S → Answer (Unit {0}) × S
  delete_all [] s = (done tt, s)
  delete_all (key ∷ keys) s = unless_raised (delete_all keys) (storage.delete key s)

  abbrev pub prune_listed : ℕ → Answer (List Text) → S → Answer (Unit {0}) × S
  prune_listed retain (raised e) s = (raised e, s)
  prune_listed retain (done keys) s = delete_all (stale_keys retain keys) s

  unfoldable pub prune_old_backups : (Text → Bool) → ℕ → S → Answer (Unit {0}) × S
  prune_old_backups starts retain s = prune_listed retain (storage.list_keys starts s) s
