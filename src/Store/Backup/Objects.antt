-- ===== src/Store/Backup/Objects.antt =====
-- What the object storage of src/sombreado/store/object_storage.py gives back.
use sombreado_service.Base.{
  ℕ, Bool, none, some, List, [], ◌∷◌, ◌≡◌, refl, ◌==◌, if◌then◌else◌, arith, elem,
}
use sombreado_service.Store.Errors.{Text}
use sombreado_service.Store.Backup.{
  Objects, upload, download, delete, delete_all, prune_old_backups, stale_keys, list_keys, memory,
  done,
}

pub download-upload :
    (j k : Text) (bytes : ℕ) (o : Objects)
    → download j (upload k bytes o) ≡ (if k == j then some bytes else download j o)
unfolding download upload
download-upload j k bytes [] = ground arith
download-upload j k bytes (x ∷ o) = ground (arith, download-upload j k bytes o)

pub download-delete :
    (j k : Text) (o : Objects) → download j (delete k o) ≡ (if k == j then none else download j o)
unfolding download delete
download-delete j k [] = ground arith
download-delete j k (x ∷ o) = ground (arith, download-delete j k o)

pub download-delete_all :
    (j : Text) (keys : List Text) (o : Objects)
    → download j (delete_all memory keys o).1 ≡ (if elem j keys then none else download j o)
unfolding delete_all
download-delete_all j [] o = refl
download-delete_all j (k ∷ keys) o =
    ground (arith, download-delete_all j keys (delete k o), download-delete j k o)

pub delete_all-done : (keys : List Text) (o : Objects) → (delete_all memory keys o).0 ≡ done tt
unfolding delete_all
delete_all-done [] o = refl
delete_all-done (k ∷ keys) o = delete_all-done keys (delete k o)

-- After an upload and then a pruning, a key that the pruning found stale has no object; of the other
-- keys, that of the upload has the uploaded bytes, and the rest have what they had before.
pub prune_old_backups-upload :
    (starts : Text → Bool) (retain : ℕ) (j k : Text) (bytes : ℕ) (o : Objects)
    → download j (prune_old_backups memory starts retain (upload k bytes o)).1 ≡ (
        if elem j (stale_keys retain (list_keys starts (upload k bytes o)))
        then none
        else if k == j
        then some bytes
        else download j o)
unfolding prune_old_backups
prune_old_backups-upload starts retain j k bytes o =
    rw
      (
        download-delete_all j (stale_keys retain (list_keys starts (upload k bytes o)))
            (upload k bytes o),
        download-upload j k bytes o,
      )
      refl
