-- ===== src/Store/Backup/Newest.antt =====
-- A backup with the newest key outlives the pruning behind it, and is what a restore installs.
use sombreado_service.Base.{ℕ, Bool, true, none, [], ◌∷◌, ◌++◌, filter, if◌then◌else◌, ◌≡◌}
use sombreado_service.Store.Errors.{Text}
use sombreado_service.Store.Backup.{
  Objects, ObjectStorage, Answer, upload, download, delete, list_keys, done, raised, found,
}
use sombreado_service.Store.Backup.Job.{
  restore_aside_from_object, installed, copied, copy_failed, Backup, JobStatus, JobEnd, uploaded,
  failed, skipped_dirty, Restored,
}
use sombreado_service.Store.Backup.Keys.{keys_of, IsBefore}

module _ (starts : Text → Bool) (k : Text) (starts_k : starts k ≡ true) (bytes : ℕ) where
  -- Of the keys with the prefix.
  abbrev IsNewest : Objects → Type 0
  IsNewest o = IsBefore k (filter starts (keys_of o))

-- How a job ended, and what a restore behind it does.
abbrev pub restored_after :
    {S : Type 0} → ObjectStorage S → (ℕ → Bool) → (Text → Bool) → JobEnd S → JobStatus × Restored
restored_after storage is_sound starts job =
    (job.outcome.status, restore_aside_from_object storage is_sound starts job.storage)

-- A call that writes has done so, or has raised and left the objects as they were.
abbrev pub Writes :
    {S : Type 0} → (S → Objects) → Objects → Objects → Answer (Unit {0}) × S → Type 0
Writes view before after (done u, t) = view t ≡ after
Writes view before after (raised e, t) = view t ≡ before

-- A storage that holds objects: any write may raise, and the reads return.
pub record Holds {S : Type 0} (storage : ObjectStorage S) (view : S → Objects) : Type 0 where
  pub uploads :
      (key : Text) (bytes : ℕ) (s : S)
      → Writes view (view s) (upload key bytes (view s)) (storage.upload key bytes s)
  pub deletes :
      (key : Text) (s : S) → Writes view (view s) (delete key (view s)) (storage.delete key s)
  pub downloads : (key : Text) (s : S) → storage.download key s ≡ found key (download key (view s))
  pub lists :
      (starts : Text → Bool) (s : S) → storage.list_keys starts s ≡ done (list_keys starts (view s))

module _ {S : Type 0} (storage : ObjectStorage S) (view : S → Objects) (holds : Holds storage view)
    (is_sound : ℕ → Bool) (starts : Text → Bool) where
  module _ (k : Text) (starts_k : starts k ≡ true) (bytes : ℕ) where
    -- The object of `k` is there, with the newest key.
    abbrev Kept : S → Type 0
    Kept s =
        (o : Objects) × (view s ≡ o ++ (k, bytes) ∷ [])
        × IsNewest starts k starts_k bytes o
        × (download k o ≡ none)

module _ (is_sound : ℕ → Bool) (k : Text) where
  -- An uploaded copy is what the restore installs.
  abbrev pub ended : ℕ → Restored → Answer (Unit {0}) → JobStatus × Restored
  ended bytes before (done u) = (uploaded, installed k bytes)
  ended bytes before (raised e) = (failed, before)

  -- How a job ends, and what a restore then does, by the answer of the upload and by what a restore would
  -- have done before.
  abbrev pub expected : Backup → (ℕ → Answer (Unit {0})) → Restored → JobStatus × Restored
  expected copy_failed upload before = (failed, before)
  expected (copied bytes) upload before =
      if is_sound bytes then ended bytes before (upload bytes) else (skipped_dirty, before)
