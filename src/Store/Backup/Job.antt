-- ===== src/Store/Backup/Job.antt =====
-- `run_backup_job` and `restore_aside_from_object` of src/sombreado/store/backup.py, on any storage.
use sombreado_service.Base.{ℕ, Bool, Option, none, some, List, [], ◌∷◌, ◌++◌, if◌then◌else◌}
use sombreado_service.Store.Errors.{Text}
use sombreado_service.Store.Backup.{
  ObjectStorage, StorageError, Answer, done, raised, prune_old_backups,
}

pub data JobStatus : Type 0 where
  uploaded failed skipped_dirty : JobStatus

-- What the job tells the alerter; an outcome's message is one of these too.
pub data Alert : Type 0 where
  live_integrity_failed upload_skipped backup_failed : Alert
  storage_failed prune_failed : StorageError → Alert

pub record BackupJobOutcome : Type 0 where
  pub status : JobStatus
  pub object_key : Option Text
  pub message : Option Alert

-- `create_online_backup` and the reading of its file: the bytes, or one of the errors that the job
-- expects.
pub data Backup : Type 0 where
  copied : ℕ → Backup
  copy_failed : Backup

pub record JobEnd (S : Type 0) : Type 0 where
  pub outcome : BackupJobOutcome
  pub alerts : List Alert
  pub storage : S

abbrev pub job_end :
    {S : Type 0} → JobStatus → Option Text → Option Alert → List Alert → S → JobEnd S
job_end status key message alerts s = record {
  outcome = record { status = status; object_key = key; message = message };
  alerts = alerts;
  storage = s;
}

-- `check_live_integrity`: a dirty live database is told, and does not stop the job.
abbrev pub check_live_integrity : Bool → List Alert
check_live_integrity is_live_sound = if is_live_sound then [] else live_integrity_failed ∷ []

-- What a restore raises, or the key whose bytes it installs.
pub data Restored : Type 0 where
  no_backup_objects no_checked_backup : Restored
  storage_raised : StorageError → Restored
  installed : Text → ℕ → Restored

unfoldable pub reversed : List Text → List Text
reversed [] = []
reversed (key ∷ keys) = reversed keys ++ key ∷ []

-- `integrity_check_file` of a database's bytes is a parameter.
module _ {S : Type 0} (storage : ObjectStorage S) (is_sound : ℕ → Bool) where
  abbrev pub after_prune : Text → List Alert → Answer (Unit {0}) × S → JobEnd S
  after_prune key alerts (done u, s) = job_end uploaded (some key) none alerts s
  after_prune key alerts (raised e, s) =
      job_end uploaded (some key) none (alerts ++ prune_failed e ∷ []) s

  abbrev pub after_upload : (Text → Bool) → ℕ → Text → List Alert → Answer (Unit {0}) × S → JobEnd S
  after_upload starts retain key alerts (done u, s) =
      after_prune key alerts (prune_old_backups storage starts retain s)
  after_upload starts retain key alerts (raised e, s) =
      job_end failed none (some (storage_failed e)) (alerts ++ storage_failed e ∷ []) s

  -- `key` is the name made of the time and a uuid4.
  unfoldable pub upload_backup : (Text → Bool) → ℕ → Text → List Alert → Backup → S → JobEnd S
  upload_backup starts retain key alerts copy_failed s =
      job_end failed none (some backup_failed) (alerts ++ backup_failed ∷ []) s
  upload_backup starts retain key alerts (copied bytes) s =
      if is_sound bytes
      then after_upload starts retain key alerts (storage.upload key bytes s)
      else job_end skipped_dirty none (some upload_skipped) (alerts ++ upload_skipped ∷ []) s

  unfoldable pub run_backup_job : (Text → Bool) → ℕ → Text → Bool → Backup → S → JobEnd S
  run_backup_job starts retain key is_live_sound backup s =
      upload_backup starts retain key (check_live_integrity is_live_sound) backup s

  abbrev pub try_object : Text → Restored → Answer ℕ → Restored
  try_object key rest (raised e) = storage_raised e
  try_object key rest (done bytes) = if is_sound bytes then installed key bytes else rest

  unfoldable pub first_sound : List Text → S → Restored
  first_sound [] s = no_checked_backup
  first_sound (key ∷ keys) s = try_object key (first_sound keys s) (storage.download key s)

  abbrev pub restore_listed : Answer (List Text) → S → Restored
  restore_listed (raised e) s = storage_raised e
  restore_listed (done []) s = no_backup_objects
  restore_listed (done (key ∷ keys)) s = first_sound (reversed (key ∷ keys)) s

  unfoldable pub restore_aside_from_object : (Text → Bool) → S → Restored
  restore_aside_from_object starts s = restore_listed (storage.list_keys starts s) s
