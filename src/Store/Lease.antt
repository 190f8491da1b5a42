-- ===== src/Store/Lease.antt =====
-- The scrape lease of src/sombreado/store/generation.py: claim, release, and who holds it.
pub mod Exclusion
pub mod Returns
use sombreado_service.Base.{
  ℕ, ◌+◌, Bool, true, false, not, ◌&&◌, ◌||◌, Option, none, some, ◌==◌, leb, if◌then◌else◌,
}
use sombreado_service.Store.Errors.{Text, lease_held_by}
use sombreado_service.Store.Schema.{Db, Lease}
use sombreado_service.Store.Tx.{
  Tx, Method, pure, raise_if, when, query, execute, ◌>>=◌, ◌>>◌, transaction,
}
use sombreado_service.Store.Delete.{delete_orphan_staging}

-- `expires <= now`
unfoldable pub is_expired : Lease → ℕ → Bool
is_expired l now = leb l.expires_at now

-- INSERT ... ON CONFLICT (singleton) DO UPDATE
unfoldable pub write_lease : Text → ℕ → ℕ → Db → Db
write_lease holder now expires_at db = record db {
  lease = some (record { holder_id = holder; claimed_at = now; expires_at = expires_at });
}

-- The guard on an existing row, and the recovery of an expired or forced one.
unfoldable pub reclaim : Text → ℕ → Bool → Option Lease → Tx Unit
unfolding is_expired
reclaim holder now force none = pure tt
reclaim holder now force (some l) = do
  raise_if (not (l.holder_id == holder) && not (is_expired l now) && not force)
      (lease_held_by l.holder_id)
  when (is_expired l now || force) (delete_orphan_staging none)

unfoldable pub claim_rows : Text → ℕ → ℕ → Bool → Tx Unit
claim_rows holder now ttl_seconds force = do
  row ← query (λ db. db.lease)
  reclaim holder now force row
  execute (write_lease holder now (now + ttl_seconds))

-- `claim_scrape_lease`; `now` is `datetime.now(UTC)`. The advisory lock makes claims one after the
-- other, as the transactions of this model are.
unfoldable pub claim_scrape_lease : Text → ℕ → ℕ → Bool → Method Unit
unfolding claim_rows
claim_scrape_lease holder now ttl_seconds force =
    transaction (claim_rows holder now ttl_seconds force)

-- DELETE FROM scrape_lease WHERE holder_id = holder
unfoldable pub remove_lease : Text → Option Lease → Option Lease
remove_lease holder none = none
remove_lease holder (some l) = if l.holder_id == holder then none else some l

unfoldable pub release_scrape_lease : Text → Method Unit
release_scrape_lease holder =
    transaction (execute (λ db. record db { lease = remove_lease holder db.lease }))

unfoldable pub holder_of : Option Lease → Option Text
holder_of none = none
holder_of (some l) = some l.holder_id

unfoldable pub scrape_lease_holder : Db → Option Text
scrape_lease_holder db = holder_of db.lease
