-- ===== src/Store/Lease/Returns.antt =====
-- When a claim and a release of src/sombreado/store/generation.py return, and how two holders take turns.
use sombreado_service.Base.{
  ℕ, ◌+◌, ◌<◌, ◌≡◌, ◌≢◌, refl, ap, Bool, ==-true, true, false, Option, none, some, ◌==◌, arith,
}
use mathlib.Core.Path.{subst}
use sombreado_service.Store.Errors.{Text, lease_held_by}
use sombreado_service.Store.Schema.{Db, Lease, satisfies_constraints}
use sombreado_service.Store.Tx.{Tx, Result, ok, err, execute, transaction, ◌>>◌}
use sombreado_service.Store.Lifecycle.Publish.{Outcome}
use sombreado_service.Store.Lease.Exclusion.{
  Claimed, claim_scrape_lease-Claimed, claim_scrape_lease-blocked,
}
use sombreado_service.Store.Lease.{
  is_expired, write_lease, reclaim, claim_rows, claim_scrape_lease, remove_lease,
  release_scrape_lease,
}

-- No constraint is about the lease.
lease-constraints :
    (l : Option Lease) (db : Db)
    → satisfies_constraints db ≡ true
    → satisfies_constraints (record db { lease = l }) ≡ true
unfolding satisfies_constraints
lease-constraints l db sat = sat

execute-returns :
    (f : Db → Db) (db : Db) → satisfies_constraints (f db) ≡ true → execute f db ≡ ok (tt, f db)
unfolding execute
execute-returns f db sat = rw sat refl

transaction-ok : (m : Tx (Unit {0})) (db d : Db) → m db ≡ ok (tt, d) → transaction m db ≡ (ok tt, d)
unfolding transaction
transaction-ok m db d h =
    ap {B = Result (Unit {0}) × Db} (λ r. elim r [ ok (a, x) ↦ (ok a, x) | err e ↦ (err e, db) ]) h

release_scrape_lease-returns :
    (holder : Text) (db : Db)
    → satisfies_constraints db ≡ true
    → release_scrape_lease holder db ≡ (ok tt, record db { lease = remove_lease holder db.lease })
unfolding release_scrape_lease
release_scrape_lease-returns holder db sat =
    transaction-ok (execute (λ x. record x { lease = remove_lease holder x.lease })) db
      (record db { lease = remove_lease holder db.lease })
      (execute-returns (λ x. record x { lease = remove_lease holder x.lease }) db
        (lease-constraints (remove_lease holder db.lease) db sat))

-- There is no lease, or the holder's own is still running.
abbrev pub IsOpenTo : Text → ℕ → Option Lease → Type 0
IsOpenTo holder now none = Unit
IsOpenTo holder now (some l) = (l.holder_id ≡ holder) × (now < l.expires_at)

module _ (holder : Text) (now ttl : ℕ) (db : Db) (sat : satisfies_constraints db ≡ true) where
  written :
      execute (write_lease holder now (now + ttl)) db
      ≡ ok (tt, write_lease holder now (now + ttl) db)
  unfolding write_lease
  written = execute-returns (write_lease holder now (now + ttl)) db (
      lease-constraints
        (some (record { holder_id = holder; claimed_at = now; expires_at = now + ttl })) db sat)

  claims :
      (o : Option Lease)
      → IsOpenTo holder now o
      → (reclaim holder now false o >> execute (write_lease holder now (now + ttl))) db
        ≡ ok (tt, write_lease holder now (now + ttl) db)
  unfolding reclaim
  claims none h = written
  claims (some l) h = rw (own, running) written
    where
      own : (l.holder_id == holder) ≡ true
      own = ground (arith, h.0)

      running : is_expired l now ≡ false
      running = ground (arith, h.1)

pub claim_scrape_lease-returns :
    (holder : Text) (now ttl : ℕ) (db : Db)
    → satisfies_constraints db ≡ true
    → IsOpenTo holder now db.lease
    → claim_scrape_lease holder now ttl false db ≡ (ok tt, write_lease holder now (now + ttl) db)
unfolding claim_scrape_lease claim_rows
claim_scrape_lease-returns holder now ttl db sat h =
    transaction-ok (claim_rows holder now ttl false) db (write_lease holder now (now + ttl) db)
      (claims holder now ttl db sat db.lease h)

-- After a claim that returned, until the lease ends: another holder's unforced claim raises
-- `ScrapeLeaseHeldError` with the holder's name and changes nothing; the holder's release returns, and behind
-- it the other claim returns, and changes the lease only.
pub claim_scrape_lease-excludes :
    (holder other : Text) (now later ttl ttl' : ℕ) (force : Bool) (db d : Db)
    → satisfies_constraints db ≡ true
    → claim_scrape_lease holder now ttl force db ≡ (ok tt, d)
    → holder ≢ other
    → later < now + ttl
    → (claim_scrape_lease other later ttl' false d ≡ (err (lease_held_by holder), d))
      × ((released : Db) × (release_scrape_lease holder d ≡ (ok tt, released))
          × (claim_scrape_lease other later ttl' false released ≡ (
            ok tt,
            record released {
              lease =
                  some
                    (record { holder_id = other; claimed_at = later; expires_at = later + ttl' });
            },
          )))
unfolding write_lease remove_lease
claim_scrape_lease-excludes holder other now later ttl ttl' force db d sat claimed ne running =
    let c =
      subst (Outcome (Claimed holder now ttl db) db) claimed
        (claim_scrape_lease-Claimed holder now ttl force db sat) in
    let released = record d { lease = remove_lease holder d.lease } in
    (
      claim_scrape_lease-blocked other later ttl'
          (record { holder_id = holder; claimed_at = now; expires_at = now + ttl }) d c.lease ne
          running,
      (
        released,
        release_scrape_lease-returns holder d c.constraints,
        claim_scrape_lease-returns other later ttl' released
            (lease-constraints (remove_lease holder d.lease) d c.constraints)
            (rw (free c.lease) tt),
      ),
    )
  where
    free :
        d.lease ≡ some (record { holder_id = holder; claimed_at = now; expires_at = now + ttl })
        → remove_lease holder d.lease ≡ none
    free e = rw e (rw (==-true holder holder refl) refl)
