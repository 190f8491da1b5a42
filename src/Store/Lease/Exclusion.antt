-- ===== src/Store/Lease/Exclusion.antt =====
-- Mutual exclusion: who may take the lease, and who may give it up.
use sombreado_service.Base.{
  ◌∙◌, elem, arith, ℕ, ◌+◌, ◌<◌, ◌≡◌, ◌≢◌, refl, Bool, true, false, not, ◌&&◌, ◌||◌, Option, none,
  some, ◌==◌, arith, Bool-cases, inl, inr,
}
use sombreado_service.Store.Errors.{Text, lease_held_by}
use sombreado_service.Store.Schema.{Db, Lease, Status, satisfies_constraints}
use sombreado_service.Store.Hoare.{Post, Post-bind, Post-weaken, Post-execute}
use sombreado_service.Store.Validate.{members_of}
use sombreado_service.Store.Lifecycle.Invariant.{Distinct-satisfies_constraints, elem-orphans}
use sombreado_service.Store.Tx.{err, execute}
use sombreado_service.Store.Delete.{status_in, delete_orphan_staging, is_protected, orphans}
use sombreado_service.Store.Delete.Orphans.{Deleted, delete_orphan_staging-Deleted}
use sombreado_service.Store.Lifecycle.Publish.{Outcome, Outcome-transaction, transaction-err}
use sombreado_service.Store.Lease.{
  is_expired, write_lease, reclaim, claim_rows, claim_scrape_lease, remove_lease,
  release_scrape_lease, holder_of, scrape_lease_holder,
}

-- Another holder's lease that is still running stands in the way of an unforced claim.
abbrev pub is_blocked : Text → ℕ → Bool → Option Lease → Bool
is_blocked holder now force none = false
is_blocked holder now force (some l) =
    not (l.holder_id == holder) && not (is_expired l now) && not force

-- What the recovery of a lease leaves: the pointers, and the published generations with their members.
pub record Recovered (before db : Db) : Type 0 where
  pub current : db.current ≡ before.current
  pub previous : db.previous ≡ before.previous
  pub kept :
      (h : Text)
      → status_in h before.generations ≡ some Status.published
      → (status_in h db.generations ≡ some Status.published)
        × (members_of h db ≡ members_of h before)
  pub only :
      (h : Text)
      → status_in h db.generations ≡ some Status.published
      → status_in h before.generations ≡ some Status.published

-- The state after a claim that returns.
pub record Claimed (holder : Text) (now ttl : ℕ) (before db : Db) : Type 0 where
  pub lease :
      db.lease ≡ some (record { holder_id = holder; claimed_at = now; expires_at = now + ttl })
  pub constraints : satisfies_constraints db ≡ true
  pub recovered : Recovered before db

Recovered-refl : (db : Db) → Recovered db db
Recovered-refl db = record {
  current = refl;
  previous = refl;
  kept = λ h e. (e, refl);
  only = λ h e. e;
}

-- An orphan is not published.
Recovered-Deleted :
    (before db : Db)
    → satisfies_constraints before ≡ true
    → Deleted
        (orphans (is_protected before.current before.previous none) before.generations)
        before
        db
    → Recovered before db
Recovered-Deleted before db sat s = record {
  current = s.current;
  previous = s.previous;
  kept = λ h e. (s.status h ∙ rw (kept_id h e) e, s.members h (kept_id h e));
  only = λ h e. ground (arith, s.status h, e);
}
  where
    kept_id :
        (h : Text)
        → status_in h before.generations ≡ some Status.published
        → elem h (orphans (is_protected before.current before.previous none) before.generations)
          ≡ false
    kept_id h e =
        elem-orphans h (is_protected before.current before.previous none) before.generations
          (Distinct-satisfies_constraints before sat)
        ∙ rw e refl

reclaim-Recovered :
    (holder : Text) (now : ℕ) (force : Bool) (o : Option Lease) (db : Db)
    → satisfies_constraints db ≡ true
    → Post (λ _ d. Recovered db d) (reclaim holder now force o db)
unfolding reclaim
reclaim-Recovered holder now force none db sat = Recovered-refl db
reclaim-Recovered holder now force (some l) db sat =
    elim (Bool-cases (not (l.holder_id == holder) && not (is_expired l now) && not force)) [
      | inl e ↦ rw e tt
      | inr e ↦ rw e (elim (Bool-cases (is_expired l now || force)) [
        | inl p ↦ rw p (
            Post-weaken
              (λ _ d.
                Deleted (orphans (is_protected db.current db.previous none) db.generations) db d)
              (λ _ d. Recovered db d) (delete_orphan_staging none db)
              (λ _ d q. Recovered-Deleted db d sat q) (delete_orphan_staging-Deleted none db))
        | inr p ↦ rw p (Recovered-refl db)
      ])
    ]

-- From a state that meets the constraints, a claim raises and changes nothing, or the holder has the
-- lease until `now + ttl`, and what passengers are shown is as it was: the pointers and every
-- published generation with its members.
pub claim_scrape_lease-Claimed :
    (holder : Text) (now ttl : ℕ) (force : Bool) (db : Db)
    → satisfies_constraints db ≡ true
    → Outcome (Claimed holder now ttl db) db (claim_scrape_lease holder now ttl force db)
unfolding claim_scrape_lease write_lease
claim_scrape_lease-Claimed holder now ttl force db sat =
    Outcome-transaction (Claimed holder now ttl db) (claim_rows holder now ttl force) db (
      Post-bind (λ _ d. Recovered db d) (λ _ d. Claimed holder now ttl db d)
        (reclaim holder now force db.lease) _ db
        (reclaim-Recovered holder now force db.lease db sat)
        (λ _ d p.
          Post-execute (λ _ x. Claimed holder now ttl db x) (write_lease holder now (now + ttl)) d
            (λ c. record {
              lease = refl;
              constraints = c;
              recovered = record {
                current = p.current;
                previous = p.previous;
                kept = p.kept;
                only = p.only;
              };
            })))

pub claim_scrape_lease-blocked :
    (holder : Text) (now ttl : ℕ) (l : Lease) (db : Db)
    → db.lease ≡ some l
    → l.holder_id ≢ holder
    → now < l.expires_at
    → claim_scrape_lease holder now ttl false db ≡ (err (lease_held_by l.holder_id), db)
unfolding claim_scrape_lease reclaim
claim_scrape_lease-blocked holder now ttl l db e ne running =
    transaction-err (claim_rows holder now ttl false) db (lease_held_by l.holder_id)
      (rw e (rw blocked refl))
  where
    blocked : (not (l.holder_id == holder) && not (is_expired l now) && not false) ≡ true
    blocked = ground arith

-- A release returns with the lease gone from its holder and left to any other holder, and with
-- nothing changed for passengers; or it raises and changes nothing.
pub release_scrape_lease_lem :
    (holder : Text) (db : Db)
    → Outcome
        (λ d.
          (scrape_lease_holder d ≢ some holder)
          × ((l : Lease) → db.lease ≡ some l → l.holder_id ≢ holder → d.lease ≡ some l)
          × Recovered db d
          × (satisfies_constraints d ≡ true))
        db
        (release_scrape_lease holder db)
unfolding release_scrape_lease scrape_lease_holder holder_of remove_lease
release_scrape_lease_lem holder db =
    Outcome-transaction _ (execute (λ d. record d { lease = remove_lease holder d.lease })) db (
      Post-execute _ (λ d. record d { lease = remove_lease holder d.lease }) db
        (λ c. (
          removed db.lease,
          λ l e ne. rw e (kept l ne),
          record { current = refl; previous = refl; kept = λ h e. (e, refl); only = λ h e. e },
          c,
        )))
  where
    removed : (o : Option Lease) → holder_of (remove_lease holder o) ≢ some holder
    removed none = λ p. cc p
    removed (some l) = elim (Bool-cases (l.holder_id == holder)) [
      | inl e ↦ rw e (λ p. cc p)
      | inr e ↦ rw e (λ p. ground (arith, e, p))
    ]

    kept : (l : Lease) → l.holder_id ≢ holder → remove_lease holder (some l) ≡ some l
    kept l ne = ground arith
