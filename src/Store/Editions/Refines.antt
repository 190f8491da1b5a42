-- ===== src/Store/Editions/Refines.antt =====
-- The tables of src/sombreado/store/generation.py read as the editions that were published.
use sombreado_service.Base.{
  ℕ, ◌≡◌, ◌≢◌, refl, sym, ap, ◌∙◌, inl, inr, true, false, Option, none, some, List, [], ◌∷◌, ◌++◌,
  ◌==◌, arith, eq_of-==, Bool-cases,
}
use mathlib.Core.Path.{subst}
use sombreado_service.Store.Errors.{Text}
use sombreado_service.Store.Schema.{Db, Status, staging, validated, published}
use sombreado_service.Store.Tx.{Result, ok, err}
use sombreado_service.Store.Delete.{is_at, status_in}
use sombreado_service.Store.Validate.{members_of}
use sombreado_service.Store.Lifecycle.{
  stage, validate, publish, discard_staging, add_generation, set_validated,
}
use sombreado_service.Store.Lifecycle.Invariant.{IsValid}
use sombreado_service.Store.Lifecycle.Publish.{
  Published, Outcome, publish-Published, publish_refuses,
}
use sombreado_service.Store.Lifecycle.Stage.{Staged, stage-Staged}
use sombreado_service.Store.Lifecycle.Discard.{
  Discarded, Validated, ValidateOutcome, validate-ValidateOutcome, discard_staging-Discarded,
}
use sombreado_service.Store.Lease.{claim_scrape_lease, release_scrape_lease}
use sombreado_service.Store.Lease.Exclusion.{
  Recovered, claim_scrape_lease-Claimed, release_scrape_lease_lem,
}
use sombreado_service.Store.Runs.{record_scrape_run, prune_scrape_runs}
use sombreado_service.Store.Runs.Retention.{record_scrape_run-Recovered, prune_scrape_runs-Pruned}
use sombreado_service.Store.Reach.{
  Step, stages, validates, publishes, discards, claims, releases, records, prunes, Reach, here,
  next, Reach-IsValid,
}
use sombreado_service.Store.Editions.{
  Edition, Editions, issue, issue_all, edition_of, editions, issued, published_by, publications,
}

edition_of-same :
    (o : Option Text) (a b : Db)
    → ((c : Text) → is_at c o ≡ true → members_of c b ≡ members_of c a)
    → edition_of b o ≡ edition_of a o
edition_of-same none a b h = refl
edition_of-same (some c) a b h =
    ap (λ ms. some (record { id = c; members = ms })) (h c (ground arith))

module _ (a b : Db) where
  -- Pointers that stay, to generations whose members stay.
  editions-same :
      IsValid a
      → b.current ≡ a.current
      → b.previous ≡ a.previous
      → ((c : Text) → status_in c a.generations ≡ some published → members_of c b ≡ members_of c a)
      → editions b ≡ editions a
  unfolding editions
  editions-same valid current previous members = λ i. record {
    current =
        (ap (edition_of b) current
            ∙ edition_of-same a.current a b (λ c h. members c (valid.current_published c h)))
          i;
    previous =
        (ap (edition_of b) previous
            ∙ edition_of-same a.previous a b (λ c h. members c (valid.previous_published c h)))
          i;
  }

  Recovered-editions : IsValid a → Recovered a b → editions b ≡ editions a
  Recovered-editions valid r = editions-same valid r.current r.previous (λ c e. (r.kept c e).1)

  -- A generation that is not published is not a published one.
  unlike :
      (g c : Text)
      → status_in g a.generations ≢ some published
      → status_in c a.generations ≡ some published
      → (g == c) ≡ false
  unlike g c ne e = elim (Bool-cases (g == c)) [
    | inl p ↦
        absurd
          (ne (subst (λ x. status_in x a.generations ≡ some published) (sym (eq_of-== g c p)) e))
    | inr p ↦ p
  ]

  Staged-editions : (g : Text) (at : ℕ) → IsValid a → Staged g at a b → editions b ≡ editions a
  unfolding add_generation
  Staged-editions g at valid s =
      editions-same valid s.untouched.current s.untouched.previous
        (λ c e. s.untouched.members c (unlike g c (λ q. cc (s.fresh, q)) e))

  Discarded-editions : (g : Text) → IsValid a → Discarded g a b → editions b ≡ editions a
  Discarded-editions g valid s =
      editions-same valid s.deleted.current s.deleted.previous
        (λ c e. s.deleted.members c (ground (arith, unlike g c s.unpublished e)))

  Validated-editions :
      (g : Text) (at : ℕ) → IsValid a → Validated g at a b → editions b ≡ editions a
  unfolding set_validated
  Validated-editions g at valid s =
      editions-same valid (ap (λ x. x.current) s.marked) (ap (λ x. x.previous) s.marked)
        (λ c e. ap (members_of c) s.marked)

  Published-editions :
      (g : Text)
      → Published g a b
      → editions b ≡ issue (record { id = g; members = members_of g a }) (editions a)
  unfolding editions
  Published-editions g p = λ i. record {
    current =
        (ap (edition_of b) p.current
            ∙ ap (λ ms. some (record { id = g; members = ms })) (p.members g (ground arith)))
          i;
    previous =
        (ap (edition_of b) p.previous
            ∙ edition_of-same a.current a b (λ c h. p.members c (ground (arith, h))))
          i;
  }

module _ (a : Db) (valid : IsValid a) where
  -- A call that publishes nothing leaves the editions, whether it returns or raises.
  Outcome-editions :
      (P : Db → Type 0) (r : Result (Unit {0}) × Db)
      → ((b : Db) → P b → editions b ≡ editions a)
      → Outcome P a r
      → editions r.1 ≡ editions a
  Outcome-editions P (ok u, b) k h = k b h
  Outcome-editions P (err e, b) k h = ap editions h

  validate-editions :
      (g : Text) (at : ℕ) (r : Result (Unit {0}) × Db)
      → ValidateOutcome g at a r
      → editions r.1 ≡ editions a
  validate-editions g at (ok u, b) h = Validated-editions a b g at valid h
  validate-editions g at (err e, b) (inl h) = ap editions h.0
  validate-editions g at (err e, b) (inr h) = Discarded-editions a b g valid h

  issued-editions :
      (g : Text) (r : Result (Unit {0}) × Db)
      → Outcome (Published g a) a r
      → editions r.1 ≡ issue_all (issued g a r) (editions a)
  unfolding issue_all
  issued-editions g (ok u, b) h = Published-editions a b g h
  issued-editions g (err e, b) h = ap editions h

  refused-editions :
      (g : Text) (e : Option Status)
      → status_in g a.generations ≡ e
      → e ≢ some validated
      → editions (publish g a).1 ≡ issue_all (issued g a (publish g a)) (editions a)
  unfolding issue_all
  refused-editions g e q ne = rw (publish_refuses g a (λ p. ne (sym q ∙ p))) refl

  publish-editions :
      (g : Text) (o : Option Status)
      → status_in g a.generations ≡ o
      → editions (publish g a).1 ≡ issue_all (issued g a (publish g a)) (editions a)
  publish-editions g (some validated) e =
      issued-editions g (publish g a) (publish-Published g a valid e)
  publish-editions g none e = refused-editions g none e (λ p. cc p)
  publish-editions g (some staging) e = refused-editions g (some staging) e (λ p. cc p)
  publish-editions g (some published) e = refused-editions g (some published) e (λ p. cc p)

pub Step-editions :
    {a b : Db} (st : Step a b) → IsValid a → editions b ≡ issue_all (published_by st) (editions a)
unfolding issue_all
Step-editions (stages float g created rows db) valid =
    Outcome-editions db valid (Staged g created db) (stage float g created rows db)
      (λ b. Staged-editions db b g created valid) (stage-Staged float g created rows db)
Step-editions (validates g at db) valid =
    validate-editions db valid g at (validate g at db)
      (validate-ValidateOutcome g at db valid.constraints)
Step-editions (publishes g db) valid = publish-editions db valid g (status_in g db.generations) refl
Step-editions (discards g db) valid =
    Outcome-editions db valid (Discarded g db) (discard_staging g db)
      (λ b. Discarded-editions db b g valid) (discard_staging-Discarded g db valid.constraints)
Step-editions (claims holder now ttl force db) valid =
    Outcome-editions db valid _ (claim_scrape_lease holder now ttl force db)
      (λ b p. Recovered-editions db b valid p.recovered)
      (claim_scrape_lease-Claimed holder now ttl force db valid.constraints)
Step-editions (releases holder db) valid =
    Outcome-editions db valid _ (release_scrape_lease holder db)
      (λ b p. Recovered-editions db b valid p.2) (release_scrape_lease_lem holder db)
Step-editions (records run db) valid =
    Outcome-editions db valid _ (record_scrape_run run db)
      (λ b p. Recovered-editions db b valid p.0) (record_scrape_run-Recovered run db)
Step-editions (prunes now retention_days keep_last db) valid =
    Outcome-editions db valid _ (prune_scrape_runs now retention_days keep_last db)
      (λ b p. Recovered-editions db b valid p.recovered)
      (prune_scrape_runs-Pruned now retention_days keep_last db)

issue_all-append :
    (es fs : List Edition) (s : Editions) → issue_all (es ++ fs) s ≡ issue_all es (issue_all fs s)
unfolding issue_all
issue_all-append [] fs s = refl
issue_all-append (e ∷ es) fs s = ap (issue e) (issue_all-append es fs s)

-- After any sequence of calls from a valid state, the current and the previous edition, with their
-- members, are those of the state before with the editions that the calls have published: only a
-- `publish` that returns changes them, and it puts its generation in front of the one that was current.
pub Reach-editions :
    {a b : Db} (r : Reach a b) → IsValid a → editions b ≡ issue_all (publications r) (editions a)
unfolding issue_all
Reach-editions here valid = refl
Reach-editions {a} (next r st) valid =
    Step-editions st (Reach-IsValid r valid)
    ∙ ap (issue_all (published_by st)) (Reach-editions r valid)
    ∙ sym (issue_all-append (published_by st) (publications r) (editions a))
