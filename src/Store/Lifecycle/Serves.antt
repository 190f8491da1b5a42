-- ===== src/Store/Lifecycle/Serves.antt =====
-- Each operation keeps the invariant, and the current generation visible to passengers.
use sombreado_service.Base.{
  ℕ, ◌≡◌, ◌≢◌, refl, sym, inl, inr, true, false, ◌||◌, Option, none, some, ◌==◌, arith,
  if◌then◌else◌, is_some, eq_of-==, Bool-cases, ap,
}
use mathlib.Core.Path.{subst}
use sombreado_service.Store.Errors.{Text}
use sombreado_service.Store.Schema.{
  Db, Status, staging, validated, published, empty, satisfies_constraints,
}
use sombreado_service.Store.Delete.{is_at, status_in}
use sombreado_service.Store.Validate.{members_of}
use sombreado_service.Store.Lifecycle.{add_generation, set_validated}
use sombreado_service.Store.Lifecycle.Invariant.{IsValid}
use sombreado_service.Store.Lifecycle.Publish.{Published}
use sombreado_service.Store.Lease.Exclusion.{Recovered}
use sombreado_service.Store.Lifecycle.Stage.{Staged}
use sombreado_service.Store.Lifecycle.Discard.{Discarded, Validated}

module _ (g : Text) (before db : Db) where
  Published-IsValid : Published g before db → is_at g before.current ≡ false → IsValid db
  Published-IsValid p ne = record {
    constraints = p.constraints;
    current_published = λ h e. ground (arith, p.current, p.status h);
    previous_published = λ h e. ground (arith, p.previous, p.status h);
    published_pointed = λ h e. ground (arith, p.current, p.previous, p.status h);
    pointers_differ = λ h e. ground (arith, p.current, p.previous);
  }

  -- A generation that takes over a status of `g`, which was not published.
  module _ (valid : IsValid before) (s : Option Status)
      (constraints : satisfies_constraints db ≡ true) (new : s ≢ some published)
      (old : status_in g before.generations ≢ some published)
      (current : db.current ≡ before.current) (previous : db.previous ≡ before.previous)
      (status : (h : Text)
        → status_in h db.generations ≡ (if g == h then s else status_in h before.generations)) where
    old_at : (h : Text) → (g == h) ≡ true → status_in h before.generations ≢ some published
    old_at h e = subst (λ x. status_in x before.generations ≢ some published) (eq_of-== g h e) old

    restatus-IsValid : IsValid db
    restatus-IsValid = record {
      constraints = constraints;
      current_published = λ h e. ground (arith, status h, valid.current_published h, old_at h);
      previous_published = λ h e. ground (arith, status h, valid.previous_published h, old_at h);
      published_pointed =
          λ h e. ground (arith, status h, valid.published_pointed h, current, previous);
      pointers_differ = λ h e. ground (arith, valid.pointers_differ h, current, previous);
    }

-- How an operation on `g` may change what passengers are shown: the current generation stays, as
-- current or as previous, with its members.
pub record Serves (before db : Db) : Type 0 where
  pub valid : IsValid db
  pub served : is_some before.current ≡ true → is_some db.current ≡ true
  pub shown :
      (c : Text)
      → is_at c before.current ≡ true
      → (is_at c db.current || is_at c db.previous) ≡ true
  pub members : (c : Text) → is_at c before.current ≡ true → members_of c db ≡ members_of c before

pub Serves-refl : (db : Db) → IsValid db → Serves db db
Serves-refl db valid = record {
  valid = valid;
  served = λ e. e;
  shown = λ c e. ground arith;
  members = λ c e. refl;
}

pub Serves-same : (before db : Db) → IsValid before → db ≡ before → Serves before db
Serves-same before db valid e = subst (Serves before) (sym e) (Serves-refl before valid)

-- The current generation is published, so it is not one that was not.
differs :
    (g c : Text) (db : Db)
    → IsValid db
    → status_in g db.generations ≢ some published
    → is_at c db.current ≡ true
    → (g == c) ≡ false
differs g c db valid ne e = elim (Bool-cases (g == c)) [
  | inl p ↦ absurd (
      ne (
        subst (λ x. status_in x db.generations ≡ some published) (sym (eq_of-== g c p))
          (valid.current_published c e)))
  | inr p ↦ p
]

module _ (g : Text) (before db : Db) (valid : IsValid before) where
  none_ne : status_in g before.generations ≡ none → status_in g before.generations ≢ some published
  none_ne e q = cc (e, q)

  pub Staged-Serves : (created : ℕ) → Staged g created before db → Serves before db
  unfolding add_generation
  Staged-Serves created s = record {
    valid =
        restatus-IsValid g before db valid (some staging) s.constraints (λ p. cc p)
          (none_ne s.fresh) s.untouched.current s.untouched.previous s.status;
    served = λ e. ground (arith, s.untouched.current);
    shown = λ c e. ground (arith, s.untouched.current);
    members = λ c e. s.untouched.members c (differs g c before valid (none_ne s.fresh) e);
  }

  pub Discarded-Serves : Discarded g before db → Serves before db
  Discarded-Serves s = record {
    valid =
        restatus-IsValid g before db valid none s.constraints (λ p. cc p) s.unpublished
          s.deleted.current s.deleted.previous (λ h. ground (arith, s.deleted.status h));
    served = λ e. ground (arith, s.deleted.current);
    shown = λ c e. ground (arith, s.deleted.current);
    members = λ c e. s.deleted.members c (ground (arith, differs g c before valid s.unpublished e));
  }

  pub Validated-Serves : (at : ℕ) → Validated g at before db → Serves before db
  unfolding set_validated
  Validated-Serves at s = record {
    valid =
        restatus-IsValid g before db valid (some validated) s.constraints (λ p. cc p)
          (λ q. cc (q, s.complete.is_staged)) (ap (λ x. x.current) s.marked)
          (ap (λ x. x.previous) s.marked) s.status;
    served = λ e. ground (arith, ap (λ x. x.current) s.marked);
    shown = λ c e. ground (arith, ap (λ x. x.current) s.marked);
    members = λ c e. ap (members_of c) s.marked;
  }

  pub Published-Serves :
      status_in g before.generations ≡ some validated → Published g before db → Serves before db
  Published-Serves e s = record {
    valid = Published-IsValid g before db s (validated_unpointed e);
    served = λ h. ground (arith, s.current);
    shown = λ c h. ground (arith, s.previous);
    members = λ c h. s.members c (ground arith);
  }
    where
      validated_unpointed :
          status_in g before.generations ≡ some validated → is_at g before.current ≡ false
      validated_unpointed q = elim (Bool-cases (is_at g before.current)) [
        | inl p ↦ cc (q, valid.current_published g p)
        | inr p ↦ p
      ]

-- A change of the lease or of the scrape runs, or a recovery that deletes orphans.
pub Recovered-Serves :
    (before db : Db)
    → IsValid before
    → satisfies_constraints db ≡ true
    → Recovered before db
    → Serves before db
Recovered-Serves before db valid sat s = record {
  valid = record {
    constraints = sat;
    current_published =
        λ h e. (s.kept h (valid.current_published h (ground (arith, e, s.current)))).0;
    previous_published =
        λ h e. (s.kept h (valid.previous_published h (ground (arith, e, s.previous)))).0;
    published_pointed =
        λ h e. ground (arith, valid.published_pointed h (s.only h e), s.current, s.previous);
    pointers_differ = λ h e. ground (arith, valid.pointers_differ h, s.current, s.previous);
  };
  served = λ e. ground (arith, s.current);
  shown = λ c e. ground (arith, s.current);
  members = λ c e. (s.kept c (valid.current_published c e)).1;
}

pub empty-IsValid : IsValid empty
unfolding satisfies_constraints
empty-IsValid = record {
  constraints = refl;
  current_published = λ h e. cc;
  previous_published = λ h e. cc;
  published_pointed = λ h e. cc;
  pointers_differ = λ h e. refl;
}
