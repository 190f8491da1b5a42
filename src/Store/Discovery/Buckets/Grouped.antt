-- ===== src/Store/Discovery/Buckets/Grouped.antt =====
-- Rows that come grouped by their item are gathered item by item.
use sombreado_service.Base.{
  true, false, ◌||◌, Option, none, some, List, [], ◌∷◌, ◌++◌, map, any, All, ◌≡◌, refl, ap, sym,
  ◌∙◌, arith,
}
use mathlib.Core.List.{append_assoc, append-nil}
use sombreado_service.Store.Errors.{Text}
use sombreado_service.Store.Schema.{unique}
use sombreado_service.Store.Schema.Unique.{same_key}
use sombreado_service.Store.Discovery.{distinct_from}
use sombreado_service.Store.Discovery.Buckets.{
  append_new, has_key, ensure, add_label, add_row, assembled, or_null, outer_rows, present,
}

module _ {A : Type 0} (key : A → Text) where
  assembled-append :
      (bs : List (A × List Text)) (rs qs : List (Option A × Option Text))
      → assembled key bs (rs ++ qs) ≡ assembled key (assembled key bs rs) qs
  unfolding assembled
  assembled-append bs [] qs = refl
  assembled-append bs (r ∷ rs) qs = assembled-append (add_row key r.0 r.1 bs) rs qs

  has_key-append :
      (id : Text) (bs cs : List (A × List Text))
      → has_key key id (bs ++ cs) ≡ (has_key key id bs || has_key key id cs)
  has_key-append id [] cs = refl
  has_key-append id (b ∷ bs) cs = ground (arith, has_key-append id bs cs)

  -- A label for the last item goes to it alone.
  add_label-last :
      (l : Text) (bs : List (A × List Text)) (a : A) (bucket : List Text)
      → has_key key (key a) bs ≡ false
      → add_label key (key a) (some l) (bs ++ (a, bucket) ∷ [])
        ≡ bs ++ (a, append_new l bucket) ∷ []
  add_label-last l [] a bucket h = ground arith
  add_label-last l (b ∷ bs) a bucket h = ground (arith, add_label-last l bs a bucket)

  -- An item that has its bucket is not added again.
  ensure-known :
      (a : A) (bs : List (A × List Text)) (bucket : List Text)
      → ensure key a (bs ++ (a, bucket) ∷ []) ≡ bs ++ (a, bucket) ∷ []
  ensure-known a bs bucket = ground (arith, has_key-append (key a) bs ((a, bucket) ∷ []))

  ensure-new :
      (a : A) (bs : List (A × List Text))
      → has_key key (key a) bs ≡ false
      → ensure key a bs ≡ bs ++ (a, []) ∷ []
  ensure-new a bs h = rw h refl

  more_labels :
      (a : A) (bs : List (A × List Text)) (bucket : List Text) (ls : List (Option Text))
      → has_key key (key a) bs ≡ false
      → assembled key (bs ++ (a, bucket) ∷ []) (map (λ l. (some a, l)) ls)
        ≡ bs ++ (a, distinct_from bucket (present ls)) ∷ []
  unfolding assembled distinct_from
  more_labels a bs bucket [] h = refl
  more_labels a bs bucket (none ∷ ls) h =
      ap (λ xs. assembled key xs (map (λ l. (some a, l)) ls)) (ensure-known a bs bucket)
      ∙ more_labels a bs bucket ls h
  more_labels a bs bucket (some l ∷ ls) h =
      ap (λ xs. assembled key (add_label key (key a) (some l) xs) (map (λ x. (some a, x)) ls))
        (ensure-known a bs bucket)
      ∙ ap (λ xs. assembled key xs (map (λ x. (some a, x)) ls)) (add_label-last l bs a bucket h)
      ∙ more_labels a bs (append_new l bucket) ls h

  -- The first row of a new item adds it with an empty bucket.
  first_label :
      (a : A) (bs : List (A × List Text)) (l : Option Text) (ls : List (Option Text))
      → has_key key (key a) bs ≡ false
      → assembled key bs (map (λ x. (some a, x)) (l ∷ ls))
        ≡ assembled key (bs ++ (a, []) ∷ []) (map (λ x. (some a, x)) (l ∷ ls))
  unfolding assembled
  first_label a bs l ls h =
      ap (λ xs. assembled key (add_label key (key a) l xs) (map (λ x. (some a, x)) ls))
        (ensure-new a bs h ∙ sym (ensure-known a bs []))

  one_item :
      (a : A) (bs : List (A × List Text)) (ls : List (Option Text))
      → has_key key (key a) bs ≡ false
      → assembled key bs (map (λ x. (some a, x)) (or_null ls))
        ≡ bs ++ (a, distinct_from [] (present ls)) ∷ []
  one_item a bs [] h = first_label a bs none [] h ∙ more_labels a bs [] (none ∷ []) h
  one_item a bs (l ∷ ls) h = first_label a bs l ls h ∙ more_labels a bs [] (l ∷ ls) h

  -- None of the items has a bucket yet.
  abbrev IsFresh : List A → List (A × List Text) → Type 0
  IsFresh items bs = All (λ a. has_key key (key a) bs ≡ false) items

  IsFresh-next :
      (a : A) (labels : List Text) (items : List A) (bs : List (A × List Text))
      → any (same_key key a) items ≡ false
      → IsFresh items bs
      → IsFresh items (bs ++ (a, labels) ∷ [])
  IsFresh-next a labels [] bs h f = tt
  IsFresh-next a labels (c ∷ items) bs h f = (
    has_key-append (key c) bs ((a, labels) ∷ []) ∙ ground (arith, h, f.0),
    IsFresh-next a labels items bs (ground (arith, h)) f.1,
  )

  IsFresh-none : (items : List A) → IsFresh items []
  IsFresh-none [] = tt
  IsFresh-none (a ∷ items) = (refl, IsFresh-none items)

  module _ (labels : A → List (Option Text)) where
    abbrev pub bucket_of : A → A × List Text
    bucket_of a = (a, distinct_from [] (present (labels a)))

    assembled-from :
        (items : List A) (bs : List (A × List Text))
        → unique (same_key key) items ≡ true
        → IsFresh items bs
        → assembled key bs (outer_rows labels items) ≡ bs ++ map bucket_of items
    unfolding outer_rows unique assembled
    assembled-from [] bs h f = sym (append-nil bs)
    assembled-from (a ∷ items) bs h f =
        assembled-append bs (map (λ l. (some a, l)) (or_null (labels a))) (outer_rows labels items)
        ∙ ap (λ xs. assembled key xs (outer_rows labels items)) (one_item a bs (labels a) f.0)
        ∙ assembled-from items (bs ++ bucket_of a ∷ []) (ground (arith, h)) (
            IsFresh-next a (distinct_from [] (present (labels a))) items bs (ground (arith, h)) f.1)
        ∙ append_assoc bs (bucket_of a ∷ []) (map bucket_of items)

    pub assembled-outer_rows :
        (items : List A)
        → unique (same_key key) items ≡ true
        → assembled key [] (outer_rows labels items) ≡ map bucket_of items
    assembled-outer_rows items h = assembled-from items [] h (IsFresh-none items)
