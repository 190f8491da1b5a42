-- ===== src/Store/Backup/Keys.antt =====
-- How the keys of src/sombreado/store/object_storage.py are listed when a newest one is behind them.
use sombreado_service.Base.{
  take, ℕ, suc, ◌-◌, ◌≤◌, ◌<◌, false, none, List, [], ◌∷◌, ◌++◌, map, length, leb, ◌==◌, ◌≡◌, refl,
  ap, ◌∙◌, arith, elem, All, Bool-cases, inl, inr,
}
use sombreado_service.Base.Order.{sorted, insert}
use sombreado_service.Store.Errors.{Text}
use sombreado_service.Store.Backup.{Objects, upload, download, delete, take}
use sombreado_service.Store.Backup.Job.{reversed}

-- All keys come before `k`.
abbrev pub IsBefore : Text → List Text → Type 0
IsBefore k keys = All (λ j. j < k) keys

abbrev pub keys_of : Objects → List Text
keys_of o = map (λ x. x.0) o

pub upload-append :
    (k : Text) (bytes : ℕ) (o : Objects)
    → download k o ≡ none
    → upload k bytes o ≡ o ++ (k, bytes) ∷ []
unfolding upload download
upload-append k bytes [] h = refl
upload-append k bytes (x ∷ o) h = ground (arith, upload-append k bytes o)

pub delete-append :
    (j k : Text) (bytes : ℕ) (o : Objects)
    → (k == j) ≡ false
    → delete j (o ++ (k, bytes) ∷ []) ≡ delete j o ++ (k, bytes) ∷ []
unfolding delete
delete-append j k bytes [] h = rw h refl
delete-append j k bytes (x ∷ o) h = ground (arith, delete-append j k bytes o)

pub keys_of-append :
    (k : Text) (bytes : ℕ) (o : Objects) → keys_of (o ++ (k, bytes) ∷ []) ≡ keys_of o ++ k ∷ []
keys_of-append k bytes [] = refl
keys_of-append k bytes (x ∷ o) = ap (λ ks. x.0 ∷ ks) (keys_of-append k bytes o)

pub insert-append :
    (j k : Text) (keys : List Text)
    → j < k
    → insert leb j (keys ++ k ∷ []) ≡ insert leb j keys ++ k ∷ []
unfolding insert
insert-append j k [] h = ground arith
insert-append j k (x ∷ keys) h = ground (arith, insert-append j k keys)

pub sorted-append :
    (k : Text) (keys : List Text)
    → IsBefore k keys
    → sorted leb (keys ++ k ∷ []) ≡ sorted leb keys ++ k ∷ []
unfolding sorted insert
sorted-append k [] h = refl
sorted-append k (x ∷ keys) h =
    ap (insert leb x) (sorted-append k keys h.1) ∙ insert-append x k (sorted leb keys) h.0

pub insert-IsBefore :
    (j k : Text) (keys : List Text) → j < k → IsBefore k keys → IsBefore k (insert leb j keys)
unfolding insert
insert-IsBefore j k [] e h = (e, tt)
insert-IsBefore j k (x ∷ keys) e h = elim (Bool-cases (leb j x)) [
  | inl p ↦ rw p (e, h)
  | inr p ↦ rw p (h.0, insert-IsBefore j k keys e h.1)
]

pub sorted-IsBefore : (k : Text) (keys : List Text) → IsBefore k keys → IsBefore k (sorted leb keys)
unfolding sorted
sorted-IsBefore k [] h = tt
sorted-IsBefore k (x ∷ keys) h =
    insert-IsBefore x k (sorted leb keys) h.0 (sorted-IsBefore k keys h.1)

pub elem-take :
    (k : Text) (n : ℕ) (keys : List Text)
    → IsBefore k keys
    → n ≤ length keys
    → elem k (take n (keys ++ k ∷ [])) ≡ false
elem-take k n [] h e = ground arith
elem-take k n (x ∷ keys) h e = ground (arith, elem-take k (n - 1) keys)

pub length-append : (k : Text) (keys : List Text) → length (keys ++ k ∷ []) ≡ suc (length keys)
length-append k [] = refl
length-append k (x ∷ keys) = ap suc (length-append k keys)

pub reversed-append : (k : Text) (keys : List Text) → reversed (keys ++ k ∷ []) ≡ k ∷ reversed keys
unfolding reversed
reversed-append k [] = refl
reversed-append k (x ∷ keys) = ap (λ ks. ks ++ x ∷ []) (reversed-append k keys)
