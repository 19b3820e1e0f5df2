-- ===== src/Maintenance/StaleFiles.antt =====
-- Stale uploads and files that can be seen, for the collection of
-- api_service/services/maintenance.py.
use mathlib.Core.Path.{subst}
use secure_file_system.Base.{
  ℕ, ◌≡◌, refl, sym, ap, ◌≢◌, inl, inr, Bool, true, false, ◌&&◌, List, [], ◌∷◌, map, arith, ◌==◌,
  ◌!=◌, list_eq, nat_eq, ltb, Bool-cases,
}
use secure_file_system.Base.Dict.{Dict}
use secure_file_system.Base.Lists.{keep, All, All-implies, All-both, IsDistinct}
use secure_file_system.Database.{
  FileStatus, uploading, available, deleted, File, StorageNode, Database, is_available,
}
use secure_file_system.Maintenance.Collection.{is_uploading}
use secure_file_system.Maintenance.Health.{update_node, apply_probes}

pub files-apply_probes :
    (threshold now : ℕ) (nodes : List StorageNode) (ups : List Bool) (failures : Dict ℕ ℕ)
    (db : Database)
    → (apply_probes threshold now nodes ups failures db).1.files ≡ db.files
unfolding apply_probes update_node
files-apply_probes threshold now [] ups failures db = refl
files-apply_probes threshold now (n ∷ nodes) [] failures db = refl
files-apply_probes threshold now (n ∷ nodes) (up ∷ ups) failures db =
    files-apply_probes threshold now nodes ups _ _

keep-cons {ℓ} :
    {A : Type ℓ} (p : A → Bool) (x : A) (xs : List A) → p x ≡ true → keep p (x ∷ xs) ≡ x ∷ keep p xs
keep-cons p x xs e = rw e refl

keep-skip {ℓ} :
    {A : Type ℓ} (p : A → Bool) (x : A) (xs : List A) → p x ≡ false → keep p (x ∷ xs) ≡ keep p xs
keep-skip p x xs e = rw e refl

-- No available file has that identifier.
abbrev pub OthersSeen : ℕ → List File → Type 0
OthersSeen id seen = All (λ f. (f.id == id) ≡ false) seen

abbrev pub seen_of : List File → List File
seen_of = keep (λ f. is_available f.status)

pub keep-keep_others :
    (gone : ℕ) (files : List File)
    → OthersSeen gone (seen_of files)
    → seen_of (keep (λ f. f.id != gone) files) ≡ seen_of files
keep-keep_others gone [] h = refl
keep-keep_others gone (f ∷ files) h = elim (Bool-cases (is_available f.status)) [
  | inl a ↦
      let here = subst (OthersSeen gone) (keep-cons (λ f. is_available f.status) f files a) h in
      let other : (f.id != gone) ≡ true = ground (arith, here.0) in
      rw (other, a) (ap (λ l. f ∷ l) (keep-keep_others gone files here.1))
  | inr a ↦
      let rest = subst (OthersSeen gone) (keep-skip (λ f. is_available f.status) f files a) h in
      elim (Bool-cases (f.id != gone)) [
        | inl e ↦ rw (e, a) (keep-keep_others gone files rest)
        | inr e ↦ rw (e, a) (keep-keep_others gone files rest)
      ]
]

All-keep {ℓ} :
    {A : Type ℓ} (P : A → Type 0) (p : A → Bool) (xs : List A) → All P xs → All P (keep p xs)
All-keep P p [] h = tt
All-keep P p (x ∷ xs) h = elim (Bool-cases (p x)) [
  | inl e ↦ rw e (h.0, All-keep P p xs h.1)
  | inr e ↦ rw e (All-keep P p xs h.1)
]

is_uploading-not_available :
    (s : FileStatus) (b : Bool) → (is_uploading s && b) ≡ true → is_available s ≡ false
unfolding is_uploading is_available
is_uploading-not_available uploading b e = refl
is_uploading-not_available available b e = cc
is_uploading-not_available deleted b e = refl

unequal_ids :
    (id : ℕ) (files : List File)
    → All (λ y. y ≢ id) (map (λ f. f.id) files)
    → All (λ f. (f.id == id) ≡ false) files
unequal_ids id [] h = tt
unequal_ids id (f ∷ files) h = (ground (arith, h.0), unequal_ids id files h.1)

-- A stale upload shares its identifier with no file that can be seen.
pub stale_uploads-apart :
    (cutoff : ℕ) (files : List File)
    → IsDistinct (map (λ f. f.id) files)
    → All
        (λ f. OthersSeen f.id (seen_of files))
        (keep (λ f. is_uploading f.status && ltb f.uploaded_at cutoff) files)
stale_uploads-apart cutoff [] d = tt
stale_uploads-apart cutoff (x ∷ files) d =
    let stale : File → Bool = λ f. is_uploading f.status && ltb f.uploaded_at cutoff in
    let others = unequal_ids x.id files d.0 in
    let rest = stale_uploads-apart cutoff files d.1 in
    elim (Bool-cases (stale x)) [
      | inl e ↦
          let hidden = is_uploading-not_available x.status (ltb x.uploaded_at cutoff) e in
          let skip = sym (keep-skip (λ f. is_available f.status) x files hidden) in
          rw e (
            subst (OthersSeen x.id) skip (All-keep _ (λ f. is_available f.status) files others),
            All-implies (keep stale files) (λ f k. subst (OthersSeen f.id) skip k) rest,
          )
      | inr e ↦ elim (Bool-cases (is_available x.status)) [
        | inl a ↦
            let cons = sym (keep-cons (λ f. is_available f.status) x files a) in
            rw e (
              All-both (keep stale files)
                (λ f other k. subst (OthersSeen f.id) cons (ground (arith, other), k))
                (All-keep _ stale files others) rest)
        | inr a ↦
            let skip = sym (keep-skip (λ f. is_available f.status) x files a) in
            rw e (All-implies (keep stale files) (λ f k. subst (OthersSeen f.id) skip k) rest)
      ]
    ]
