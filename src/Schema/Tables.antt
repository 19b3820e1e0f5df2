-- ===== src/Schema/Tables.antt =====
-- Rows that are added to, changed in and deleted from the tables of
-- migrations/versions/7d5619c519c1_initial_schema.py.
use secure_file_system.Base.{
  ℕ, ◌≡◌, refl, sym, ◌≢◌, inl, inr, Bool, true, false, ◌||◌, List, [], ◌∷◌, ◌++◌, map, arith, ◌==◌,
  ◌!=◌, contains, list_eq, nat_eq, if◌then◌else◌, Bool-cases,
}
use secure_file_system.Base.Lists.{
  keep, All, All-append, All-implies, IsDistinct, All-of_map, All-map,
}
use secure_file_system.Database.{File}

module _ {A : Type 0} where
  -- One list after the other, with no member of the one in the other.
  pub IsDistinct-append :
      (xs ys : List A)
      → IsDistinct xs
      → IsDistinct ys
      → All (λ y. All (λ x. x ≢ y) xs) ys
      → IsDistinct (xs ++ ys)
  IsDistinct-append [] ys h k apart = k
  IsDistinct-append (x ∷ xs) ys h k apart = (
    All-append (λ y. y ≢ x) xs ys h.0 (All-implies ys (λ y a e. a.0 (sym e)) apart),
    IsDistinct-append xs ys h.1 k (All-implies ys (λ y a. a.1) apart),
  )

  pub All-keep : (P : A → Type 0) (q : A → Bool) (xs : List A) → All P xs → All P (keep q xs)
  All-keep P q [] h = tt
  All-keep P q (x ∷ xs) h = elim (Bool-cases (q x)) [
    | inl e ↦ rw e (h.0, All-keep P q xs h.1)
    | inr e ↦ rw e (All-keep P q xs h.1)
  ]

  pub IsDistinct-keep :
      {B : Type 0} (f : A → B) (q : A → Bool) (xs : List A)
      → IsDistinct (map f xs)
      → IsDistinct (map f (keep q xs))
  IsDistinct-keep f q [] h = tt
  IsDistinct-keep f q (x ∷ xs) h = elim (Bool-cases (q x)) [
    | inl e ↦ rw e (
      All-map (λ y. y ≢ f x) f (keep q xs)
          (All-keep (λ y. f y ≢ f x) q xs (All-of_map (λ y. y ≢ f x) f xs h.0)),
      IsDistinct-keep f q xs h.1,
    )
    | inr e ↦ rw e (IsDistinct-keep f q xs h.1)
  ]

pub contains-append :
    (xs ys : List ℕ) (n : ℕ) → contains (xs ++ ys) n ≡ (contains xs n || contains ys n)
contains-append [] ys n = refl
contains-append (x ∷ xs) ys n = ground (arith, contains-append xs ys n)

-- A row that another row names stays, where only rows of another identifier go.
pub contains-keep :
    (gone id : ℕ) (files : List File)
    → (id == gone) ≡ false
    → contains (map (λ f. f.id) (keep (λ f. f.id != gone) files)) id
      ≡ contains (map (λ f. f.id) files) id
contains-keep gone id [] other = refl
contains-keep gone id (f ∷ files) other = ground (arith, contains-keep gone id files other, other)

pub contains-keep_gone :
    (gone : ℕ) (files : List File)
    → contains (map (λ f. f.id) (keep (λ f. f.id != gone) files)) gone ≡ false
contains-keep_gone gone [] = refl
contains-keep_gone gone (f ∷ files) = ground (arith, contains-keep_gone gone files)

pub ids-update :
    (file : File) (files : List File)
    → map (λ f. f.id) (map (λ f. if f.id == file.id then file else f) files) ≡ map (λ f. f.id) files
ids-update file [] = refl
ids-update file (f ∷ files) = ground (arith, ids-update file files)

pub All-update :
    (P : File → Type 0) (file : File) (files : List File)
    → P file
    → All P files
    → All P (map (λ f. if f.id == file.id then file else f) files)
All-update P file [] now h = tt
All-update P file (f ∷ files) now h = elim (Bool-cases (f.id == file.id)) [
  | inl e ↦ rw e (now, All-update P file files now h.1)
  | inr e ↦ rw e (h.0, All-update P file files now h.1)
]

-- Each row is in its table.
pub ids-contained :
    {A : Type 0} (id : A → ℕ) (xs : List A) → All (λ x. contains (map id xs) (id x) ≡ true) xs
ids-contained id [] = tt
ids-contained id (x ∷ xs) =
    (ground arith, All-implies xs (λ y e. ground (arith, e)) (ids-contained id xs))
