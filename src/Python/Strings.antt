-- ===== src/Python/Strings.antt =====
-- Methods of `str`, over lists of code points.
use secure_file_system.Base.{
  ℕ, zero, suc, ◌-◌, ◌≡◌, refl, ap, inl, inr, Bool, true, false, ◌&&◌, List, [], ◌∷◌, ◌++◌, arith,
  ◌==◌, list_eq, nat_eq, if◌then◌else◌, Bool-cases,
}
use secure_file_system.Base.Lists.{length, All}
use secure_file_system.Base.Text.{Text}

-- `s.startswith(p)`
unfoldable pub starts_with : Text → Text → Bool
starts_with s [] = true
starts_with [] (p ∷ ps) = false
starts_with (c ∷ s) (p ∷ ps) = c == p && starts_with s ps

-- `s.replace(p, "")`; the number counts what is left of an occurrence under way.
unfoldable pub remove_from : Text → ℕ → Text → Text
remove_from p skip [] = []
remove_from p (suc skip) (c ∷ s) = remove_from p skip s
remove_from p zero (c ∷ s) = elim (starts_with (c ∷ s) p) [
  | true ↦ remove_from p (length p - 1) s
  | false ↦ c ∷ remove_from p zero s
]

abbrev pub remove_text : Text → Text → Text
remove_text p s = remove_from p zero s

-- `s.partition(c)`: what stands before the separator, whether it is there, and what follows it.
unfoldable pub partition : ℕ → Text → Text × (Bool × Text)
partition sep [] = ([], (false, []))
partition sep (c ∷ s) =
    let (head, rest) = partition sep s in if c == sep then ([], (true, s)) else (c ∷ head, rest)

add_to_head : ℕ → List Text → List Text
add_to_head c [] = (c ∷ []) ∷ []
add_to_head c (part ∷ parts) = (c ∷ part) ∷ parts

-- `s.split(c)`
unfoldable pub split : ℕ → Text → List Text
unfolding add_to_head
split sep [] = [] ∷ []
split sep (c ∷ s) = let parts = split sep s in if c == sep then [] ∷ parts else add_to_head c parts

-- `s.lstrip(chars)` for the characters that pass a test.
unfoldable pub lstrip : (ℕ → Bool) → Text → Text
lstrip p [] = []
lstrip p (c ∷ s) = let rest = lstrip p s in if p c then rest else c ∷ s

unfoldable pub rstrip : (ℕ → Bool) → Text → Text
rstrip p [] = []
rstrip p (c ∷ s) = elim (rstrip p s) [ [] ↦ if p c then [] else c ∷ [] | d ∷ t ↦ c ∷ d ∷ t ]

unfoldable pub strip : (ℕ → Bool) → Text → Text
unfolding lstrip rstrip
strip p s = rstrip p (lstrip p s)

lstrip-of_none : (p : ℕ → Bool) (s : Text) → All (λ c. p c ≡ false) s → lstrip p s ≡ s
unfolding lstrip
lstrip-of_none p [] h = refl
lstrip-of_none p (c ∷ s) h = rw (h.0)

rstrip-of_none : (p : ℕ → Bool) (s : Text) → All (λ c. p c ≡ false) s → rstrip p s ≡ s
unfolding rstrip
rstrip-of_none p [] h = refl
rstrip-of_none p (c ∷ []) h = rw (h.0)
rstrip-of_none p (c ∷ d ∷ s) h = rw (rstrip-of_none p (d ∷ s) h.1, rstrip)

-- Stripping leaves a text alone that has none of the characters.
pub strip-of_none : (p : ℕ → Bool) (s : Text) → All (λ c. p c ≡ false) s → strip p s ≡ s
unfolding strip
strip-of_none p s h = rw (lstrip-of_none p s h) (rstrip-of_none p s h)

-- A text with no occurrence of the pattern's first character keeps all its characters.
pub remove_text-of_none :
    (q : ℕ) (p s : Text) → All (λ c. (c == q) ≡ false) s → remove_text (q ∷ p) s ≡ s
unfolding remove_from starts_with
remove_text-of_none q p [] h = refl
remove_text-of_none q p (c ∷ s) h = ground (arith, remove_text-of_none q p s h.1)

-- What stands before a cut and has no dash survives the removal of the dashes whole.
pub remove_text-append :
    (q : ℕ) (s t : Text)
    → All (λ c. (c == q) ≡ false) s
    → remove_text (q ∷ []) (s ++ t) ≡ s ++ remove_text (q ∷ []) t
unfolding remove_from starts_with
remove_text-append q [] t h = refl
remove_text-append q (c ∷ s) t h = ground (arith, remove_text-append q s t h.1)

pub remove_text-cons : (q : ℕ) (t : Text) → remove_text (q ∷ []) (q ∷ t) ≡ remove_text (q ∷ []) t
unfolding remove_from starts_with
remove_text-cons q t = ground arith

-- A character that stays in front keeps all behind it that stays.
pub rstrip-cons :
    (p : ℕ → Bool) (c : ℕ) (s : Text) → p c ≡ false → rstrip p (c ∷ s) ≡ c ∷ rstrip p s
unfolding rstrip
rstrip-cons p c s h = ground arith

All-lstrip : (P : ℕ → Type 0) (p : ℕ → Bool) (s : Text) → All P s → All P (lstrip p s)
unfolding lstrip
All-lstrip P p [] h = tt
All-lstrip P p (c ∷ s) h = elim (Bool-cases (p c)) [
  | inl e ↦ rw e (All-lstrip P p s h.1)
  | inr e ↦ rw e h
]

All-rstrip_step :
    (P : ℕ → Type 0) (p : ℕ → Bool) (c : ℕ) (t : Text)
    → P c
    → All P t
    → All P (elim t [ [] ↦ if p c then [] else c ∷ [] | d ∷ r ↦ c ∷ d ∷ r ])
All-rstrip_step P p c [] h k = elim (Bool-cases (p c)) [ inl e ↦ rw e tt | inr e ↦ rw e (h, tt) ]
All-rstrip_step P p c (d ∷ r) h k = (h, k)

All-rstrip : (P : ℕ → Type 0) (p : ℕ → Bool) (s : Text) → All P s → All P (rstrip p s)
unfolding rstrip
All-rstrip P p [] h = tt
All-rstrip P p (c ∷ s) h = All-rstrip_step P p c (rstrip p s) h.0 (All-rstrip P p s h.1)

-- Stripping keeps what holds of every character.
pub All-strip : (P : ℕ → Type 0) (p : ℕ → Bool) (s : Text) → All P s → All P (strip p s)
unfolding strip
All-strip P p s h = All-rstrip P p (lstrip p s) (All-lstrip P p s h)

-- `sep.join(parts)`
unfoldable pub join : ℕ → List Text → Text
join sep [] = []
join sep (part ∷ []) = part
join sep (part ∷ next ∷ parts) = part ++ (sep ∷ join sep (next ∷ parts))

split-cons :
    (sep : ℕ) (s t : Text)
    → All (λ c. (c == sep) ≡ false) s
    → split sep (s ++ (sep ∷ t)) ≡ s ∷ split sep t
unfolding split
split-cons sep [] t h = ground arith
split-cons sep (c ∷ s) t h = rw (h.0, split-cons sep s t h.1) refl

split-of_none : (sep : ℕ) (s : Text) → All (λ c. (c == sep) ≡ false) s → split sep s ≡ s ∷ []
unfolding split
split-of_none sep [] h = refl
split-of_none sep (c ∷ s) h = rw (h.0, split-of_none sep s h.1) refl

-- Parts that do not hold the separator are found again.
pub split-join :
    (sep : ℕ) (part : Text) (parts : List Text)
    → All (λ s. All (λ c. (c == sep) ≡ false) s) (part ∷ parts)
    → split sep (join sep (part ∷ parts)) ≡ part ∷ parts
unfolding join
split-join sep part [] h = split-of_none sep part h.0
split-join sep part (next ∷ parts) h =
    rw (split-cons sep part (join sep (next ∷ parts)) h.0)
      (ap (λ l. part ∷ l) (split-join sep next parts h.1))

pub partition-cons :
    (sep : ℕ) (s t : Text)
    → All (λ c. (c == sep) ≡ false) s
    → partition sep (s ++ (sep ∷ t)) ≡ (s, (true, t))
unfolding partition
partition-cons sep [] t h = ground arith
partition-cons sep (c ∷ s) t h = rw (h.0, partition-cons sep s t h.1) refl

-- `s.rpartition(c)`: the last separator divides.
unfoldable pub rpartition : ℕ → Text → Text × (Bool × Text)
rpartition sep [] = ([], (false, []))
rpartition sep (c ∷ s) =
    let (head, (found, tail)) = rpartition sep s in
    if found
    then (c ∷ head, (true, tail))
    else if c == sep
    then ([], (true, s))
    else ([], (false, c ∷ s))
