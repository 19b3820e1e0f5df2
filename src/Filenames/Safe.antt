-- ===== src/Filenames/Safe.antt =====
-- What the names of api_service/services/filenames.py can hold.
use secure_file_system.Base.{
  ℕ, ◌-◌, ◌≤◌, ◌≡◌, refl, inl, inr, Bool, false, not, Option, none, some, [], ◌∷◌, map, arith, ◌==◌,
  contains, list_eq, nat_eq, leb, Bool-cases,
}
use secure_file_system.Base.Lists.{length, keep, All}
use secure_file_system.Base.Text.{Text}
use secure_file_system.Filenames.{
  max_filename_bytes, fallback_filename, to_slash, last_part, width, fitting, is_reserved,
  sanitize_filename,
}
use secure_file_system.Python.Strings.{strip, All-strip}
use secure_file_system.Python.Unicode.{Unicode}
use secure_file_system.Python.Utf8.{utf8, length-utf8_nil, length-utf8_cons}

-- No separator of a path, and nothing hidden.
abbrev pub IsShown : (ℕ → Bool) → ℕ → Type 0
IsShown hidden c = ((c == 47) ≡ false) × (((c == 92) ≡ false) × (hidden c ≡ false))

pub record IsSafeFilename (hidden : ℕ → Bool) (name : Text) : Type 0 where
  pub shown : All (IsShown hidden) name
  pub short : length (utf8 name) ≤ max_filename_bytes
  pub usable : is_reserved name ≡ false

All-fitting : (P : ℕ → Type 0) (room : ℕ) (s : Text) → All P s → All P (fitting room s)
unfolding fitting
All-fitting P room [] h = tt
All-fitting P room (c ∷ s) h = elim (Bool-cases (leb (width c) room)) [
  | inl e ↦ rw e (h.0, All-fitting P (room - width c) s h.1)
  | inr e ↦ rw e tt
]

fitting-le : (room : ℕ) (s : Text) → length (utf8 (fitting room s)) ≤ room
unfolding fitting width
fitting-le room [] = omega (arith, length-utf8_nil)
fitting-le room (c ∷ s) = elim (Bool-cases (leb (width c) room)) [
  | inl e ↦ rw e (
      ground
        (arith, e, length-utf8_cons c (fitting (room - width c) s), fitting-le (room - width c) s))
  | inr e ↦ rw e (omega (arith, length-utf8_nil))
]

not_contained : (s : Text) → contains s 47 ≡ false → All (λ c. (c == 47) ≡ false) s
not_contained [] e = tt
not_contained (c ∷ s) e = (ground (arith, e), not_contained s (ground (arith, e)))

last_part-NoSlash : (s : Text) → All (λ c. (c == 47) ≡ false) (last_part s)
unfolding last_part
last_part-NoSlash [] = tt
last_part-NoSlash (c ∷ s) = elim (Bool-cases (contains s 47)) [
  | inl e ↦ rw e (last_part-NoSlash s)
  | inr e ↦ elim (Bool-cases (c == 47)) [
    | inl f ↦ rw (e, f) (not_contained s e)
    | inr f ↦ rw (e, f) (f, not_contained s e)
  ]
]

All-last_part : (P : ℕ → Type 0) (s : Text) → All P s → All P (last_part s)
unfolding last_part
All-last_part P [] h = tt
All-last_part P (c ∷ s) h = elim (Bool-cases (contains s 47)) [
  | inl e ↦ rw e (All-last_part P s h.1)
  | inr e ↦ elim (Bool-cases (c == 47)) [ inl f ↦ rw (e, f) h.1 | inr f ↦ rw (e, f) h ]
]

to_slash-not_backslash : (s : Text) → All (λ c. (c == 92) ≡ false) (map to_slash s)
unfolding to_slash
to_slash-not_backslash [] = tt
to_slash-not_backslash (c ∷ s) = (ground arith, to_slash-not_backslash s)

All-kept :
    (hidden : ℕ → Bool) (s : Text)
    → All (λ c. (c == 47) ≡ false) s
    → All (λ c. (c == 92) ≡ false) s
    → All (IsShown hidden) (keep (λ c. not (hidden c)) s)
All-kept hidden [] h k = tt
All-kept hidden (c ∷ s) h k = elim (Bool-cases (hidden c)) [
  | inl e ↦ rw e (All-kept hidden s h.1 k.1)
  | inr e ↦ rw e ((h.0, (k.0, e)), All-kept hidden s h.1 k.1)
]

fallback-IsSafeFilename :
    (hidden : ℕ → Bool)
    → All (λ c. hidden c ≡ false) fallback_filename
    → IsSafeFilename hidden fallback_filename
unfolding is_reserved nat_eq list_eq utf8
fallback-IsSafeFilename hidden h = record {
  shown = (
    (refl, (refl, h.0)),
    ((refl, (refl, h.1.0)), ((refl, (refl, h.1.1.0)), ((refl, (refl, h.1.1.1.0)), tt))),
  );
  short = omega arith;
  usable = refl;
}

-- Every name is safe to show: no path separator, nothing hidden such as a line break or a change of
-- direction, at most 255 bytes, and neither empty nor one of the two names of directories. It is
-- asked of the categories only that they leave the letters of the fallback.
pub sanitize_filename-IsSafeFilename :
    (u : Unicode) (hidden : ℕ → Bool) (raw : Option Text)
    → All (λ c. hidden c ≡ false) fallback_filename
    → IsSafeFilename hidden (sanitize_filename u hidden raw)
unfolding sanitize_filename strip
sanitize_filename-IsSafeFilename u hidden raw letters =
    let given : Text = elim raw [ none ↦ [] | some s ↦ s ] in
    let part = last_part (map to_slash given) in
    let shown =
      All-kept hidden part (last_part-NoSlash (map to_slash given))
        (All-last_part _ (map to_slash given) (to_slash-not_backslash given)) in
    let kept = keep (λ c. not (hidden c)) part in
    let stripped = All-strip _ u.is_space kept shown in
    let name = fitting max_filename_bytes (strip u.is_space kept) in
    elim (Bool-cases (is_reserved name)) [
      | inl e ↦ rw (e, sanitize_filename) (fallback-IsSafeFilename hidden letters)
      | inr e ↦
          rw (e, sanitize_filename)
            (record {
              shown = All-fitting _ max_filename_bytes (strip u.is_space kept) stripped;
              short = fitting-le max_filename_bytes (strip u.is_space kept);
              usable = e;
            })
    ]
