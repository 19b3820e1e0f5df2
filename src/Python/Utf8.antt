-- ===== src/Python/Utf8.antt =====
-- `str.encode()`: UTF-8. A text from a request has no lone surrogates, which Python would refuse.
use secure_file_system.Base.{
  ℕ, ◌+◌, ◌/◌, ◌%◌, ◌<◌, ◌≡◌, refl, inl, inr, [], ◌∷◌, ◌++◌, arith, ltb, if◌then◌else◌, Bool-cases,
}
use secure_file_system.Base.Lists.{length, All, length-append, All-append}
use secure_file_system.Base.Text.{Text, Bytes}

utf8_char : ℕ → Bytes
utf8_char c =
    if ltb c 128
    then c ∷ []
    else if ltb c 2048
    then (192 + c / 64) ∷ (128 + c % 64) ∷ []
    else if ltb c 65536
    then (224 + c / 4096) ∷ (128 + c / 64 % 64) ∷ (128 + c % 64) ∷ []
    else (240 + c / 262144) ∷ (128 + c / 4096 % 64) ∷ (128 + c / 64 % 64) ∷ (128 + c % 64) ∷ []

unfoldable pub utf8 : Text → Bytes
unfolding utf8_char
utf8 [] = []
utf8 (c ∷ s) = utf8_char c ++ utf8 s

pub utf8-of_ascii : (s : Text) → All (λ c. c < 128) s → utf8 s ≡ s
unfolding utf8
utf8-of_ascii [] h = refl
utf8-of_ascii (c ∷ s) h = ground (arith, utf8-of_ascii s h.1)

-- A text whose encoding is that of an ASCII text is that text.
pub utf8-eq_ascii : (s t : Text) → All (λ c. c < 128) t → utf8 s ≡ utf8 t → s ≡ t
unfolding utf8
utf8-eq_ascii [] [] h e = refl
utf8-eq_ascii [] (d ∷ t) h e = ground arith
utf8-eq_ascii (c ∷ s) [] h e = ground arith
utf8-eq_ascii (c ∷ s) (d ∷ t) h e = ground (arith, utf8-eq_ascii s t h.1)

pub length-utf8_nil : length (utf8 []) ≡ 0
unfolding utf8
length-utf8_nil = refl

pub length-utf8_cons :
    (c : ℕ) (s : Text) → length (utf8 (c ∷ s)) ≡ length (utf8 (c ∷ [])) + length (utf8 s)
unfolding utf8
length-utf8_cons c s =
    omega (arith, length-append (utf8_char c) (utf8 s), length-append (utf8_char c) [])

utf8_char-bytes : (c : ℕ) → c < 1114112 → All (λ b. b < 256) (utf8_char c)
unfolding utf8_char
utf8_char-bytes c h = elim (Bool-cases (ltb c 128)) [
  | inl e ↦ rw e (ground arith, tt)
  | inr e ↦ elim (Bool-cases (ltb c 2048)) [
    | inl f ↦ rw (e, f) (ground arith, (ground arith, tt))
    | inr f ↦ elim (Bool-cases (ltb c 65536)) [
      | inl g ↦ rw (e, f, g) (ground arith, (ground arith, (ground arith, tt)))
      | inr g ↦ rw (e, f, g) (omega arith, (omega arith, (omega arith, (omega arith, tt))))
    ]
  ]
]

pub utf8-bytes : (s : Text) → All (λ c. c < 1114112) s → All (λ b. b < 256) (utf8 s)
unfolding utf8
utf8-bytes [] h = tt
utf8-bytes (c ∷ s) h =
    All-append (λ b. b < 256) (utf8_char c) (utf8 s) (utf8_char-bytes c h.0) (utf8-bytes s h.1)
