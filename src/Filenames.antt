-- ===== src/Filenames.antt =====
-- `sanitize_filename` of api_service/services/filenames.py. Which characters `unicodedata` puts in
-- the categories Cc and Cf is a parameter. A cut encoding of a text, decoded without its errors, is
-- the longest start of the text that fits, which is how the cut is written here.
pub mod Safe
pub mod Disposition
pub mod ContentType
use secure_file_system.Base.{
  ℕ, ◌-◌, Bool, not, ◌||◌, Option, none, some, [], ◌∷◌, map, ◌==◌, contains, list_eq, nat_eq, leb,
  if◌then◌else◌,
}
use secure_file_system.Base.Lists.{length, keep}
use secure_file_system.Base.Text.{Text, codes}
use secure_file_system.Python.Strings.{strip}
use secure_file_system.Python.Unicode.{Unicode}
use secure_file_system.Python.Utf8.{utf8}

abbrev pub max_filename_bytes : ℕ
max_filename_bytes = 255

abbrev pub fallback_filename : Text
fallback_filename = codes "file"

-- `replace("\\", "/")` of one character
unfoldable pub to_slash : ℕ → ℕ
to_slash c = if c == 92 then 47 else c

-- `rsplit("/", 1)[-1]`
unfoldable pub last_part : Text → Text
last_part [] = []
last_part (c ∷ s) =
    let rest = last_part s in if contains s 47 then rest else if c == 47 then s else c ∷ s

unfoldable pub width : ℕ → ℕ
width c = length (utf8 (c ∷ []))

-- `encode()[:room].decode(errors="ignore")`
unfoldable pub fitting : ℕ → Text → Text
fitting room [] = []
fitting room (c ∷ s) =
    let rest = fitting (room - width c) s in if leb (width c) room then c ∷ rest else []

unfoldable pub is_reserved : Text → Bool
is_reserved name = (name == []) || ((name == codes ".") || (name == codes ".."))

unfoldable pub sanitize_filename : Unicode → (ℕ → Bool) → Option Text → Text
unfolding to_slash last_part fitting is_reserved
sanitize_filename u hidden raw =
    let given : Text = elim raw [ none ↦ [] | some s ↦ s ] in
    let shown = keep (λ c. not (hidden c)) (last_part (map to_slash given)) in
    let name = fitting max_filename_bytes (strip u.is_space shown) in
    if is_reserved name then fallback_filename else name
