-- ===== src/Filenames/ContentType.antt =====
-- `sanitize_content_type` of api_service/services/filenames.py.
use secure_file_system.Base.{
  ℕ, ◌≡◌, refl, Bool, true, ◌&&◌, ◌||◌, Option, none, some, [], arith, contains, list_eq, nat_eq,
  leb, if◌then◌else◌,
}
use secure_file_system.Base.Lists.{length, all}
use secure_file_system.Base.Text.{Text, codes}
use secure_file_system.Python.Strings.{partition, strip}
use secure_file_system.Python.Unicode.{Unicode}

abbrev pub default_content_type : Text
default_content_type = codes "application/octet-stream"

-- `[A-Za-z0-9!#$&^_.+-]`
unfoldable pub is_mime_char : ℕ → Bool
is_mime_char c =
    (leb 65 c && leb c 90)
    || ((leb 97 c && leb c 122) || ((leb 48 c && leb c 57) || contains (codes "!#$&^_.+-") c))

-- `[A-Za-z0-9!#$&^_.+-]{1,63}` for the whole text
unfoldable pub is_mime_part : Text → Bool
is_mime_part s = leb 1 (length s) && (leb (length s) 63 && all is_mime_char s)

-- `_MIME_TOKEN.fullmatch`: no part can hold the slash between the two.
unfoldable pub is_mime : Text → Bool
is_mime s =
    let (main, (slash, sub)) = partition 47 s in slash && (is_mime_part main && is_mime_part sub)

unfoldable pub sanitize_content_type : Unicode → Option Text → Text
sanitize_content_type u raw =
    let given : Text = elim raw [ none ↦ [] | some s ↦ s ] in
    let candidate = u.lower (strip u.is_space (partition 59 given).0) in
    if is_mime candidate then candidate else default_content_type

default-is_mime : is_mime default_content_type ≡ true
unfolding is_mime is_mime_part is_mime_char partition nat_eq
default-is_mime = refl

-- Whatever a client declares, the content type that is kept has the form `type/subtype`.
pub sanitize_content_type-is_mime :
    (u : Unicode) (raw : Option Text) → is_mime (sanitize_content_type u raw) ≡ true
unfolding sanitize_content_type
sanitize_content_type-is_mime u raw = ground (arith, default-is_mime)
