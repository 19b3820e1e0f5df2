-- ===== src/Tests/FilenameRuns.antt =====
-- File names and content types that a client sends, and the header of a download.

use secure_file_system.Base.{
  ℕ, ◌≡◌, refl, Bool, ◌||◌, none, some, [], ◌∷◌, ◌++◌, arith, ◌==◌, list_eq, nat_eq, ltb,
}
use secure_file_system.Base.Lists.{All}
use secure_file_system.Base.Text.{Text, codes}
use secure_file_system.Filenames.{width, sanitize_filename}
use secure_file_system.Filenames.ContentType.{
  is_mime_char, is_mime_part, is_mime, sanitize_content_type,
}
use secure_file_system.Filenames.Disposition.{
  quotable, ascii_name, content_disposition, read_disposition, IsPrintable,
  read-content_disposition,
}
use secure_file_system.Filenames.Safe.{IsSafeFilename, sanitize_filename-IsSafeFilename}
use secure_file_system.Python.Strings.{partition, lstrip, rstrip, strip}
use secure_file_system.Python.Unicode.{ascii_only}
use secure_file_system.Python.Urls.{is_unreserved, upper_hex_digit, quote_byte, quote_bytes}
use secure_file_system.Python.Utf8.{utf8}

-- The control characters of ASCII.
abbrev control : ℕ → Bool
control c = ltb c 32 || (c == 127)

name_run :
    sanitize_filename ascii_only control (some (codes "a/b\\..\\c d\n.txt ")) ≡ codes "c d.txt"
unfolding sanitize_filename nat_eq list_eq utf8 width strip lstrip rstrip
name_run = refl

dots_run : sanitize_filename ascii_only control (some (codes "a/..")) ≡ codes "file"
unfolding sanitize_filename nat_eq list_eq utf8 width strip lstrip rstrip
dots_run = refl

sanitize_filename-IsSafeFilename_example :
    IsSafeFilename control (sanitize_filename ascii_only control (some (codes "a/b\\..\\c\n.txt")))
unfolding nat_eq
sanitize_filename-IsSafeFilename_example =
    sanitize_filename-IsSafeFilename ascii_only control (some (codes "a/b\\..\\c\n.txt"))
      (refl, (refl, (refl, (refl, tt))))

content_type_run :
    (sanitize_content_type ascii_only (some (codes " Text/HTML ; charset=x")) ≡ codes "text/html")
    × (sanitize_content_type ascii_only (some (codes "text/html/x"))
        ≡ codes "application/octet-stream")
    × (sanitize_content_type ascii_only none ≡ codes "application/octet-stream")
unfolding sanitize_content_type is_mime is_mime_part is_mime_char partition strip lstrip rstrip
    nat_eq
content_type_run = (refl, refl, refl)

-- A name with a quote, and a letter beyond ASCII.
abbrev accented : Text
accented = codes "a\"" ++ (233 ∷ [])

disposition_run :
    content_disposition ascii_only (λ s. s) accented
    ≡ codes "attachment; filename=\"a_\"; filename*=UTF-8''a%22%C3%A9"
unfolding content_disposition ascii_name quotable strip lstrip rstrip nat_eq list_eq quote_bytes
    quote_byte is_unreserved upper_hex_digit utf8
disposition_run = refl

read-content_disposition_example :
    All IsPrintable (content_disposition ascii_only (λ s. s) accented)
    × (read_disposition (content_disposition ascii_only (λ s. s) accented)
        ≡ some (ascii_name ascii_only (λ s. s) accented, utf8 accented))
read-content_disposition_example =
    read-content_disposition ascii_only (λ s. s) accented (omega arith)
