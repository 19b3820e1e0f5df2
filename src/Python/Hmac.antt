-- ===== src/Python/Hmac.antt =====
-- `hmac.compare_digest` on two `str`.
use secure_file_system.Base.{
  Bool, ◌&&◌, Option, none, some, ◌==◌, list_eq, nat_eq, ltb, if◌then◌else◌,
}
use secure_file_system.Base.Lists.{all}
use secure_file_system.Base.Text.{Text}

abbrev pub is_ascii : Text → Bool
is_ascii = all (λ c. ltb c 128)

-- `none` is the `TypeError` that a character beyond ASCII raises.
unfoldable pub compare_digest : Text → Text → Option Bool
compare_digest a b = if is_ascii a && is_ascii b then some (a == b) else none
