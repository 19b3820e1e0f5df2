-- ===== src/Api/Download/Sending.antt =====
-- The downloads that api_service/routers/download.py does not refuse.

use secure_file_system.Api.{Service, transfer_slot, enforce_rate_limit}
use secure_file_system.Api.Download.{limiter_key, send_file, check_row, check_link, download_file}
use secure_file_system.Base.{
  ℕ, ◌<◌, ◌≡◌, refl, true, false, Option, some, arith, ◌==◌, ◌!=◌, list_eq, nat_eq, ok,
}
use secure_file_system.Base.Dict.{Dict}
use secure_file_system.Base.Text.{Text, Bytes}
use secure_file_system.Database.{File, is_available, find_file}
use secure_file_system.Erasure.Codec.{Zfec}
use secure_file_system.Files.Reading.{read_file}
use secure_file_system.Maintenance.{open_session}
use secure_file_system.Network.{Network}
use secure_file_system.Python.Hashlib.{Hashlib}
use secure_file_system.Python.Unicode.{Unicode}
use secure_file_system.RateLimit.{allow}
use secure_file_system.Signing.{LinkClaims, Link, verify}

module _ (net : Network) (h : Hashlib) (token : Text) (z : Zfec) (u : Unicode)
    (ip : Option Text) where
  -- With a free slot and a token of the limiter, a link that `verify` accepts is answered with the
  -- bytes that the read returns, if its version is the one of the available file that it names.
  pub download_file-sends :
      (max_keys : ℕ) (keys : Dict Text Text) (link : Link) (clock now : ℕ) (s : Service net)
      (c : LinkClaims) (file : File) (bytes : Bytes)
      → 0 < s.free_slots
      → (allow max_keys (limiter_key ip) clock s.download_limiter).0 ≡ true
      → verify h u keys link now ≡ ok c
      → find_file c.file_id s.world.committed ≡ some file
      → is_available file.status ≡ true
      → file.link_version ≡ c.link_version
      → (read_file net h token z file (open_session s.world)).0 ≡ ok bytes
      → (download_file net h token z u ip max_keys keys link clock now s).0
        ≡ ok (record { content = bytes; original_name = file.original_name })
  unfolding download_file check_link check_row send_file transfer_slot enforce_rate_limit
      open_session
  download_file-sends max_keys keys link clock now s c file bytes free under v found there version
        read =
      let slot : (s.free_slots == 0) ≡ false = ground (arith, free) in
      let same : (file.link_version != c.link_version) ≡ false = ground (arith, version) in
      rw (slot, under, v, check_link, found, check_row, there, same, read, send_file, download_file)
        refl
