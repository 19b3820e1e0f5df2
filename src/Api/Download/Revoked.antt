-- ===== src/Api/Download/Revoked.antt =====
-- Links to deleted files, in api_service/routers/download.py and api_service/services/files.py.

use secure_file_system.Api.{Service}
use secure_file_system.Api.Download.{Download, download_file}
use secure_file_system.Api.Download.Granting.{download_file-IsGranted}
use secure_file_system.Base.{
  ℕ, ◌+◌, ◌≡◌, refl, sym, ap, ◌∙◌, ◌≢◌, Bool, true, false, Option, none, some, arith, ok, ok-eq,
}
use secure_file_system.Base.Dict.{Dict}
use secure_file_system.Base.Text.{Text}
use secure_file_system.Database.{deleted, User, File, is_available, find_file}
use secure_file_system.Erasure.Codec.{Zfec}
use secure_file_system.Files.Deleting.{delete_file}
use secure_file_system.Files.Deleting.Revoking.{delete_file-revokes}
use secure_file_system.Maintenance.{open_session}
use secure_file_system.Network.{Network, World}
use secure_file_system.Python.Hashlib.{Hashlib, IsHashlib}
use secure_file_system.Python.Unicode.{Unicode}
use secure_file_system.Signing.{LinkClaims, Link, verify}
use secure_file_system.Signing.Verify.{IsGenuine-verify}

is_seen : Option File → Bool
is_seen none = false
is_seen (some f) = is_available f.status

module _ (net : Network) (h : Hashlib) (token : Text) (z : Zfec) (u : Unicode)
    (ip : Option Text) where
  -- After a deletion, whatever the nodes answered to it, no download gives the content of the file:
  -- what is sent is for a link to another one.
  pub download_file-of_deleted :
      (t : ℕ) (file found : File) (actor : User) (w : World net) (s : Service net) (max_keys : ℕ)
      (keys : Dict Text Text) (link : Link) (clock now : ℕ) (d : Download) (c : LinkClaims)
      → IsHashlib h
      → find_file file.id w.session ≡ some found
      → s.world ≡ delete_file net h token t file actor ip w
      → (download_file net h token z u ip max_keys keys link clock now s).0 ≡ ok d
      → verify h u keys link now ≡ ok c
      → c.file_id ≢ file.id
  unfolding open_session is_seen is_available
  download_file-of_deleted t file found actor w s max_keys keys link clock now d c laws there gone
        sent v same =
      let g =
        download_file-IsGranted net h token z u ip max_keys keys link clock now s d laws sent in
      let claims : g.claims ≡ c =
        ok-eq (verify h u keys link now) (IsGenuine-verify h u keys link now g.claims g.genuine)
          v in
      let row = delete_file-revokes net h token t file found actor ip w there in
      let id : g.claims.file_id ≡ file.id = ap (λ c. c.file_id) claims ∙ same in
      let committed : s.world.committed ≡ (delete_file net h token t file actor ip w).committed =
        ap (λ w. w.committed) gone in
      let read : find_file file.id s.world.committed ≡ some g.sent.file =
        rw (sym id) g.sent.found in
      let now_deleted : find_file file.id s.world.committed
          ≡ some (record file {
            status = deleted;
            deleted_at = some t;
            link_version = file.link_version + 1;
          }) =
        rw committed row in
      let unseen : is_seen (find_file file.id s.world.committed) ≡ false = rw now_deleted refl in
      let seen : is_seen (find_file file.id s.world.committed) ≡ true = rw read g.sent.is_there in
      ground (arith, unseen, seen)
