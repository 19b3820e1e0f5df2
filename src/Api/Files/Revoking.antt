-- ===== src/Api/Files/Revoking.antt =====
-- Links of `create_link` of api_service/routers/files.py after `delete_file` of
-- api_service/services/files.py.
use mathlib.Core.Path.{subst}
use secure_file_system.Base.Dict
use secure_file_system.Api.Files.{ApiSettings, create_link}
use secure_file_system.Api.Files.Links.{owned_file-All, create_link-verify}
use secure_file_system.Base.{
  ℕ, ◌+◌, ◌≤◌, ◌<◌, ◌≡◌, refl, sym, ap, ◌∙◌, Bool, true, false, Option, some, arith, ◌==◌, list_eq,
  nat_eq, leb, if◌then◌else◌, ok, err, ok-eq, not_ok,
}
use secure_file_system.Base.Dict.{Dict}
use secure_file_system.Base.Lists.{All, All-always, first-All}
use secure_file_system.Base.Text.{Text}
use secure_file_system.Database.{deleted, User, File, Database, find_file}
use secure_file_system.Erasure.Codec.{Zfec}
use secure_file_system.Files.Deleting.{delete_file}
use secure_file_system.Files.Deleting.Revoking.{delete_file-revokes}
use secure_file_system.Network.{Network, World}
use secure_file_system.Python.Decimal.{pow10}
use secure_file_system.Python.Hashlib.{Hashlib}
use secure_file_system.Python.Hex.{pow16}
use secure_file_system.Python.Unicode.{Unicode, IsUnicode}
use secure_file_system.Signing.{expired, LinkClaims, Link, verify}

find_file-id : (id : ℕ) (db : Database) (file : File) → find_file id db ≡ some file → file.id ≡ id
unfolding find_file
find_file-id id db file e =
    let test =
      (first-All (λ f. Unit {0}) (λ f. f.id == id) db.files file (All-always db.files (λ f. tt))
        e).1 in
    ground (arith, test)

accepted_claims :
    (over : Bool) (claims c : LinkClaims)
    → (if over then err expired else ok claims) ≡ ok c
    → claims ≡ c
accepted_claims true claims c e = absurd (not_ok e)
accepted_claims false claims c e = ok-eq (ok claims) refl e

module _ (net : Network) (h : Hashlib) (token : Text) (z : Zfec) (u : Unicode)
    (ip : Option Text) where
  -- A link that `create_link` returned is outdated once its file is deleted, whatever the nodes
  -- answer to the deletion: where `verify` accepts it, the row that is committed for the file it
  -- names is deleted and has a higher link version than the link. It is asked that the version of
  -- the file has not gone down since the link was made.
  pub delete_file-outdates :
      (keys : Dict Text Text) (settings : ApiSettings) (user actor : User)
      (file_id ttl made t later : ℕ) (start w : World net) (link : Link) (expires : ℕ) (file : File)
      (c : LinkClaims)
      → IsUnicode u
      → Dict.get settings.secret_key_id keys ≡ some settings.secret_key
      → file_id < pow16 32
      → made + settings.max_ttl_seconds < pow10 12
      → All (λ f. f.link_version < pow10 12) start.session.files
      → All (λ f. f.id ≡ file_id → f.link_version ≤ file.link_version) start.session.files
      → (create_link net h token z ip user settings file_id ttl made start).0 ≡ ok (link, expires)
      → find_file file_id w.session ≡ some file
      → verify h u keys link later ≡ ok c
      → (row : File) × (find_file c.file_id (delete_file net h token t file actor ip w).committed
          ≡ some row)
        × (row.status ≡ deleted)
        × (c.link_version < row.link_version)
  delete_file-outdates keys settings user actor file_id ttl made t later start w link expires file c
        tables known is_id is_time versions grown e there v =
      let (f, owned, short, answered) =
        create_link-verify net h token z ip user u keys settings file_id ttl made start link expires
          later tables known is_id is_time versions e in
      let claims : LinkClaims = record {
        file_id = file_id;
        expires = expires;
        link_version = f.link_version;
        kid = settings.secret_key_id;
      } in
      let same : claims ≡ c = accepted_claims (leb expires later) claims c (sym answered ∙ v) in
      let (low, (id, mine)) = owned_file-All _ user file_id start.session f grown owned in
      let named : file.id ≡ file_id = find_file-id file_id w.session file there in
      let row : File = record file {
        status = deleted;
        deleted_at = some t;
        link_version = file.link_version + 1;
      } in
      let gone =
        delete_file-revokes net h token t file file actor ip w
          (subst (λ i. find_file i w.session ≡ some file) (sym named) there) in
      (
        row,
        subst (λ i. find_file i (delete_file net h token t file actor ip w).committed ≡ some row)
            (named ∙ ap (λ c. c.file_id) same) gone,
        refl,
        omega (arith, low id, ap (λ c. c.link_version) same),
      )
