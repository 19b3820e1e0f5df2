-- ===== src/Schema/Deleting.antt =====
-- `delete_file` of api_service/services/files.py and the constraints of the tables.
use secure_file_system.NodeClient
use secure_file_system.NodeClient
use secure_file_system.Api.Files.{owned_file, delete_endpoint}
use secure_file_system.Api.Files.Links.{owned_file-All}
use secure_file_system.Base.{
  ℕ, ◌+◌, ◌<◌, ◌≡◌, ap, ◌∙◌, inl, inr, Bool, true, false, not, Option, none, some, List, [], ◌∷◌,
  map, arith, contains, list_eq, nat_eq, Result-cases,
}
use secure_file_system.Base.Lists.{All, All-both, All-always}
use secure_file_system.Base.Text.{Text}
use secure_file_system.Database.{
  file_deleted, User, File, Shard, Database, update_file, delete_shard_row, placed_shards,
}
use secure_file_system.Erasure.Codec.{Zfec}
use secure_file_system.Filenames.{fitting}
use secure_file_system.Files.{failed}
use secure_file_system.Files.Deleting.{
  delete_rows, deleted_row, delete_node_shard, remove_deleted_shards, delete_file,
}
use secure_file_system.Files.Reading.{Placed}
use secure_file_system.Network.{Network, World, gather, gather-preserves}
use secure_file_system.NodeClient.{delete_request}
use secure_file_system.Python.Hashlib.{Hashlib}
use secure_file_system.Schema.{refers, file_checks, integer, file_fits, IsConsistent, AreConsistent}
use secure_file_system.Schema.Requests.{send-AreConsistent}
use secure_file_system.Schema.Rows.{
  record_event-IsConsistent, update_file-IsConsistent, delete_shard_row-IsConsistent,
}
use secure_file_system.Schema.Tables.{ids-update, ids-contained}
use secure_file_system.Signing.{checked}

delete_rows-IsConsistent :
    (shards : List Shard) (removed : List Bool) (db : Database)
    → IsConsistent db
    → IsConsistent (delete_rows shards removed db)
unfolding delete_rows
delete_rows-IsConsistent [] removed db c = c
delete_rows-IsConsistent (s ∷ shards) [] db c = c
delete_rows-IsConsistent (s ∷ shards) (true ∷ removed) db c =
    delete_rows-IsConsistent shards removed (delete_shard_row s.id db)
      (delete_shard_row-IsConsistent s.id db c)
delete_rows-IsConsistent (s ∷ shards) (false ∷ removed) db c =
    delete_rows-IsConsistent shards removed db c

-- The version of a link is the only number that a deletion changes.
deleted_row-fits :
    (now : ℕ) (file : File)
    → file_fits file ≡ true
    → file.link_version + 1 < integer
    → file_fits (deleted_row now file) ≡ true
unfolding file_fits deleted_row
deleted_row-fits now file fitting small = ground (arith, fitting, small)

module _ (net : Network) (h : Hashlib) (token : Text) where
  pub delete_node_shard-AreConsistent :
      (p : Placed) (w : World net)
      → AreConsistent w
      → AreConsistent (delete_node_shard net h token p w).1
  unfolding delete_node_shard NodeClient.delete_shard
  delete_node_shard-AreConsistent p w i =
      send-AreConsistent net h token p.1.address (NodeClient.delete_request net h token p.0.id) w i

  pub remove_deleted_shards-AreConsistent :
      (file : File) (w : World net)
      → AreConsistent w
      → AreConsistent (remove_deleted_shards net h token file w).1
  unfolding remove_deleted_shards
  remove_deleted_shards-AreConsistent file w i =
      let placed = placed_shards file.id w.session in
      let after = gather (delete_node_shard net h token) placed w in
      let j =
        gather-preserves AreConsistent (delete_node_shard net h token) placed
          (All-always placed delete_node_shard-AreConsistent) w i in
      let left =
        delete_rows-IsConsistent (map (λ p. p.0) placed) (map (λ r. not (failed r)) after.0)
          after.1.session j.session in
      record { committed = left; session = left; sent = j.sent }

  delete_file-AreConsistent :
      (now : ℕ) (file : File) (actor : User) (ip : Option Text) (w : World net)
      → AreConsistent w
      → contains (map (λ f. f.id) w.session.files) file.id ≡ true
      → contains (map (λ u. u.id) w.session.users) actor.id ≡ true
      → contains (map (λ u. u.id) w.session.users) file.owner_user_id ≡ true
      → file_checks file ≡ true
      → file_fits (deleted_row now file) ≡ true
      → AreConsistent (delete_file net h token now file actor ip w)
  unfolding delete_file deleted_row file_checks file_fits update_file refers
  delete_file-AreConsistent now file actor ip w i row by owner checked fitting =
      let gone = deleted_row now file in
      let updated = update_file-IsConsistent gone w.session checked fitting owner i.session in
      let noted =
        record_event-IsConsistent file_deleted (some file.id) (some actor.id) none ip
          (update_file gone w.session)
          (ap (λ ids. contains ids file.id) (ids-update gone w.session.files) ∙ row) (by) updated in
      remove_deleted_shards-AreConsistent gone _
        (record { committed = noted; session = noted; sent = i.sent })

  pub delete_endpoint-AreConsistent :
      (z : Zfec) (ip : Option Text) (user : User) (now file_id : ℕ) (w : World net)
      → AreConsistent w
      → contains (map (λ u. u.id) w.session.users) user.id ≡ true
      → All (λ f. f.link_version + 1 < integer) w.session.files
      → AreConsistent (delete_endpoint net h token z ip user now file_id w).1
  unfolding delete_endpoint
  delete_endpoint-AreConsistent z ip user now file_id w i by versions =
      let users = map (λ u. u.id) w.session.users in
      let ids = map (λ f. f.id) w.session.files in
      let fits : All
          (λ f.
            (contains ids f.id ≡ true)
            × ((contains users f.owner_user_id ≡ true)
                × ((file_checks f ≡ true) × (file_fits (deleted_row now f) ≡ true))))
          w.session.files =
        All-both w.session.files (λ f a b. (a, b)) (ids-contained (λ f. f.id) w.session.files)
          (All-both w.session.files (λ f a b. (a, b)) i.session.files.owners
            (All-both w.session.files (λ f a b. (a, b)) i.session.files.checks
              (All-both w.session.files (λ f a b. deleted_row-fits now f a b) i.session.files.fits
                versions))) in
      elim (Result-cases (owned_file user file_id w.session)) [
        | inr (error, e) ↦ rw (e, delete_endpoint) i
        | inl (file, e) ↦
            let f = (owned_file-All _ user file_id w.session file fits e).0 in
            rw (e, delete_endpoint)
              (delete_file-AreConsistent now file user ip w i f.0 by f.1.0 f.1.1.0 f.1.1.1)
      ]
