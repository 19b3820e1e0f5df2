-- ===== src/Api/Files.antt =====
-- api_service/routers/files.py, after authentication: `user` is who `get_current_user` returned. What
-- the multipart parser gives is an argument, a missing field `none`. The availability of a file is
-- in Files/Reading.
pub mod Owned
pub mod Links
pub mod Revoking
use secure_file_system.Base.Dict
use secure_file_system.Api.{Service, HttpStatus, transfer_slot, enforce_rate_limit}
use secure_file_system.Base.{
  ℕ, ◌+◌, Bool, ◌&&◌, Option, none, some, List, [], ◌∷◌, ◌++◌, map, ◌==◌, list_eq, nat_eq, ltb, leb,
  if◌then◌else◌, Result, ok, err, Done, ◌>>=◌,
}
use secure_file_system.Base.Lists.{length, take, drop, keep, first}
use secure_file_system.Base.Text.{Text, Bytes, codes}
use secure_file_system.Database.{link_generated, User, File, Database, is_available}
use secure_file_system.Erasure.Codec.{Zfec}
use secure_file_system.Files.{FilesError, insufficient_nodes, upload_failed, record_event}
use secure_file_system.Files.Deleting.{delete_file}
use secure_file_system.Files.Reading.{Availability, file_availability}
use secure_file_system.Files.Uploading.{Draws, Upload, upload_file}
use secure_file_system.Maintenance.{open_session}
use secure_file_system.Network.{Network, World, commit, stage}
use secure_file_system.Python.Hashlib.{Hashlib}
use secure_file_system.Python.Uuid.{uuid_text}
use secure_file_system.RateLimit.{token, allow}
use secure_file_system.Signing.{Link, checked}
use secure_file_system.Signing.Issue.{issued_link}

-- The multipart field: its bytes, capped by the read, its name and its type.
pub record UploadedFile : Type 0 where
  pub bytes : Bytes
  pub filename : Text
  pub content_type : Text

-- The settings that the endpoints read.
pub record ApiSettings : Type 0 where
  pub secret_key : Text
  pub secret_key_id : Text
  pub shard_data_count : ℕ
  pub shard_parity_count : ℕ
  pub max_upload_bytes : ℕ
  pub min_ttl_seconds : ℕ
  pub max_ttl_seconds : ℕ

-- FileOut
pub record FileOut : Type 0 where
  pub file : File
  pub availability : Availability

-- f"user:{user.id}"
unfoldable pub user_key : User → Text
user_key user = codes "user:" ++ uuid_text user.id

-- `_owned_file`
unfoldable pub is_owned : User → ℕ → File → Bool
is_owned user file_id f =
    (f.id == file_id) && ((f.owner_user_id == user.id) && is_available f.status)

unfoldable pub owned_file : User → ℕ → Database → Result HttpStatus File
unfolding is_owned
owned_file user file_id db = elim (first (is_owned user file_id) db.files) [
  | none ↦ err 404
  | some f ↦ ok f
]

-- What `upload_file` does before the service is called.
unfoldable pub accepted_upload : ApiSettings → Option UploadedFile → Result HttpStatus UploadedFile
accepted_upload settings none = err 422
accepted_upload settings (some f) =
    if ltb settings.max_upload_bytes (length f.bytes)
    then err 413
    else elim f.bytes [ [] ↦ err 400 | ◌∷◌ b bs ↦ ok f ]

unfoldable pub upload_status : FilesError → HttpStatus
upload_status insufficient_nodes = 503
upload_status upload_failed = 502
upload_status _ = 500

unfoldable pub ttl_in_range : ApiSettings → ℕ → Result HttpStatus Done
ttl_in_range settings ttl_seconds =
    if leb settings.min_ttl_seconds ttl_seconds && leb ttl_seconds settings.max_ttl_seconds
    then ok tt
    else err 422

unfoldable pub file_out : Database → File → FileOut
file_out db file = record { file = file; availability = file_availability db file }

module _ (net : Network) (h : Hashlib) (token : Text) (z : Zfec) (ip : Option Text)
    (user : User) where
  -- `sanitize` is what api_service/services/filenames.py makes of a name and a type.
  unfoldable pub upload_endpoint :
      ApiSettings
      → Draws
      → (Text → Text)
      → (Text → Text)
      → Option UploadedFile
      → World net
      → Result HttpStatus FileOut × World net
  unfolding accepted_upload upload_status file_out
  upload_endpoint settings d sanitize sanitize_type field w =
      elim (accepted_upload settings field) [
        | err e ↦ (err e, w)
        | ok f ↦
            let upload : Upload = record {
              owner = user;
              filename = sanitize f.filename;
              content_type = sanitize_type f.content_type;
              bytes = f.bytes;
              k = settings.shard_data_count;
              m = settings.shard_parity_count;
              ip_address = ip;
            } in
            let (result, w') = upload_file net h token z d upload w in
            elim result [
              | err e ↦ (err (upload_status e), w')
              | ok file ↦ (ok (file_out w'.session file), w')
            ]
      ]

  unfoldable pub get_file : ℕ → World net → Result HttpStatus FileOut
  get_file file_id w = do file ← owned_file user file_id w.session; ok (file_out w.session file)

  -- The page of a list, newest first: `order` is `ORDER BY uploaded_at DESC, id`.
  unfoldable pub list_files : (List File → List File) → ℕ → ℕ → World net → List FileOut
  list_files order limit offset w =
      let mine =
        keep (λ f. (f.owner_user_id == user.id) && is_available f.status) w.session.files in
      map (file_out w.session) (take limit (drop offset (order mine)))

  -- `now` is `int(time.time())`. The answer holds the query of the link and its expiry.
  unfoldable pub create_link :
      ApiSettings → ℕ → ℕ → ℕ → World net → Result HttpStatus (Link × ℕ) × World net
  unfolding ttl_in_range
  create_link settings file_id ttl_seconds now w =
      let checked : Result HttpStatus File =
        ttl_in_range settings ttl_seconds >>= (λ _. owned_file user file_id w.session) in
      elim checked [
        | err e ↦ (err e, w)
        | ok file ↦
            let expires = now + ttl_seconds in
            let link =
              issued_link h settings.secret_key settings.secret_key_id file.id expires
                file.link_version in
            let event =
              record_event link_generated (some file.id) (some user.id) (some ttl_seconds) ip in
            (ok (link, expires), commit (stage event w))
      ]

  unfoldable pub delete_endpoint : ℕ → ℕ → World net → Result HttpStatus Done × World net
  delete_endpoint now file_id w = elim (owned_file user file_id w.session) [
    | err e ↦ (err e, w)
    | ok file ↦ (ok tt, delete_file net h token now file user ip w)
  ]

-- A handler that asks the rate limiter of the API first, in a session of its own.
unfoldable pub limited :
    {net : Network} {A : Type 0}
    → ℕ
    → User
    → ℕ
    → (World net → Result HttpStatus A × World net)
    → Service net
    → Result HttpStatus A × Service net
limited max_keys user clock handler s =
    let (allowed, limiter) = allow max_keys (user_key user) clock s.api_limiter in
    let (result, w) = handler (open_session s.world) in
    elim (enforce_rate_limit allowed) [
      | err e ↦ (err e, record s { api_limiter = limiter })
      | ok _ ↦ (result, record s { api_limiter = limiter; world = w })
    ]

-- `POST /files`, whose transfer slot is asked for before the handler runs
unfoldable pub post_file :
    {net : Network} {A : Type 0}
    → ℕ
    → User
    → ℕ
    → (World net → Result HttpStatus A × World net)
    → Service net
    → Result HttpStatus A × Service net
unfolding limited
post_file max_keys user clock handler s = elim (transfer_slot s.free_slots) [
  | err e ↦ (err e, s)
  | ok _ ↦ limited max_keys user clock handler s
]
