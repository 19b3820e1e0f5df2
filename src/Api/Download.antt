-- ===== src/Api/Download.antt =====
-- api_service/routers/download.py
pub mod Granting
pub mod Sending
pub mod Revoked
use secure_file_system.Api.{Service, HttpStatus, transfer_slot, enforce_rate_limit}
use secure_file_system.Base.{
  ℕ, not, Option, none, some, ◌++◌, ◌!=◌, list_eq, nat_eq, if◌then◌else◌, Result, ok, err,
}
use secure_file_system.Base.Dict.{Dict}
use secure_file_system.Base.Text.{Text, Bytes, codes}
use secure_file_system.Database.{
  download_success, download_denied, File, Database, is_available, find_file,
}
use secure_file_system.Erasure.Codec.{Zfec}
use secure_file_system.Files.{FilesError, file_unavailable, record_event}
use secure_file_system.Files.Reading.{read_file}
use secure_file_system.Maintenance.{open_session}
use secure_file_system.Network.{Network, World, commit, stage}
use secure_file_system.Python.Hashlib.{Hashlib}
use secure_file_system.Python.Unicode.{Unicode}
use secure_file_system.Python.Uuid.{uuid_of}
use secure_file_system.RateLimit.{token, allow}
use secure_file_system.Signing.{LinkClaims, Link, verify}

-- The response: the content, and the name that its header is made of.
pub record Download : Type 0 where
  pub content : Bytes
  pub original_name : Text

-- f"ip:{ip}"
unfoldable pub limiter_key : Option Text → Text
limiter_key none = codes "ip:None"
limiter_key (some ip) = codes "ip:" ++ ip

-- The file that a raw identifier names, if there is one.
denied_file : Unicode → Text → Database → Option ℕ
denied_file u raw db = elim (uuid_of u raw) [
  | none ↦ none
  | some candidate ↦ elim (find_file candidate db) [ none ↦ none | some f ↦ some candidate ]
]

module _ (net : Network) (h : Hashlib) (token : Text) (z : Zfec) (u : Unicode)
    (ip : Option Text) where
  -- `_deny`
  unfoldable pub deny : Text → HttpStatus → World net → Result HttpStatus Download × World net
  unfolding denied_file
  deny raw status w =
      let event = record_event download_denied (denied_file u raw w.session) none none ip in
      (err status, commit (stage event w))

  unfoldable pub failure_status : FilesError → HttpStatus
  failure_status file_unavailable = 503
  failure_status _ = 500

  -- The file is read, then the event is committed, then the content is sent.
  unfoldable pub send_file : File → World net → Result HttpStatus Download × World net
  unfolding failure_status
  send_file file w =
      let (bytes, w') = read_file net h token z file w in
      let event = record_event download_success (some file.id) none none ip in
      elim bytes [
        | err e ↦ (err (failure_status e), w')
        | ok content ↦ (
          ok (record { content = content; original_name = file.original_name }),
          commit (stage event w'),
        )
      ]

  -- The checks of the row.
  unfoldable pub check_row :
      Text → LinkClaims → Option File → World net → Result HttpStatus Download × World net
  unfolding deny send_file
  check_row raw claims none w = deny raw 404 w
  check_row raw claims (some file) w =
      if not (is_available file.status)
      then deny raw 404 w
      else if file.link_version != claims.link_version
      then deny raw 403 w
      else send_file file w

  unfoldable pub check_link :
      Dict Text Text → Link → ℕ → World net → Result HttpStatus Download × World net
  unfolding check_row
  check_link keys link now w = elim (verify h u keys link now) [
    | err e ↦ deny link.file_id 403 w
    | ok claims ↦ check_row link.file_id claims (find_file claims.file_id w.session) w
  ]

  -- `clock` is the limiter's, in nanoseconds, `now` the time in seconds.
  unfoldable pub download_file :
      ℕ → Dict Text Text → Link → ℕ → ℕ → Service net → Result HttpStatus Download × Service net
  unfolding check_link limiter_key
  download_file max_keys keys link clock now s =
      let (allowed, limiter) = allow max_keys (limiter_key ip) clock s.download_limiter in
      let (result, w) = check_link keys link now (open_session s.world) in
      elim (transfer_slot s.free_slots) [
        | err e ↦ (err e, s)
        | ok _ ↦ elim (enforce_rate_limit allowed) [
          | err e ↦ (err e, record s { download_limiter = limiter })
          | ok _ ↦ (result, record s { download_limiter = limiter; world = w })
        ]
      ]
