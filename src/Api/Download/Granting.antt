-- ===== src/Api/Download/Granting.antt =====
-- The downloads that api_service/routers/download.py grants.

use mathlib.Core.Path.{subst}
use secure_file_system.Api.{Service, transfer_slot, enforce_rate_limit}
use secure_file_system.Api.Download.{
  Download, limiter_key, deny, send_file, check_row, check_link, download_file,
}
use secure_file_system.Base.{
  ℕ, ◌≡◌, refl, ap, inl, inr, true, Option, none, some, arith, ◌!=◌, list_eq, nat_eq, Bool-cases,
  Option-cases, ok, Result-cases, ok-eq, not_ok,
}
use secure_file_system.Base.Dict.{Dict}
use secure_file_system.Base.Text.{Text}
use secure_file_system.Database.{download_success, File, is_available, find_file}
use secure_file_system.Erasure.Codec.{Zfec}
use secure_file_system.Files.{sha256_hex, record_event}
use secure_file_system.Files.Reading.{read_file}
use secure_file_system.Files.Reading.Digest.{read_file-ok_digest, session-read_file}
use secure_file_system.Maintenance.{open_session}
use secure_file_system.Network.{Network, World}
use secure_file_system.Python.Hashlib.{Hashlib, IsHashlib}
use secure_file_system.Python.Unicode.{Unicode}
use secure_file_system.RateLimit.{allow}
use secure_file_system.Signing.{LinkClaims, Link, verify}
use secure_file_system.Signing.Verify.{IsGenuine, verify-IsGenuine}

module _ (net : Network) (h : Hashlib) (token : Text) (z : Zfec) (u : Unicode)
    (ip : Option Text) where
  -- What holds of the row and the answer when the content is sent.
  pub record IsSent (claims : LinkClaims) (w : World net) (d : Download) (w' : World net)
      : Type 0 where
    pub file : File
    pub found : find_file claims.file_id w.session ≡ some file
    pub is_there : is_available file.status ≡ true
    pub version : file.link_version ≡ claims.link_version
    pub digest : sha256_hex h d.content ≡ file.checksum_sha256
    pub audited :
        w'.committed.audit_events
        ≡ (record_event download_success (some file.id) none none ip w.session).audit_events

  send_file-ok :
      (file : File) (w : World net) (d : Download)
      → (send_file net h token z u ip file w).0 ≡ ok d
      → (sha256_hex h d.content ≡ file.checksum_sha256)
        × ((send_file net h token z u ip file w).1.committed.audit_events
            ≡ (record_event download_success (some file.id) none none ip w.session).audit_events)
  unfolding send_file record_event
  send_file-ok file w d e =
      let read = read_file net h token z file w in
      elim (Result-cases read.0) [
        | inl (content, r) ↦
            let sent : Download = record {
              content = content;
              original_name = file.original_name;
            } in
            let same : sent ≡ d = ok-eq (ok sent) refl (rw (r, send_file) at e) in
            let digest = read_file-ok_digest net h token z file w content r in
            let event = record_event download_success (some file.id) none none ip in
            (
              subst (λ x. sha256_hex h x.content ≡ file.checksum_sha256) same digest,
              rw (r, send_file)
                  (ap (λ db. (event db).audit_events) (session-read_file net h token z file w)),
            )
        | inr (error, r) ↦ absurd (not_ok (rw (r, send_file) at e))
      ]

  check_row-IsSent :
      (raw : Text) (claims : LinkClaims) (w : World net) (d : Download)
      → (check_row net h token z u ip raw claims (find_file claims.file_id w.session) w).0 ≡ ok d
      → IsSent claims w d
          (check_row net h token z u ip raw claims (find_file claims.file_id w.session) w).1
  unfolding check_row deny
  check_row-IsSent raw claims w d e = elim (Option-cases (find_file claims.file_id w.session)) [
    | inl f ↦ absurd (not_ok (rw (f, check_row) at e))
    | inr (file, f) ↦ elim (Bool-cases (is_available file.status)) [
      | inr a ↦ absurd (not_ok (rw (f, check_row, a) at e))
      | inl a ↦ elim (Bool-cases (file.link_version != claims.link_version)) [
        | inl v ↦ absurd (not_ok (rw (f, check_row, a, v) at e))
        | inr v ↦
            let (digest, audited) = send_file-ok file w d (rw (f, check_row, a, v) at e) in
            record {
              file = file;
              found = f;
              is_there = a;
              version = ground (arith, v);
              digest = digest;
              audited = rw (f, check_row, a, v) audited;
            }
      ]
    ]
  ]

  -- What a download is granted for.
  pub record IsGranted (keys : Dict Text Text) (link : Link) (now : ℕ) (s : Service net)
      (d : Download) (s' : Service net) : Type 0 where
    pub claims : LinkClaims
    pub genuine : IsGenuine h u keys link now claims
    pub sent : IsSent claims (open_session s.world) d s'.world

  check_link-IsSent :
      (keys : Dict Text Text) (link : Link) (now : ℕ) (w : World net) (d : Download)
      → (check_link net h token z u ip keys link now w).0 ≡ ok d
      → (c : LinkClaims) × (verify h u keys link now ≡ ok c)
        × IsSent c w d (check_link net h token z u ip keys link now w).1
  unfolding check_link deny
  check_link-IsSent keys link now w d e = elim (Result-cases (verify h u keys link now)) [
    | inr (error, v) ↦ absurd (not_ok (rw (v, check_link) at e))
    | inl (c, v) ↦
        (c, v, rw (v, check_link) (check_row-IsSent link.file_id c w d (rw (v, check_link) at e)))
  ]

  -- Content is sent only for a genuine link to an available file of that version; it has the digest
  -- of the row, and the event is committed with the rest.
  pub download_file-IsGranted :
      (max_keys : ℕ) (keys : Dict Text Text) (link : Link) (clock now : ℕ) (s : Service net)
      (d : Download)
      → IsHashlib h
      → (download_file net h token z u ip max_keys keys link clock now s).0 ≡ ok d
      → IsGranted keys link now s d
          (download_file net h token z u ip max_keys keys link clock now s).1
  unfolding download_file
  download_file-IsGranted max_keys keys link clock now s d laws e =
      let a = (allow max_keys (limiter_key ip) clock s.download_limiter).0 in
      elim (Result-cases (transfer_slot s.free_slots)) [
        | inr (error, t) ↦ absurd (not_ok (rw (t, download_file) at e))
        | inl (free, t) ↦ elim (Result-cases (enforce_rate_limit a)) [
          | inr (error, r) ↦ absurd (not_ok (rw (t, r, download_file) at e))
          | inl (under, r) ↦
              let (c, v, sent) =
                check_link-IsSent keys link now (open_session s.world) d
                  (rw (t, r, download_file) at e) in
              record {
                claims = c;
                genuine = verify-IsGenuine h u keys link now c laws v;
                sent = rw (t, r, download_file) sent;
              }
        ]
      ]
