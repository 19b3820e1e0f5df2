-- ===== src/Api/Files/Links.antt =====
-- The links that `create_link` of api_service/routers/files.py issues, at `verify` of
-- api_service/services/signing.py.
use secure_file_system.Base.Dict
use mathlib.Core.Path.{subst}
use secure_file_system.Api.Files.{ApiSettings, is_owned, owned_file, ttl_in_range, create_link}
use secure_file_system.Base.{
  ℕ, ◌+◌, ◌≤◌, ◌<◌, ◌≡◌, refl, sym, ap, inl, inr, true, ◌&&◌, Option, some, arith, list_eq, nat_eq,
  leb, if◌then◌else◌, Bool-cases, Option-cases, ok, err, Done, Result-cases, ok-eq, not_ok, ◌>>=◌,
  >>=-eq-ok,
}
use secure_file_system.Base.Dict.{Dict}
use secure_file_system.Base.Lists.{first, All, first-All}
use secure_file_system.Base.Text.{Text}
use secure_file_system.Database.{User, File, Database, is_available}
use secure_file_system.Erasure.Codec.{Zfec}
use secure_file_system.Files.{record_event}
use secure_file_system.Network.{Network, World}
use secure_file_system.Python.Decimal.{pow10}
use secure_file_system.Python.Hashlib.{Hashlib}
use secure_file_system.Python.Hex.{pow16}
use secure_file_system.Python.Unicode.{Unicode, IsUnicode}
use secure_file_system.RateLimit.Eviction.{held}
use secure_file_system.Signing.{expired, Link, verify}
use secure_file_system.Signing.Issue.{issued_link, verify-issued}

pub owned_file-All :
    (P : File → Type 0) (user : User) (file_id : ℕ) (db : Database) (f : File)
    → All P db.files
    → owned_file user file_id db ≡ ok f
    → P f × ((f.id ≡ file_id) × ((f.owner_user_id ≡ user.id) × (is_available f.status ≡ true)))
unfolding owned_file is_owned
owned_file-All P user file_id db f h e =
    elim (Option-cases (first (is_owned user file_id) db.files)) [
      | inl n ↦ absurd (not_ok (rw (n, owned_file) at e))
      | inr (g, n) ↦
          let same : g ≡ f = ok-eq (ok g) refl (rw (n, owned_file) at e) in
          let (held, test) = first-All P (is_owned user file_id) db.files g h n in
          subst
            (λ f.
              P f
              × ((f.id ≡ file_id) × ((f.owner_user_id ≡ user.id) × (is_available f.status ≡ true))))
            same (held, (ground (arith, test), (ground (arith, test), ground (arith, test))))
    ]

ttl_in_range-le :
    (settings : ApiSettings) (ttl : ℕ) (t : Done)
    → ttl_in_range settings ttl ≡ ok t
    → ttl ≤ settings.max_ttl_seconds
unfolding ttl_in_range
ttl_in_range-le settings ttl t e =
    let test = leb settings.min_ttl_seconds ttl && leb ttl settings.max_ttl_seconds in
    elim (Bool-cases test) [ inl l ↦ ground (arith, l) | inr l ↦ absurd (not_ok (rw l at e)) ]

module _ (net : Network) (h : Hashlib) (token : Text) (z : Zfec) (ip : Option Text)
    (user : User) where
  create_link-cases :
      (settings : ApiSettings) (file_id ttl now : ℕ) (w : World net) (link : Link) (expires : ℕ)
      → (create_link net h token z ip user settings file_id ttl now w).0 ≡ ok (link, expires)
      → (f : File) × (owned_file user file_id w.session ≡ ok f)
        × (ttl ≤ settings.max_ttl_seconds)
        × (expires ≡ now + ttl)
        × (link
            ≡ issued_link h settings.secret_key settings.secret_key_id f.id
                (now + ttl)
                f.link_version)
  unfolding create_link
  create_link-cases settings file_id ttl now w link expires e =
      let checked = ttl_in_range settings ttl >>= (λ _. owned_file user file_id w.session) in
      elim (Result-cases checked) [
        | inr (error, c) ↦ absurd (not_ok (rw (c, create_link) at e))
        | inl (f, c) ↦
            let (t, in_range, owned) = >>=-eq-ok (ttl_in_range settings ttl) _ c in
            let made : Link =
              issued_link h settings.secret_key settings.secret_key_id f.id (now + ttl)
                f.link_version in
            let same : (made, now + ttl) ≡ (link, expires) =
              ok-eq (ok (made, now + ttl)) refl (rw (c, create_link) at e) in
            (
              f,
              owned,
              ttl_in_range-le settings ttl t in_range,
              sym (ap (λ p. p.1) same),
              sym (ap (λ p. p.0) same),
            )
      ]

  -- A link that the endpoint returns is one to a file that the user owns and that is available, and
  -- `verify` accepts it with the version of that file until it expires, and not longer; it expires
  -- no later than the settings allow.
  pub create_link-verify :
      (u : Unicode) (keys : Dict Text Text) (settings : ApiSettings) (file_id ttl now : ℕ)
      (w : World net) (link : Link) (expires later : ℕ)
      → IsUnicode u
      → Dict.get settings.secret_key_id keys ≡ some settings.secret_key
      → file_id < pow16 32
      → now + settings.max_ttl_seconds < pow10 12
      → All (λ f. f.link_version < pow10 12) w.session.files
      → (create_link net h token z ip user settings file_id ttl now w).0 ≡ ok (link, expires)
      → (f : File) × (owned_file user file_id w.session ≡ ok f)
        × (expires ≤ now + settings.max_ttl_seconds)
        × (verify h u keys link later ≡ (
            if leb expires later
            then err expired
            else ok (record {
              file_id = file_id;
              expires = expires;
              link_version = f.link_version;
              kid = settings.secret_key_id;
            })))
  create_link-verify u keys settings file_id ttl now w link expires later tables known is_id is_time
        versions e =
      let (f, owned, short, time, made) =
        create_link-cases settings file_id ttl now w link expires e in
      let (version, (id, mine)) =
        owned_file-All (λ f. f.link_version < pow10 12) user file_id w.session f versions owned in
      (
        f,
        owned,
        omega (arith, short, time),
        rw (made, time, sym id)
            (verify-issued h u keys settings.secret_key settings.secret_key_id f.id (now + ttl)
              f.link_version tables known (subst (λ i. i < pow16 32) (sym id) is_id)
              (omega (arith, is_time, short)) version later),
      )

  -- Besides the event, `create_link` changes nothing.
  pub create_link-keeps :
      (settings : ApiSettings) (file_id ttl now : ℕ) (w : World net) (link : Link) (expires : ℕ)
      → let (r, w') = create_link net h token z ip user settings file_id ttl now w in
        r ≡ ok (link, expires)
        → (w'.network ≡ w.network)
          × (w'.committed.files ≡ w.session.files)
          × (w'.committed.shards ≡ w.session.shards)
          × (w'.committed.nodes ≡ w.session.nodes)
  unfolding create_link record_event
  create_link-keeps settings file_id ttl now w link expires e =
      let checked = ttl_in_range settings ttl >>= (λ _. owned_file user file_id w.session) in
      elim (Result-cases checked) [
        | inr (error, c) ↦ absurd (not_ok (rw (c, create_link) at e))
        | inl (f, c) ↦ rw (c, create_link) (refl, refl, refl, refl)
      ]
