-- ===== src/Files/Reading/Digest.antt =====
-- The session and the digest in the reads of api_service/services/files.py.
use secure_file_system.NodeClient
use secure_file_system.Base.{
  ℕ, zero, suc, ◌-◌, ◌≡◌, refl, sym, ◌∙◌, inl, inr, List, [], ◌∷◌, arith, ◌!=◌, list_eq, nat_eq,
  ltb, leb, Bool-cases, ok, Result-cases, ok-eq, not_ok, >>=-eq-ok,
}
use secure_file_system.Base.Dict.{Dict}
use secure_file_system.Base.Lists.{length, take, drop}
use secure_file_system.Base.Text.{Text, Bytes}
use secure_file_system.Database.{File}
use secure_file_system.Erasure.{decode}
use secure_file_system.Erasure.Codec.{Zfec}
use secure_file_system.Files.{coded, sha256_hex}
use secure_file_system.Files.Reading.{
  Placed, shard_candidates, add_blocks, get_placed, fetch_more, fetch_blocks, assembled, read_file,
}
use secure_file_system.Network.{Network, World, gather}
use secure_file_system.NodeClient.{send}
use secure_file_system.Python.Hashlib.{Hashlib}

module _ (net : Network) (h : Hashlib) (token : Text) where
  session-gather_get :
      (ps : List Placed) (w : World net)
      → (gather (get_placed net h token) ps w).1.session ≡ w.session
  unfolding gather get_placed NodeClient.get_shard NodeClient.send
  session-gather_get [] w = refl
  session-gather_get (p ∷ ps) w = session-gather_get ps (get_placed net h token p w).1

  session-fetch_more :
      (fuel k : ℕ) (ps : List Placed) (d : Dict ℕ Bytes) (w : World net)
      → (fetch_more net h token fuel k ps d w).1.session ≡ w.session
  unfolding fetch_more
  session-fetch_more zero k ps d w = refl
  session-fetch_more (suc fuel) k [] d w = refl
  session-fetch_more (suc fuel) k (p ∷ ps) d w =
      let batch = take (k - length d) (p ∷ ps) in
      let after = gather (get_placed net h token) batch w in
      let same = session-gather_get batch w in
      elim (Bool-cases (leb k (length d))) [
        | inl e ↦ rw e refl
        | inr e ↦ elim (Result-cases (add_blocks net h token batch after.0 d)) [
          | inl (d', e') ↦
              rw (e, e')
                (session-fetch_more fuel k (drop (k - length d) (p ∷ ps)) d' after.1 ∙ same)
          | inr (error, e') ↦ rw (e, e') same
        ]
      ]

  assembled-ok :
      (z : Zfec) (file : File) (blocks : Dict ℕ Bytes) (bytes : Bytes)
      → assembled net h token z file blocks ≡ ok bytes
      → sha256_hex h bytes ≡ file.checksum_sha256
  unfolding assembled
  assembled-ok z file blocks bytes e = elim (Bool-cases (ltb (length blocks) file.data_shards)) [
    | inl f ↦ absurd (not_ok (rw f at e))
    | inr f ↦
        let (got, e1, e2) =
          >>=-eq-ok (coded (decode z blocks file.data_shards file.parity_shards file.size_bytes)) _
            (rw f at e) in
        elim (Bool-cases (sha256_hex h got != file.checksum_sha256)) [
          | inl b ↦ absurd (not_ok (rw b at e2))
          | inr b ↦
              let same : got ≡ bytes = ok-eq (ok got) refl (rw b at e2) in
              let agree : sha256_hex h got ≡ file.checksum_sha256 = ground (arith, b) in
              rw (sym same) agree
        ]
  ]

  -- A read changes nothing in the session, and what it returns has the digest of the row.
  pub read_file-ok_digest :
      (z : Zfec) (file : File) (w : World net) (bytes : Bytes)
      → (read_file net h token z file w).0 ≡ ok bytes
      → sha256_hex h bytes ≡ file.checksum_sha256
  unfolding read_file
  read_file-ok_digest z file w bytes e =
      let candidates = shard_candidates file.id [] w.session in
      let (blocks, e1, e2) =
        >>=-eq-ok (fetch_blocks net h token candidates file.data_shards w).0 _ e in
      assembled-ok z file blocks bytes e2

  pub session-read_file :
      (z : Zfec) (file : File) (w : World net)
      → (read_file net h token z file w).1.session ≡ w.session
  unfolding read_file fetch_blocks
  session-read_file z file w =
      let candidates = shard_candidates file.id [] w.session in
      session-fetch_more (length candidates) file.data_shards candidates [] w
