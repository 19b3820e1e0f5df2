-- ===== src/Python/Hashlib.antt =====
-- `hashlib.sha256` and `hmac` with it, a parameter of the model: both are Python's. The laws say
-- what is relied on, the size of a digest and that it consists of bytes.
use secure_file_system.Base.{◌%◌, ◌<◌, ◌≡◌, [], ◌∷◌, ◌++◌, map, arith}
use secure_file_system.Base.Lists.{
  length, take, replicate, All, length-append, length-take, All-append, All-take,
}
use secure_file_system.Base.Text.{Bytes}

pub record Hashlib : Type 0 where
  pub sha256 : Bytes → Bytes
  -- key, then message
  pub hmac_sha256 : Bytes → Bytes → Bytes

pub record IsHashlib (h : Hashlib) : Type 0 where
  pub digest_size : (d : Bytes) → length (h.sha256 d) ≡ 32
  pub hmac_size : (k d : Bytes) → length (h.hmac_sha256 k d) ≡ 32
  pub hmac_bytes : (k d : Bytes) → All (λ b. b < 256) (h.hmac_sha256 k d)

-- The first 32 bytes, padded: digests of the right size.
abbrev pub padded : Bytes → Bytes
padded d = take 32 (map (λ b. b % 256) d ++ replicate 32 0)

abbrev pub sample_hashlib : Hashlib
sample_hashlib = record { sha256 = padded; hmac_sha256 = λ k d. padded (d ++ k) }

length-padded : (d : Bytes) → length (padded d) ≡ 32
length-padded d = omega (
  arith,
  length-take 32 (map (λ b. b % 256) d ++ replicate 32 0),
  length-append (map (λ b. b % 256) d) (replicate 32 0),
)

All-mod : (d : Bytes) → All (λ b. b < 256) (map (λ b. b % 256) d)
All-mod [] = tt
All-mod (b ∷ d) = (omega arith, All-mod d)

padded-bytes : (d : Bytes) → All (λ b. b < 256) (padded d)
padded-bytes d =
    All-take (λ b. b < 256) 32 (map (λ b. b % 256) d ++ replicate 32 0)
      (All-append (λ b. b < 256) (map (λ b. b % 256) d) (replicate 32 0) (All-mod d) (omega arith))

pub sample_hashlib-IsHashlib : IsHashlib sample_hashlib
sample_hashlib-IsHashlib = record {
  digest_size = length-padded;
  hmac_size = λ k d. length-padded (d ++ k);
  hmac_bytes = λ k d. padded-bytes (d ++ k);
}
