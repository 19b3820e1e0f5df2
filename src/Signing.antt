-- ===== src/Signing.antt =====
-- api_service/services/signing.py: stateless download links. A link carries the text of each field;
-- a key ring is a dictionary from key ids to keys.
pub mod Payload
pub mod Verify
pub mod Issue
use secure_file_system.Base.Dict
use secure_file_system.Base.{
  ℕ, Bool, not, ◌&&◌, ◌||◌, Option, none, some, ◌∷◌, ◌++◌, ◌!=◌, list_eq, nat_eq, ltb, leb,
  if◌then◌else◌, Result, ok, err, Done, ◌>>=◌,
}
use secure_file_system.Base.Dict.{Dict}
use secure_file_system.Base.Lists.{length, all}
use secure_file_system.Base.Text.{Text, Bytes, codes}
use secure_file_system.Python.Base64.{unpadded_b64}
use secure_file_system.Python.Decimal.{int_digits, decimal}
use secure_file_system.Python.Hashlib.{Hashlib}
use secure_file_system.Python.Unicode.{Unicode, ascii_digit}
use secure_file_system.Python.Utf8.{utf8}
use secure_file_system.Python.Uuid.{uuid_text, uuid_of}

-- InvalidLinkError, by its message
pub data InvalidLink : Type 0 where
  missing_parameter malformed_parameter unknown_key malformed_file_id : InvalidLink
  non_canonical_file_id bad_signature expired : InvalidLink

pub record LinkClaims : Type 0 where
  pub file_id : ℕ
  pub expires : ℕ
  pub link_version : ℕ
  pub kid : Text

abbrev pub payload_prefix : Text
payload_prefix = codes "sfs-download-v1"

-- The five fields, each on a line.
payload_text : Text → ℕ → ℕ → ℕ → Text
payload_text kid file_id expires link_version =
    payload_prefix
    ++ (10
        ∷ (kid
            ++ (10
                ∷ (uuid_text file_id ++ (10 ∷ (decimal expires ++ (10 ∷ decimal link_version)))))))

unfoldable pub payload : Text → ℕ → ℕ → ℕ → Bytes
unfolding payload_text
payload kid file_id expires link_version = utf8 (payload_text kid file_id expires link_version)

-- `[0-9]{1,12}` for the whole text
unfoldable pub is_number : Text → Bool
is_number s = ltb 0 (length s) && leb (length s) 12 && all ascii_digit s

-- `int` of a text that `is_number` accepts
unfoldable pub number : Unicode → Text → ℕ
number u s = elim (int_digits u s) [ none ↦ 0 | some n ↦ n ]

present : Option Text → Result InvalidLink Text
present none = err missing_parameter
present (some s) = ok s

known : Option Text → Result InvalidLink Text
known none = err unknown_key
known (some key) = ok key

parsed : Unicode → Text → Result InvalidLink ℕ
parsed u file_id = elim (uuid_of u file_id) [
  | none ↦ err malformed_file_id
  | some id ↦ if uuid_text id != u.lower file_id then err non_canonical_file_id else ok id
]

well_formed : Text → Text → Result InvalidLink Done
well_formed exp v =
    if not (is_number exp) || not (is_number v) then err malformed_parameter else ok tt

-- What the query string gives; a parameter may be missing.
pub record Link : Type 0 where
  pub file_id : Text
  pub exp : Option Text
  pub v : Option Text
  pub kid : Option Text
  pub sig : Option Text

module _ (h : Hashlib) where
  unfoldable pub sign : Text → Text → ℕ → ℕ → ℕ → Text
  sign key kid file_id expires link_version =
      unpadded_b64 (h.hmac_sha256 (utf8 key) (payload kid file_id expires link_version))

  -- From the comparison of the signatures on.
  pub checked : Text → Text → Text → ℕ → ℕ → ℕ → ℕ → Result InvalidLink LinkClaims
  checked key kid sig parsed_id expires link_version now =
      if utf8 sig != utf8 (sign key kid parsed_id expires link_version)
      then err bad_signature
      else if leb expires now
      then err expired
      else ok (record {
        file_id = parsed_id;
        expires = expires;
        link_version = link_version;
        kid = kid;
      })

  unfoldable pub verify : Unicode → Dict Text Text → Link → ℕ → Result InvalidLink LinkClaims
  unfolding checked number present known parsed well_formed
  verify u keys link now = do
    exp ← present link.exp
    v ← present link.v
    kid ← present link.kid
    sig ← present link.sig
    _ ← well_formed exp v
    key ← known (Dict.get kid keys)
    parsed_id ← parsed u link.file_id
    checked key kid sig parsed_id (number u exp) (number u v) now
