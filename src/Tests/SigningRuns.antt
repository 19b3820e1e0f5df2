-- ===== src/Tests/SigningRuns.antt =====
-- Links under one key.
use mathlib.Core.Option
use secure_file_system.Base.Dict
use secure_file_system.Base.{
  ℕ, ◌≡◌, refl, ap, ◌≢◌, ◌↔◌, some, [], ◌∷◌, arith, list_eq, nat_eq, leb, if◌then◌else◌, ok, err,
}
use secure_file_system.Base.Dict.{Dict}
use secure_file_system.Base.Lists.{length}
use secure_file_system.Base.Text.{Text, codes}
use secure_file_system.Python.Base64.{unpadded_b64}
use secure_file_system.Python.Decimal.{int_digits, decimal}
use secure_file_system.Python.Hashlib.{Hashlib, sample_hashlib, sample_hashlib-IsHashlib}
use secure_file_system.Python.Hex.{hex_digit, int_16}
use secure_file_system.Python.Strings.{starts_with, remove_from, rstrip, strip}
use secure_file_system.Python.Unicode.{ascii_only, ascii_only-IsUnicode}
use secure_file_system.Python.Utf8.{utf8}
use secure_file_system.Python.Uuid.{uuid_text, uuid_of}
use secure_file_system.Signing.{
  bad_signature, expired, LinkClaims, payload, is_number, number, Link, sign, verify,
}
use secure_file_system.Signing.Issue.{issued_link, verify-issued}
use secure_file_system.Signing.Verify.{
  IsComplete, IsGenuine, verify_iff_IsGenuine, verify-bad_signature,
}

abbrev key : Text
key = codes "0123456789abcdef0123456789abcdef"

abbrev kid : Text
kid = codes "k1"

abbrev ring : Dict Text Text
ring = (kid, key) ∷ []

ring_key : Dict.get kid ring ≡ some key
unfolding Dict.get nat_eq list_eq
ring_key = refl

abbrev h : Hashlib
h = sample_hashlib

payload_run :
    payload kid 5 1700000000 1
    ≡ codes "sfs-download-v1\nk1\n00000000-0000-0000-0000-000000000005\n1700000000\n1"
unfolding payload uuid_text hex_digit decimal utf8
payload_run = refl

abbrev file_id : ℕ
file_id = 5

abbrev expires : ℕ
expires = 1700000000

abbrev version : ℕ
version = 1

abbrev second : ℕ
second = 2

abbrev issued : Link
issued = issued_link h key kid file_id expires version

abbrev issued_claims : LinkClaims
issued_claims = record { file_id = file_id; expires = expires; link_version = version; kid = kid }

verify-issued_example :
    verify h ascii_only ring issued 1600000000
    ≡ (if leb expires 1600000000 then err expired else ok issued_claims)
verify-issued_example =
    verify-issued h ascii_only ring key kid file_id expires version ascii_only-IsUnicode ring_key
      (omega arith) (omega arith) (omega arith) 1600000000

verify_iff_IsGenuine_example :
    (verify h ascii_only ring issued 1600000000 ≡ ok issued_claims)
    ↔ IsGenuine h ascii_only ring issued 1600000000 issued_claims
verify_iff_IsGenuine_example =
    verify_iff_IsGenuine h ascii_only ring issued 1600000000 issued_claims sample_hashlib-IsHashlib

-- The signature is cut off.
abbrev forged : Link
forged = record issued { sig = some (codes "AAAA") }

forged-IsComplete : IsComplete ascii_only ring forged issued_claims
unfolding number is_number int_digits uuid_of uuid_text hex_digit remove_from starts_with strip
    int_16 nat_eq list_eq Option.bind decimal Dict.get
forged-IsComplete = record {
  exp = decimal expires;
  v = decimal version;
  key = key;
  sig = codes "AAAA";
  exp_given = refl;
  exp_number = refl;
  exp_value = refl;
  v_given = refl;
  v_number = refl;
  v_value = refl;
  kid_given = refl;
  key_known = refl;
  id_given = refl;
  id_canonical = refl;
  sig_given = refl;
}

forged_signature : codes "AAAA" ≢ sign h key kid file_id expires version
unfolding sign payload uuid_text hex_digit decimal utf8 unpadded_b64 rstrip nat_eq
forged_signature e = absurd (omega (arith, ap length e))

-- Long after the expiry.
forged_run : verify h ascii_only ring forged 1800000000 ≡ err bad_signature
unfolding forged-IsComplete
forged_run =
    verify-bad_signature h ascii_only ring forged 1800000000 issued_claims sample_hashlib-IsHashlib
      forged-IsComplete forged_signature
