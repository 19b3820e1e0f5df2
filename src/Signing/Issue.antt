-- ===== src/Signing/Issue.antt =====
-- The links that the API service gives out, and what becomes of them.
use secure_file_system.Base.Dict
use secure_file_system.Base.{
  ℕ, ◌<◌, ◌≡◌, refl, sym, ◌∙◌, true, some, [], ◌∷◌, arith, list_eq, nat_eq, leb, if◌then◌else◌, ok,
  err,
}
use secure_file_system.Base.Dict.{Dict}
use secure_file_system.Base.Lists.{all, All}
use secure_file_system.Base.Text.{Text}
use secure_file_system.Python.Decimal.{
  pow10, decimal, decimal-digits, int_digits-decimal, length-decimal, decimal-nonempty,
}
use secure_file_system.Python.Hashlib.{Hashlib}
use secure_file_system.Python.Hex.{pow16}
use secure_file_system.Python.Unicode.{Unicode, ascii_digit, IsUnicode}
use secure_file_system.Python.Uuid.{uuid_text, uuid_of-uuid_text, lower-uuid_text}
use secure_file_system.Signing.{expired, LinkClaims, is_number, number, Link, sign, verify}
use secure_file_system.Signing.Verify.{checked-signed, IsComplete, verify-of_complete}

-- The path and query of the URL that `create_link` of api_service/routers/files.py builds.
abbrev pub issued_link : Hashlib → Text → Text → ℕ → ℕ → ℕ → Link
issued_link h key kid file_id expires link_version = record {
  file_id = uuid_text file_id;
  exp = some (decimal expires);
  v = some (decimal link_version);
  kid = some kid;
  sig = some (sign h key kid file_id expires link_version);
}

decimal-is_number : (n : ℕ) → n < pow10 12 → is_number (decimal n) ≡ true
unfolding is_number
decimal-is_number n h = ground (
  arith,
  decimal-nonempty n,
  length-decimal 12 n h (omega arith),
  all-of_All (decimal n) (decimal-digits n),
)
  where
    all-of_All : (s : Text) → All (λ c. ascii_digit c ≡ true) s → all ascii_digit s ≡ true
    all-of_All [] k = refl
    all-of_All (c ∷ s) k = ground (arith, all-of_All s k.1)

number-decimal : (u : Unicode) (n : ℕ) → n < pow10 12 → number u (decimal n) ≡ n
unfolding number
number-decimal u n h =
    let short = length-decimal 12 n h (omega arith) in
    rw (int_digits-decimal u n (omega (arith, short)), number)

module _ (h : Hashlib) (u : Unicode) (keys : Dict Text Text) (key kid : Text)
    (file_id expires version : ℕ) (tables : IsUnicode u) (known : Dict.get kid keys ≡ some key)
    (is_id : file_id < pow16 32) (is_time : expires < pow10 12)
    (is_version : version < pow10 12) where
  abbrev claims : LinkClaims
  claims = record { file_id = file_id; expires = expires; link_version = version; kid = kid }

  abbrev link : Link
  link = issued_link h key kid file_id expires version

  issued-IsComplete : IsComplete u keys link claims
  issued-IsComplete = record {
    exp = decimal expires;
    v = decimal version;
    key = key;
    sig = sign h key kid file_id expires version;
    exp_given = refl;
    exp_number = decimal-is_number expires is_time;
    exp_value = number-decimal u expires is_time;
    v_given = refl;
    v_number = decimal-is_number version is_version;
    v_value = number-decimal u version is_version;
    kid_given = refl;
    key_known = known;
    id_given = uuid_of-uuid_text u file_id is_id;
    id_canonical = sym (lower-uuid_text u file_id tables);
    sig_given = refl;
  }

  -- An issued link is accepted by every key ring that has its key under its key id, also by one to
  -- which newer keys were added, until its expiry, and from then on refused as expired.
  pub verify-issued :
      (now : ℕ) → verify h u keys link now ≡ (if leb expires now then err expired else ok claims)
  unfolding issued-IsComplete sign
  verify-issued now =
      verify-of_complete h u keys link now claims issued-IsComplete
      ∙ checked-signed h key kid file_id expires version now
