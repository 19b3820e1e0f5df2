-- ===== src/Signing/Verify.antt =====
-- Which links `verify` accepts, and that `sign` makes such.
use secure_file_system.Base.Dict
use secure_file_system.Base.{
  ℕ, ◌<◌, ◌≡◌, refl, ap, ◌∙◌, ◌≢◌, ◌↔◌, true, Option, none, some, arith, list_eq, nat_eq, leb,
  if◌then◌else◌, ok, err, Done, >>=-eq-ok,
}
use secure_file_system.Base.Dict.{Dict}
use secure_file_system.Base.Lists.{All}
use secure_file_system.Base.Text.{Text}
use secure_file_system.Python.Base64.{unpadded_b64-ascii}
use secure_file_system.Python.Hashlib.{Hashlib, IsHashlib}
use secure_file_system.Python.Unicode.{Unicode}
use secure_file_system.Python.Utf8.{utf8-eq_ascii}
use secure_file_system.Python.Uuid.{uuid_text, uuid_of}
use secure_file_system.Signing.{
  bad_signature, expired, LinkClaims, is_number, number, Link, sign, checked, verify, present,
  known, parsed, well_formed,
}

sign-ascii :
    (h : Hashlib) (key kid : Text) (file_id expires version : ℕ)
    → IsHashlib h
    → All (λ c. c < 128) (sign h key kid file_id expires version)
unfolding sign
sign-ascii h key kid f x v laws = unpadded_b64-ascii _ (laws.hmac_bytes _ _)

checked-ok :
    (h : Hashlib) (key kid sig : Text) (f x v now : ℕ) (c : LinkClaims)
    → IsHashlib h
    → checked h key kid sig f x v now ≡ ok c
    → (sig ≡ sign h key kid f x v)
      × (now < x)
      × (c ≡ record { file_id = f; expires = x; link_version = v; kid = kid })
unfolding checked
checked-ok h key kid sig f x v now c laws e =
    ground (arith, utf8-eq_ascii sig (sign h key kid f x v) (sign-ascii h key kid f x v laws))

checked-bad :
    (h : Hashlib) (key kid sig : Text) (f x v now : ℕ)
    → IsHashlib h
    → sig ≢ sign h key kid f x v
    → checked h key kid sig f x v now ≡ err bad_signature
unfolding checked
checked-bad h key kid sig f x v now laws differ =
    ground (arith, utf8-eq_ascii sig (sign h key kid f x v) (sign-ascii h key kid f x v laws))

pub checked-signed :
    (h : Hashlib) (key kid : Text) (f x v now : ℕ)
    → checked h key kid (sign h key kid f x v) f x v now ≡ (
        if leb x now
        then err expired
        else ok (record { file_id = f; expires = x; link_version = v; kid = kid }))
unfolding checked
checked-signed h key kid f x v now = ground arith

parsed_iff :
    (u : Unicode) (s : Text) (id : ℕ)
    → (parsed u s ≡ ok id) ↔ ((uuid_of u s ≡ some id) × (uuid_text id ≡ u.lower s))
unfolding parsed
parsed_iff u s id = ground arith

present-ok : (o : Option Text) (s : Text) → present o ≡ ok s → o ≡ some s
unfolding present
present-ok none s e = cc
present-ok (some t) s e = ground arith

known-ok : (o : Option Text) (s : Text) → known o ≡ ok s → o ≡ some s
unfolding known
known-ok none s e = cc
known-ok (some t) s e = ground arith

well_formed-ok :
    (exp v : Text) (t : Done)
    → well_formed exp v ≡ ok t
    → (is_number exp ≡ true) × (is_number v ≡ true)
unfolding well_formed
well_formed-ok exp v t e = ground arith

-- The fields of a link that passed every check up to the signature.
pub record IsComplete (u : Unicode) (keys : Dict Text Text) (link : Link) (c : LinkClaims)
    : Type 0 where
  pub exp : Text
  pub v : Text
  pub key : Text
  pub sig : Text
  pub exp_given : link.exp ≡ some exp
  pub exp_number : is_number exp ≡ true
  pub exp_value : number u exp ≡ c.expires
  pub v_given : link.v ≡ some v
  pub v_number : is_number v ≡ true
  pub v_value : number u v ≡ c.link_version
  pub kid_given : link.kid ≡ some c.kid
  pub key_known : Dict.get c.kid keys ≡ some key
  pub id_given : uuid_of u link.file_id ≡ some c.file_id
  pub id_canonical : uuid_text c.file_id ≡ u.lower link.file_id
  pub sig_given : link.sig ≡ some sig

pub verify-of_complete :
    (h : Hashlib) (u : Unicode) (keys : Dict Text Text) (link : Link) (now : ℕ) (c : LinkClaims)
    → (g : IsComplete u keys link c)
    → verify h u keys link now ≡ checked h g.key c.kid g.sig c.file_id c.expires c.link_version now
unfolding verify
verify-of_complete h u keys link now c g = ground (
  arith, g.exp_given, g.exp_number, g.v_given, g.v_number, g.kid_given, g.key_known, g.id_given,
  g.id_canonical, g.sig_given,
)

-- All that a link must be to be accepted: complete, signed with the key that it names, for the
-- fields that it carries, and not expired.
pub record IsGenuine (h : Hashlib) (u : Unicode) (keys : Dict Text Text) (link : Link) (now : ℕ)
    (c : LinkClaims) : Type 0 where
  pub complete : IsComplete u keys link c
  pub signed : complete.sig ≡ sign h complete.key c.kid c.file_id c.expires c.link_version
  pub not_expired : now < c.expires

-- A link that `verify` accepts is genuine: every field is there and well-formed, the file id is
-- canonical, the key id known, the signature the one that `sign` makes with that key for those
-- fields, and the expiry later than now.
pub verify-IsGenuine :
    (h : Hashlib) (u : Unicode) (keys : Dict Text Text) (link : Link) (now : ℕ) (c : LinkClaims)
    → IsHashlib h
    → verify h u keys link now ≡ ok c
    → IsGenuine h u keys link now c
unfolding verify
verify-IsGenuine h u keys link now c laws e =
    let (exp, e1, k1) = >>=-eq-ok (present link.exp) _ e in
    let (v, e2, k2) = >>=-eq-ok (present link.v) _ k1 in
    let (kid, e3, k3) = >>=-eq-ok (present link.kid) _ k2 in
    let (sig, e4, k4) = >>=-eq-ok (present link.sig) _ k3 in
    let (t, e5, k5) = >>=-eq-ok (well_formed exp v) _ k4 in
    let (key, e6, k6) = >>=-eq-ok (known (Dict.get kid keys)) _ k5 in
    let (id, e7, k7) = >>=-eq-ok (parsed u link.file_id) _ k6 in
    let (signed, live, same) =
      checked-ok h key kid sig id (number u exp) (number u v) now c laws k7 in
    let (is_exp, is_v) = well_formed-ok exp v t e5 in
    let (given, canonical) = (parsed_iff u link.file_id id).0 e7 in
    rw same (record {
      complete = record {
        exp = exp;
        v = v;
        key = key;
        sig = sig;
        exp_given = present-ok link.exp exp e1;
        exp_number = is_exp;
        exp_value = refl;
        v_given = present-ok link.v v e2;
        v_number = is_v;
        v_value = refl;
        kid_given = present-ok link.kid kid e3;
        key_known = known-ok (Dict.get kid keys) key e6;
        id_given = given;
        id_canonical = canonical;
        sig_given = present-ok link.sig sig e4;
      };
      signed = signed;
      not_expired = live;
    })

-- A genuine link is accepted, and its claims are returned.
pub IsGenuine-verify :
    (h : Hashlib) (u : Unicode) (keys : Dict Text Text) (link : Link) (now : ℕ) (c : LinkClaims)
    → IsGenuine h u keys link now c
    → verify h u keys link now ≡ ok c
IsGenuine-verify h u keys link now c g =
    verify-of_complete h u keys link now c g.complete
    ∙ ap (λ s. checked h g.complete.key c.kid s c.file_id c.expires c.link_version now) g.signed
    ∙ checked-signed h g.complete.key c.kid c.file_id c.expires c.link_version now
    ∙ ground arith

-- `verify` accepts exactly the genuine links, and returns their claims.
pub verify_iff_IsGenuine :
    (h : Hashlib) (u : Unicode) (keys : Dict Text Text) (link : Link) (now : ℕ) (c : LinkClaims)
    → IsHashlib h
    → (verify h u keys link now ≡ ok c) ↔ IsGenuine h u keys link now c
verify_iff_IsGenuine h u keys link now c laws =
    (verify-IsGenuine h u keys link now c laws, IsGenuine-verify h u keys link now c)

-- A complete link whose signature is not the right one is refused for the signature, also where it
-- has expired: the signature is compared first.
pub verify-bad_signature :
    (h : Hashlib) (u : Unicode) (keys : Dict Text Text) (link : Link) (now : ℕ) (c : LinkClaims)
    → IsHashlib h
    → (g : IsComplete u keys link c) → g.sig ≢ sign h g.key c.kid c.file_id c.expires c.link_version
    → verify h u keys link now ≡ err bad_signature
verify-bad_signature h u keys link now c laws g differ =
    verify-of_complete h u keys link now c g
    ∙ checked-bad h g.key c.kid g.sig c.file_id c.expires c.link_version now laws differ
