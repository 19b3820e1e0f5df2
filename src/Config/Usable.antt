-- ===== src/Config/Usable.antt =====
-- The settings that api_service/config.py accepts, and their key ring.
use secure_file_system.Base.Dict
use secure_file_system.Base.{
  ◌+◌, ◌≤◌, ◌≡◌, refl, sym, inl, inr, true, false, not, ◌||◌, Option, none, some, List, [], ◌∷◌,
  map, arith, ◌==◌, list_eq, nat_eq, ltb, if◌then◌else◌, Bool-cases, ok, err, ok-eq, not_ok,
  >>=-eq-ok,
}
use secure_file_system.Base.Dict.{Dict, get-put}
use secure_file_system.Base.Lists.{length, keep, All}
use secure_file_system.Base.Text.{Text}
use secure_file_system.Config.{
  max_total_shards, min_secret_length, Settings, key_id_reappears, is_key_id, field_bounds,
  non_empty, is_some, add_entry, add_entries, parse_key_list, signing_keys, check_ranges,
}
use secure_file_system.Python.Strings.{partition, split, strip}
use secure_file_system.Python.Unicode.{Unicode}
use secure_file_system.RateLimit.Eviction.{held}

-- One entry of the list, "kid:key": its key stands under its id, which has the pattern, and is long
-- enough.
abbrev pub IsListed : Dict Text Text → Text → Type 0
IsListed keys entry =
    let (kid, (sep, key)) = partition 58 entry in
    (Dict.get kid keys ≡ some key) × (is_key_id kid ≡ true) × (min_secret_length ≤ length key)

-- All keys of the first are those of the second.
abbrev Within : Dict Text Text → Dict Text Text → Type 0
Within keys keys' = (kid key : Text) → Dict.get kid keys ≡ some key → Dict.get kid keys' ≡ some key

absent_present {ℓ} : {A : Type ℓ} (o : Option A) {a : A} → o ≡ none → o ≡ some a → ⊥
absent_present o e f = cc

put-Within :
    (kid key : Text) (keys : Dict Text Text)
    → Dict.get kid keys ≡ none
    → Within keys (Dict.put kid key keys)
put-Within kid key keys fresh other value held = elim (Bool-cases (other == kid)) [
  | inl e ↦
      let same : other ≡ kid = ground (arith, e) in
      let missing : Dict.get other keys ≡ none = rw same fresh in
      absurd (absent_present (Dict.get other keys) missing held)
  | inr e ↦ rw (get-put other kid key keys, e) held
]

not_there : (o : Option Text) → is_some o ≡ false → o ≡ none
unfolding is_some
not_there none e = refl
not_there (some key) e = cc

add_entry-IsListed :
    (entry : Text) (keys keys' : Dict Text Text)
    → add_entry entry keys ≡ ok keys'
    → IsListed keys' entry × Within keys keys'
unfolding add_entry
add_entry-IsListed entry keys keys' e =
    let kid = (partition 58 entry).0 in
    let sep = (partition 58 entry).1.0 in
    let key = (partition 58 entry).1.1 in
    let bad = not sep || (not (is_key_id kid) || ltb (length key) min_secret_length) in
    elim (Bool-cases bad) [
      | inl b ↦ absurd (not_ok (rw b at e))
      | inr b ↦ elim (Bool-cases (is_some (Dict.get kid keys))) [
        | inl d ↦ absurd (not_ok (rw (b, d) at e))
        | inr d ↦
            let same : Dict.put kid key keys ≡ keys' = ok-eq (ok _) refl (rw (b, d) at e) in
            rw (sym same) (
              (ground (arith, get-put kid kid key keys), ground (arith, b), ground (arith, b)),
              put-Within kid key keys (not_there (Dict.get kid keys) d),
            )
      ]
    ]

add_entries-IsListed :
    (entries : List Text) (keys keys' : Dict Text Text)
    → add_entries entries keys ≡ ok keys'
    → All (IsListed keys') entries × Within keys keys'
unfolding add_entries
add_entries-IsListed [] keys keys' e = (tt, λ kid key held. rw (sym (ok-eq (ok keys) refl e)) held)
add_entries-IsListed (entry ∷ rest) keys keys' e =
    let (added, one, e') = >>=-eq-ok (add_entry entry keys) (add_entries rest) e in
    let (listed, within) = add_entry-IsListed entry keys added one in
    let (others, within') = add_entries-IsListed rest added keys' e' in
    (
      ((within' _ _ listed.0, listed.1, listed.2), others),
      λ kid key held. within' kid key (within kid key held),
    )

Within-IsListed :
    (keys keys' : Dict Text Text) (entries : List Text)
    → Within keys keys'
    → All (IsListed keys) entries
    → All (IsListed keys') entries
Within-IsListed keys keys' [] within listed = tt
Within-IsListed keys keys' (entry ∷ rest) within (one, others) =
    ((within _ _ one.0, one.1, one.2), Within-IsListed keys keys' rest within others)

-- The entries of `previous_secret_keys`.
abbrev pub listed_keys : Unicode → Settings → List Text
listed_keys u s = keep non_empty (map (strip u.is_space) (split 44 s.previous_secret_keys))

-- What the service can rely on once the settings are checked.
pub record IsUsable (u : Unicode) (s : Settings) : Type 0 where
  pub some_data : 1 ≤ s.shard_data_count
  pub some_parity : 1 ≤ s.shard_parity_count
  pub codable : s.shard_data_count + s.shard_parity_count ≤ max_total_shards
  pub some_time : 1 ≤ s.min_ttl_seconds
  pub ordered : s.min_ttl_seconds ≤ s.max_ttl_seconds
  pub ring : Dict Text Text
  pub assembled : signing_keys u s ≡ ok ring
  pub current : Dict.get s.secret_key_id ring ≡ some s.secret_key
  pub named : is_key_id s.secret_key_id ≡ true
  pub long_enough : min_secret_length ≤ length s.secret_key
  pub retired : All (IsListed ring) (listed_keys u s)

checked :
    (s s' : Settings) (keys : Dict Text Text)
    → (if is_some (Dict.get s.secret_key_id keys) then err key_id_reappears else ok s) ≡ ok s'
    → Dict.get s.secret_key_id keys ≡ none
checked s s' keys e = elim (Bool-cases (is_some (Dict.get s.secret_key_id keys))) [
  | inl n ↦ absurd (not_ok (rw n at e))
  | inr n ↦ not_there (Dict.get s.secret_key_id keys) n
]

-- Settings whose fields are within pydantic's bounds and that pass `_check_ranges` have one primary
-- block and one secondary block at least and 256 blocks at most, lifetimes in order, and a key ring
-- that holds the current key under its id and the key of every entry of `previous_secret_keys` under
-- the id of that entry, each id of the pattern and each key long enough.
pub check_ranges-IsUsable :
    (u : Unicode) (s s' : Settings)
    → field_bounds s ≡ true
    → check_ranges u s ≡ ok s'
    → IsUsable u s
unfolding field_bounds check_ranges signing_keys parse_key_list
check_ranges-IsUsable u s s' bounds e =
    elim (Bool-cases (ltb max_total_shards (s.shard_data_count + s.shard_parity_count))) [
      | inl a ↦ absurd (not_ok (rw a at e))
      | inr a ↦ elim (Bool-cases (ltb s.max_ttl_seconds s.min_ttl_seconds)) [
        | inl b ↦ absurd (not_ok (rw (a, b) at e))
        | inr b ↦
            let (keys, parsed, rest) =
              >>=-eq-ok (parse_key_list u s.previous_secret_keys) _ (rw (a, b) at e) in
            let fresh = checked s s' keys rest in
            let ring = Dict.put s.secret_key_id s.secret_key keys in
            record {
              some_data = ground (arith, bounds);
              some_parity = ground (arith, bounds);
              codable = ground (arith, a);
              some_time = ground (arith, bounds);
              ordered = ground (arith, b);
              ring = ring;
              assembled = rw parsed refl;
              current = ground (arith, get-put s.secret_key_id s.secret_key_id s.secret_key keys);
              named = ground (arith, bounds);
              long_enough = ground (arith, bounds);
              retired =
                  Within-IsListed keys ring (listed_keys u s)
                    (put-Within s.secret_key_id s.secret_key keys fresh)
                    (add_entries-IsListed (listed_keys u s) [] keys parsed).0;
            }
      ]
    ]
