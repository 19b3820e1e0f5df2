-- ===== src/Files/Reading/Fetching.antt =====
-- What `fetch_blocks` of api_service/services/files.py collects.
use mathlib.Core.Path.{subst}
use secure_file_system.Base.Dict
use secure_file_system.Base.{
  ℕ, suc, ◌+◌, ◌<◌, ◌≡◌, refl, ◌≢◌, inl, inr, Bool, true, none, List, [], ◌∷◌, map, arith, ◌==◌,
  list_eq, nat_eq, if◌then◌else◌, Bool-cases, Result, ok, err,
}
use secure_file_system.Base.Dict.{Dict, get-put}
use secure_file_system.Base.Lists.{length, All, IsDistinct}
use secure_file_system.Base.Text.{Text, Bytes}
use secure_file_system.Files.{sha256_hex}
use secure_file_system.Files.Reading.{Placed, get_placed}
use secure_file_system.Network.{Network, World}
use secure_file_system.NodeClient.{other_exception, NodeFailure}
use secure_file_system.Python.Hashlib.{Hashlib}

All-keys_put :
    (P : ℕ → Type 0) (i : ℕ) (b : Bytes) (d : Dict ℕ Bytes)
    → P i
    → All P (map (λ q. q.0) d)
    → All P (map (λ q. q.0) (Dict.put i b d))
unfolding Dict.put
All-keys_put P i b [] h k = (h, tt)
All-keys_put P i b ((j, c) ∷ d) h k = elim (Bool-cases (i == j)) [
  | inl e ↦ rw e k
  | inr e ↦ rw e (k.0, All-keys_put P i b d h k.1)
]

All-put :
    (P : ℕ × Bytes → Type 0) (i : ℕ) (b : Bytes) (d : Dict ℕ Bytes)
    → ((j : ℕ) → (i == j) ≡ true → P (j, b))
    → All P d
    → All P (Dict.put i b d)
unfolding Dict.put
All-put P i b [] h k = (h i (ground arith), tt)
All-put P i b ((j, c) ∷ d) h k = elim (Bool-cases (i == j)) [
  | inl e ↦ rw e (h j e, k.1)
  | inr e ↦ rw e (k.0, All-put P i b d h k.1)
]

put-IsDistinct :
    (i : ℕ) (b : Bytes) (d : Dict ℕ Bytes)
    → IsDistinct (map (λ q. q.0) d)
    → IsDistinct (map (λ q. q.0) (Dict.put i b d))
unfolding Dict.put
put-IsDistinct i b [] h = (tt, tt)
put-IsDistinct i b ((j, c) ∷ d) h = elim (Bool-cases (i == j)) [
  | inl e ↦ rw e h
  | inr e ↦ rw e (All-keys_put (λ y. y ≢ j) i b d (ground arith) h.0, put-IsDistinct i b d h.1)
]

pub length-put_of_absent :
    (i : ℕ) (b : Bytes) (d : Dict ℕ Bytes)
    → Dict.get i d ≡ none
    → length (Dict.put i b d) ≡ suc (length d)
unfolding Dict.put Dict.get
length-put_of_absent i b [] h = refl
length-put_of_absent i b ((j, c) ∷ d) h = ground (arith, length-put_of_absent i b d)

-- The numbers of the shards.
abbrev pub indices : List Placed → List ℕ
indices = map (λ p. p.0.shard_index)

-- The blocks read so far are the file's, each once, and none is of a candidate to come.
pub record IsCollected (share : ℕ → Bytes) (n : ℕ) (rest : List Placed) (collected : Dict ℕ Bytes)
    : Type 0 where
  pub distinct : IsDistinct (map (λ q. q.0) collected)
  pub shares : All (λ q. (q.0 < n) × (q.1 ≡ share q.0)) collected
  pub absent : All (λ p. Dict.get p.0.shard_index collected ≡ none) rest

absent-put :
    (i : ℕ) (b : Bytes) (d : Dict ℕ Bytes) (rest : List Placed)
    → All (λ j. j ≢ i) (indices rest)
    → All (λ p. Dict.get p.0.shard_index d ≡ none) rest
    → All (λ p. Dict.get p.0.shard_index (Dict.put i b d) ≡ none) rest
absent-put i b d [] h k = tt
absent-put i b d (p ∷ rest) h k =
    (ground (arith, get-put p.0.shard_index i b d, h.0, k.0), absent-put i b d rest h.1 k.1)

eq-of_test : (i j : ℕ) → (i == j) ≡ true → i ≡ j
eq-of_test i j e = ground arith

-- One more block of the file.
pub IsCollected-put :
    (share : ℕ → Bytes) (n : ℕ) (p : Placed) (rest : List Placed) (d : Dict ℕ Bytes) (b : Bytes)
    → p.0.shard_index < n
    → b ≡ share p.0.shard_index
    → All (λ j. j ≢ p.0.shard_index) (indices rest)
    → IsCollected share n (p ∷ rest) d
    → IsCollected share n rest (Dict.put p.0.shard_index b d)
IsCollected-put share n p rest d b low true_block others c = record {
  distinct = put-IsDistinct p.0.shard_index b d c.distinct;
  shares =
      All-put (λ q. (q.0 < n) × (q.1 ≡ share q.0)) p.0.shard_index b d
        (λ j e.
          subst (λ j. (j < n) × (b ≡ share j)) (eq-of_test p.0.shard_index j e) (low, true_block))
        c.shares;
  absent = absent-put p.0.shard_index b d rest others c.absent.1;
}

pub IsCollected-nil : (share : ℕ → Bytes) (n : ℕ) (rest : List Placed) → IsCollected share n rest []
unfolding Dict.get
IsCollected-nil share n [] = record { distinct = tt; shares = tt; absent = tt }
IsCollected-nil share n (p ∷ rest) = record {
  distinct = tt;
  shares = tt;
  absent = (refl, (IsCollected-nil share n rest).absent);
}

abbrev pub worth : (Placed → Bool) → Placed → ℕ
worth good p = if good p then 1 else 0

-- How many candidates are good.
abbrev pub count_good : (Placed → Bool) → List Placed → ℕ
count_good good [] = 0
count_good good (p ∷ ps) = worth good p + count_good good ps

module _ (net : Network) (h : Hashlib) (token : Text) where
  -- What a read of a candidate may give: an error of a node, a block that its checksum refuses, or
  -- the block of the file, which it is for a good candidate.
  pub record Fits (share : ℕ → Bytes) (good : Placed → Bool) (p : Placed)
      (r : Result NodeFailure Bytes) : Type 0 where
    pub no_exception : r ≢ err other_exception
    pub honest :
        (b : Bytes) → r ≡ ok b → sha256_hex h b ≡ p.0.checksum_sha256 → b ≡ share p.0.shard_index
    pub served : good p ≡ true → r ≡ ok (share p.0.shard_index)

  -- A candidate for a block of the file, whatever the network has seen before, as long as something
  -- holds of its state that the read keeps.
  pub record IsCandidate (holds : net.State → Type 0) (share : ℕ → Bytes) (n : ℕ)
      (good : Placed → Bool) (p : Placed) : Type 0 where
    pub low : p.0.shard_index < n
    pub matches : sha256_hex h (share p.0.shard_index) ≡ p.0.checksum_sha256
    pub replies :
        (w : World net) → holds w.network → Fits share good p (get_placed net h token p w).0
    pub keeps : (w : World net) → holds w.network → holds (get_placed net h token p w).1.network
