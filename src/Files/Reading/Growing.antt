-- ===== src/Files/Reading/Growing.antt =====
-- What one batch of reads adds to the blocks of `fetch_blocks` of api_service/services/files.py.

use secure_file_system.Base.Dict
use secure_file_system.Base.{
  ℕ, ◌+◌, ◌≤◌, ◌≡◌, refl, ◌≢◌, inl, inr, Bool, true, List, [], ◌∷◌, ◌++◌, arith, ◌!=◌, list_eq,
  nat_eq, Bool-cases, Result, ok, err, ok-eq, not_ok,
}
use secure_file_system.Base.Dict.{Dict}
use secure_file_system.Base.Lists.{length, All, All-implies, IsDistinct}
use secure_file_system.Base.Text.{Text, Bytes}
use secure_file_system.Files.{FilesError, sha256_hex}
use secure_file_system.Files.Reading.{Placed, add_block, add_blocks, get_placed}
use secure_file_system.Files.Reading.Fetching.{
  length-put_of_absent, indices, IsCollected, IsCollected-put, worth, count_good, Fits, IsCandidate,
}
use secure_file_system.Network.{Network, World, gather, gather-preserves}
use secure_file_system.NodeClient.{
  other_exception, NodeFailure, node_error, shard_missing, shard_corrupt,
}
use secure_file_system.Python.Hashlib.{Hashlib}

module _ (net : Network) (h : Hashlib) (token : Text) (holds : net.State → Type 0)
    (share : ℕ → Bytes) (n : ℕ) (good : Placed → Bool) where
  abbrev pub AllFit : List Placed → List (Result NodeFailure Bytes) → Type 0
  AllFit [] [] = Unit {0}
  AllFit (p ∷ ps) (r ∷ rs) = Fits net h token share good p r × AllFit ps rs
  AllFit _ _ = ⊥

  pub gather-AllFit :
      (ps : List Placed) (w : World net)
      → All (IsCandidate net h token holds share n good) ps
      → holds w.network
      → AllFit ps (gather (get_placed net h token) ps w).0
  unfolding gather
  gather-AllFit [] w c s = tt
  gather-AllFit (p ∷ ps) w c s =
      (c.0.replies w s, gather-AllFit ps (get_placed net h token p w).1 c.1 (c.0.keeps w s))

  pub gather-holds :
      (ps : List Placed) (w : World net)
      → All (IsCandidate net h token holds share n good) ps
      → holds w.network
      → holds (gather (get_placed net h token) ps w).1.network
  gather-holds ps w c s =
      gather-preserves (λ v. holds v.network) (get_placed net h token) ps
        (All-implies ps (λ p (d : IsCandidate net h token holds share n good p). d.keeps) c) w s

  -- What is collected after a read, or after many, and how much at least.
  pub record Grown (rest : List Placed) (least : ℕ) (result : Result FilesError (Dict ℕ Bytes))
      : Type 0 where
    pub blocks : Dict ℕ Bytes
    pub returned : result ≡ ok blocks
    pub collected : IsCollected share n rest blocks
    pub enough : least ≤ length blocks

  worth-zero : (p : Placed) → (good p ≡ true → ⊥) → worth good p ≡ 0
  worth-zero p bad = elim (Bool-cases (good p)) [ inl e ↦ absurd (bad e) | inr e ↦ rw e refl ]

  worth-le : (p : Placed) → worth good p ≤ 1
  worth-le p = ground arith

  -- A read that adds nothing was not one of a good candidate.
  Grown-skip :
      (p : Placed) (rest : List Placed) (d : Dict ℕ Bytes)
      → (good p ≡ true → ⊥)
      → IsCollected share n (p ∷ rest) d
      → Grown rest (length d + worth good p) (ok d)
  Grown-skip p rest d bad c = record {
    blocks = d;
    returned = refl;
    collected = record { distinct = c.distinct; shares = c.shares; absent = c.absent.1 };
    enough = omega (arith, worth-zero p bad);
  }

  refused-bad :
      (p : Placed) (b : Bytes)
      → IsCandidate net h token holds share n good p
      → Fits net h token share good p (ok b)
      → (sha256_hex h b != p.0.checksum_sha256) ≡ true
      → good p ≡ true
      → ⊥
  refused-bad p b cand fit e g =
      let same : b ≡ share p.0.shard_index = ok-eq (ok b) refl (fit.served g) in
      let agrees : sha256_hex h b ≡ p.0.checksum_sha256 = rw same cand.matches in
      ground (arith, agrees, e)

  add_block-Grown :
      (p : Placed) (r : Result NodeFailure Bytes) (rest : List Placed) (d : Dict ℕ Bytes)
      → IsCandidate net h token holds share n good p
      → Fits net h token share good p r
      → All (λ j. j ≢ p.0.shard_index) (indices rest)
      → IsCollected share n (p ∷ rest) d
      → Grown rest (length d + worth good p) (add_block net h token p.0 r d)
  unfolding add_block
  add_block-Grown p (ok b) rest d cand fit others c =
      elim (Bool-cases (sha256_hex h b != p.0.checksum_sha256)) [
        | inl e ↦ rw e (Grown-skip p rest d (refused-bad p b cand fit e) c)
        | inr e ↦ rw e (record {
          blocks = Dict.put p.0.shard_index b d;
          returned = refl;
          collected =
              IsCollected-put share n p rest d b cand.low (fit.honest b refl (ground arith)) others
                c;
          enough = omega (arith, length-put_of_absent p.0.shard_index b d c.absent.0, worth-le p);
        })
      ]
  add_block-Grown p (err other_exception) rest d cand fit others c = absurd (fit.no_exception refl)
  add_block-Grown p (err node_error) rest d cand fit others c =
      Grown-skip p rest d (λ g. not_ok (fit.served g)) c
  add_block-Grown p (err shard_missing) rest d cand fit others c =
      Grown-skip p rest d (λ g. not_ok (fit.served g)) c
  add_block-Grown p (err shard_corrupt) rest d cand fit others c =
      Grown-skip p rest d (λ g. not_ok (fit.served g)) c

  pub add_blocks-Grown :
      (batch rest : List Placed) (rs : List (Result NodeFailure Bytes)) (d : Dict ℕ Bytes)
      → All (IsCandidate net h token holds share n good) batch
      → AllFit batch rs
      → IsDistinct (indices (batch ++ rest))
      → IsCollected share n (batch ++ rest) d
      → Grown rest (length d + count_good good batch) (add_blocks net h token batch rs d)
  unfolding add_blocks
  add_blocks-Grown [] rest [] d cand fits apart c = record {
    blocks = d;
    returned = refl;
    collected = c;
    enough = omega arith;
  }
  add_blocks-Grown [] rest (r ∷ rs) d cand fits apart c = absurd fits
  add_blocks-Grown (p ∷ ps) rest [] d cand fits apart c = absurd fits
  add_blocks-Grown (p ∷ ps) rest (r ∷ rs) d cand fits apart c =
      let first = add_block-Grown p r (ps ++ rest) d cand.0 fits.0 apart.0 c in
      let later = add_blocks-Grown ps rest rs first.blocks cand.1 fits.1 apart.1 first.collected in
      record {
        blocks = later.blocks;
        returned = rw first.returned later.returned;
        collected = later.collected;
        enough = omega (arith, first.enough, later.enough);
      }
