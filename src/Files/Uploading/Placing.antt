-- ===== src/Files/Uploading/Placing.antt =====
-- The placements that an upload of api_service/services/files.py prepares.
use secure_file_system.Base.{
  ℕ, zero, suc, ◌+◌, ◌≤◌, ◌<◌, ◌≡◌, refl, sym, ap, ◌∙◌, ◌≢◌, inl, inr, List, [], ◌∷◌, map, arith,
  ltb, Bool-cases, ok, Result-cases, Returns, Returns-ok, not_ok,
}
use secure_file_system.Base.Lists.{length, All, All-implies, IsDistinct}
use secure_file_system.Base.Text.{Bytes}
use secure_file_system.Database.{StorageNode, Database}
use secure_file_system.Erasure.{primary_blocks, encode}
use secure_file_system.Erasure.Codec.{Zfec, range_from, range}
use secure_file_system.Erasure.RoundTrip.{encode-ok}
use secure_file_system.Files.{coded, sha256_hex, healthy_nodes}
use secure_file_system.Files.Uploading.{Draws, Upload, Placement, prepared, new_shard, place}
use secure_file_system.Python.Hashlib.{Hashlib}

-- One placement: its number is between two bounds, its row describes its block, which is the one of
-- that number, and names its node.
pub record IsPlacement (h : Hashlib) (d : Draws) (block_of : ℕ → Bytes) (low high : ℕ)
    (p : Placement) : Type 0 where
  pub after : low ≤ p.shard.shard_index
  pub below : p.shard.shard_index < high
  pub block : p.block ≡ block_of p.shard.shard_index
  pub checksum : p.shard.checksum_sha256 ≡ sha256_hex h p.block
  pub id : p.shard.id ≡ d.shard_id p.shard.shard_index
  pub size : p.shard.size_bytes ≡ length p.block
  pub file_id : p.shard.file_id ≡ d.file_id
  pub node_id : p.shard.node_id ≡ p.node.id

-- All placements of an upload, on nodes of which something holds.
pub record ArePlacements (h : Hashlib) (d : Draws) (block_of : ℕ → Bytes) (P : StorageNode → Type 0)
    (low count : ℕ) (placed : List Placement) : Type 0 where
  pub each : All (IsPlacement h d block_of low (low + count)) placed
  pub on_nodes : All (λ p. P p.node) placed
  pub apart : IsDistinct (map (λ p. p.shard.shard_index) placed)
  pub size : length placed ≡ count

module _ (h : Hashlib) (d : Draws) (block_of : ℕ → Bytes) where
  IsPlacement-later :
      (low high higher : ℕ) (p : Placement)
      → high ≤ higher
      → IsPlacement h d block_of (suc low) high p
      → IsPlacement h d block_of low higher p
  IsPlacement-later low high higher p more i = record {
    after = omega (arith, i.after);
    below = omega (arith, i.below, more);
    block = i.block;
    checksum = i.checksum;
    id = i.id;
    size = i.size;
    file_id = i.file_id;
    node_id = i.node_id;
  }

  later-apart :
      (low high : ℕ) (placed : List Placement)
      → All (IsPlacement h d block_of (suc low) high) placed
      → All (λ j. j ≢ low) (map (λ p. p.shard.shard_index) placed)
  later-apart low high [] each = tt
  later-apart low high (p ∷ placed) each =
      ((λ e. omega (arith, each.0.after, e)), later-apart low high placed each.1)

  place-ArePlacements :
      (P : StorageNode → Type 0) (k low count : ℕ) (nodes : List StorageNode)
      → All P nodes
      → Returns
          (ArePlacements h d block_of P low count)
          (place h d k low nodes (map block_of (range_from low count)))
  unfolding place new_shard
  place-ArePlacements P k low zero [] on = record {
    each = tt;
    on_nodes = tt;
    apart = tt;
    size = refl;
  }
  place-ArePlacements P k low zero (n ∷ nodes) on = tt
  place-ArePlacements P k low (suc count) [] on = tt
  place-ArePlacements P k low (suc count) (n ∷ nodes) on =
      elim (Result-cases
        (place h d k (suc low) nodes (map block_of (range_from (suc low) count)))) [
          | inr (x, e) ↦ rw e tt
          | inl (rest, e) ↦
              let r = Returns-ok _ _ rest (place-ArePlacements P k (suc low) count nodes on.1) e in
              rw e (record {
                each = (
                  record {
                    after = omega arith;
                    below = omega arith;
                    block = refl;
                    checksum = refl;
                    id = refl;
                    size = refl;
                    file_id = refl;
                    node_id = refl;
                  },
                  All-implies rest
                      (λ p i.
                        IsPlacement-later low (suc low + count) (low + suc count) p (omega arith) i)
                      r.each,
                );
                on_nodes = (on.0, r.on_nodes);
                apart = (later-apart low (suc low + count) rest r.each, r.apart);
                size = ap suc r.size;
              })
        ]

-- The blocks that a file is encoded into.
abbrev pub shares_of : Zfec → Upload → ℕ → Bytes
shares_of z u = z.share u.k (u.k + u.m) (primary_blocks u.bytes u.k)

-- What `prepared` places, whatever it draws as long as the sample is one of the nodes it is given.
pub prepared-ArePlacements :
    (h : Hashlib) (z : Zfec) (d : Draws) (u : Upload) (db : Database) (P : StorageNode → Type 0)
    (placed : List Placement)
    → ((nodes : List StorageNode) (n : ℕ) → All P nodes → All P (d.sample nodes n))
    → All P (healthy_nodes db)
    → prepared h z d u db ≡ ok placed
    → (1 ≤ u.k) × ArePlacements h d (shares_of z u) P 0 (u.k + u.m) placed
unfolding prepared coded
prepared-ArePlacements h z d u db P placed honest on e =
    let few = ltb (length (healthy_nodes db)) (u.k + u.m) in
    let sample = d.sample (healthy_nodes db) (u.k + u.m) in
    elim (Result-cases (encode z u.bytes u.k u.m)) [
      | inr (x, f) ↦ absurd (not_ok (rw (f, coded) at e))
      | inl (blocks, f) ↦
          let (nonzero, same) = encode-ok z u.bytes u.k u.m blocks f in
          elim (Bool-cases few) [
            | inl g ↦ absurd (not_ok (rw (f, coded, g) at e))
            | inr g ↦
                let made : place h d u.k 0 sample (map (shares_of z u) (range (u.k + u.m)))
                    ≡ ok placed =
                  ap (place h d u.k 0 sample) (sym same) ∙ rw (f, coded, g) at e in
                (
                  ground (arith, nonzero),
                  Returns-ok _ _ placed
                      (place-ArePlacements h d (shares_of z u) P u.k 0 (u.k + u.m) sample
                        (honest (healthy_nodes db) (u.k + u.m) on))
                      made,
                )
          ]
    ]
