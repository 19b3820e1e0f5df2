-- ===== src/Files/Uploading/Candidates.antt =====
-- The candidates for the reading of a file of api_service/services/files.py that was just uploaded.
use secure_file_system.Base.{
  ℕ, ◌≡◌, refl, ap, ◌∙◌, ◌≢◌, inl, inr, Bool, true, false, some, List, [], ◌∷◌, ◌++◌, map, arith,
  ◌==◌, list_eq, nat_eq, Bool-cases,
}
use secure_file_system.Base.Lists.{
  keep, All, All-implies, All-both, IsDistinct, All-of_map, All-map,
}
use secure_file_system.Base.Text.{Bytes}
use secure_file_system.Database.{
  StorageNode, Shard, Database, is_healthy_status, is_decommissioned, find_node, join_nodes,
  placed_shards,
}
use secure_file_system.Files.{healthy_nodes}
use secure_file_system.Files.Reading.{Placed, before, sort_placed, readable, shard_candidates}
use secure_file_system.Files.Uploading.{Draws, Placement}
use secure_file_system.Files.Uploading.Placing.{ArePlacements}
use secure_file_system.Python.Hashlib.{Hashlib}

abbrev pub row_of : Placement → Placed
row_of p = (p.shard, p.node)

keep-skips {ℓ} :
    {A : Type ℓ} (q : A → Bool) (xs ys : List A)
    → All (λ x. q x ≡ false) xs
    → keep q (xs ++ ys) ≡ keep q ys
keep-skips q [] ys h = refl
keep-skips q (x ∷ xs) ys h = rw (h.0) (keep-skips q xs ys h.1)

keep-of_All {ℓ} :
    {A : Type ℓ} (q : A → Bool) (xs : List A) → All (λ x. q x ≡ true) xs → keep q xs ≡ xs
keep-of_All q [] h = refl
keep-of_All q (x ∷ xs) h = rw (h.0) (ap (λ l. x ∷ l) (keep-of_All q xs h.1))

All-keep {ℓ} :
    {A : Type ℓ} (P : A → Type 0) (q : A → Bool) (xs : List A)
    → All P xs
    → All (λ x. P x × (q x ≡ true)) (keep q xs)
All-keep P q [] h = tt
All-keep P q (x ∷ xs) h = elim (Bool-cases (q x)) [
  | inl e ↦ rw e ((h.0, e), All-keep P q xs h.1)
  | inr e ↦ rw e (All-keep P q xs h.1)
]

find_node-later :
    (m : StorageNode) (nodes : List StorageNode) (n : StorageNode)
    → n.id ≢ m.id
    → find_node n.id nodes ≡ some n
    → find_node n.id (m ∷ nodes) ≡ some n
unfolding find_node
find_node-later m nodes n other e = ground (arith, e)

-- Where identifiers are unique, each node is found by its own.
find_node-All :
    (nodes : List StorageNode)
    → IsDistinct (map (λ n. n.id) nodes)
    → All (λ n. find_node n.id nodes ≡ some n) nodes
find_node-All [] h = tt
find_node-All (m ∷ nodes) h = (
  unfold find_node in ground arith,
  All-both nodes (λ n other e. find_node-later m nodes n other e)
      (All-of_map (λ y. y ≢ m.id) (λ (n : StorageNode). n.id) nodes h.0) (find_node-All nodes h.1),
)

join_nodes-placed :
    (nodes : List StorageNode) (placed : List Placement)
    → All (λ p. find_node p.shard.node_id nodes ≡ some p.node) placed
    → join_nodes nodes (map (λ p. p.shard) placed) ≡ map row_of placed
unfolding join_nodes
join_nodes-placed nodes [] h = refl
join_nodes-placed nodes (p ∷ placed) h =
    rw (h.0, join_nodes) (ap (λ l. row_of p ∷ l) (join_nodes-placed nodes placed h.1))

-- A node that may be read from, and is found by its identifier.
abbrev pub IsUsable : List StorageNode → StorageNode → Type 0
IsUsable nodes n = (find_node n.id nodes ≡ some n) × (is_healthy_status n.status ≡ true)

pub healthy_nodes-IsUsable :
    (db : Database)
    → IsDistinct (map (λ n. n.id) db.nodes)
    → All (IsUsable db.nodes) (healthy_nodes db)
unfolding healthy_nodes
healthy_nodes-IsUsable db h =
    All-keep _ (λ n. is_healthy_status n.status) db.nodes (find_node-All db.nodes h)

readable-healthy : (p : Placed) → is_healthy_status p.1.status ≡ true → readable [] p ≡ true
unfolding readable is_healthy_status is_decommissioned
readable-healthy p e = ground (arith, e)

pub shard_candidates-placed :
    (h : Hashlib) (d : Draws) (block_of : ℕ → Bytes) (low count : ℕ) (placed : List Placement)
    (file_id : ℕ) (before after : Database)
    → All (λ s. (s.file_id == file_id) ≡ false) before.shards
    → after.shards ≡ before.shards ++ map (λ p. p.shard) placed
    → after.nodes ≡ before.nodes
    → d.file_id ≡ file_id
    → ArePlacements h d block_of (IsUsable before.nodes) low count placed
    → shard_candidates file_id [] after ≡ sort_placed (map row_of placed)
unfolding shard_candidates placed_shards
shard_candidates-placed h d block_of low count placed file_id before after fresh rows nodes own a =
    let owned = λ (s : Shard). s.file_id == file_id in
    let mine : All (λ s. owned s ≡ true) (map (λ p. p.shard) placed) =
      All-map (λ s. owned s ≡ true) (λ (p : Placement). p.shard) placed
        (All-implies placed (λ p i. ground (arith, i.file_id, own)) a.each) in
    let shards : keep owned after.shards ≡ map (λ p. p.shard) placed =
      ap (keep owned) rows
      ∙ keep-skips owned before.shards (map (λ p. p.shard) placed) fresh
      ∙ keep-of_All owned (map (λ p. p.shard) placed) mine in
    let joined : join_nodes after.nodes (keep owned after.shards) ≡ map row_of placed =
      ap (λ n. join_nodes n (keep owned after.shards)) nodes
      ∙ ap (join_nodes before.nodes) shards
      ∙ join_nodes-placed before.nodes placed (
          All-both placed (λ p i on. ap (λ id. find_node id before.nodes) i.node_id ∙ on.0) a.each
            a.on_nodes) in
    let kept : keep (readable []) (map row_of placed) ≡ map row_of placed =
      keep-of_All (readable []) (map row_of placed) (
        All-map (λ q. readable [] q ≡ true) row_of placed
          (All-implies placed (λ p on. readable-healthy (row_of p) on.1) a.on_nodes)) in
    ap (λ l. sort_placed (keep (readable []) l)) joined ∙ ap sort_placed kept
