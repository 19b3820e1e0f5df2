-- ===== src/Maintenance/Keeping.antt =====
-- The tables through the fetch loop of api_service/services/files.py and the moves of
-- api_service/services/maintenance.py.
use secure_file_system.NodeClient
use secure_file_system.Base.{
  ℕ, zero, suc, ◌-◌, ◌≡◌, ◌∙◌, inl, inr, List, [], ◌∷◌, ◌!=◌, list_eq, nat_eq, leb, Bool-cases,
  Result-cases,
}
use secure_file_system.Base.Dict.{Dict}
use secure_file_system.Base.Lists.{length, take, drop, All-always}
use secure_file_system.Base.Text.{Text, Bytes}
use secure_file_system.Database.{StorageNode, Database}
use secure_file_system.Files.{sha256_hex}
use secure_file_system.Files.Reading.{Placed, add_blocks, get_placed, fetch_more}
use secure_file_system.Http.{Request}
use secure_file_system.Maintenance.Moving.{move_shard, move_one, repair_one, repair_each}
use secure_file_system.Network.{Network, World, commit, stage, gather, gather-preserves}
use secure_file_system.NodeClient.{put_request, delete_request, send}
use secure_file_system.Python.Hashlib.{Hashlib}

-- What a view of the tables shows, committed and in the session.
pub record ViewIs {net : Network} {X : Type 0} (view : Database → X) (value : X) (w : World net)
    : Type 0 where
  pub committed : view w.committed ≡ value
  pub session : view w.session ≡ value

abbrev pub KeepsView :
    {net : Network} {A X : Type 0} → (Database → X) → X → (World net → A × World net) → Type 0
KeepsView view value step = (w : World _) → ViewIs view value w → ViewIs view value (step w).1

module _ {X : Type 0} (view : Database → X) (value : X) (net : Network) (h : Hashlib)
    (token : Text) where
  pub gather-keeps :
      {X : Type 0} {A : Type 0} (call : X → World net → A × World net) (xs : List X)
      → ((x : X) → KeepsView view value (call x))
      → KeepsView view value (gather call xs)
  gather-keeps call xs each w k =
      gather-preserves (ViewIs view value) call xs (All-always xs each) w k

  pub send-keeps :
      (address : Text) (r : Request) → KeepsView view value (NodeClient.send net h token address r)
  unfolding NodeClient.send
  send-keeps address r w k = record { committed = k.committed; session = k.session }

  pub fetch_more-keeps :
      (fuel k : ℕ) (ps : List Placed) (d : Dict ℕ Bytes)
      → KeepsView view value (fetch_more net h token fuel k ps d)
  unfolding fetch_more get_placed NodeClient.get_shard
  fetch_more-keeps zero k ps d w same = same
  fetch_more-keeps (suc fuel) k [] d w same = same
  fetch_more-keeps (suc fuel) k (p ∷ ps) d w same =
      let batch = take (k - length d) (p ∷ ps) in
      let after =
        gather-keeps (get_placed net h token) batch
          (λ p. send-keeps p.1.address (NodeClient.get_request net h token p.0.id)) w same in
      elim (Bool-cases (leb k (length d))) [
        | inl e ↦ rw e same
        | inr e ↦
            elim (Result-cases
              (add_blocks net h token batch (gather (get_placed net h token) batch w).0 d)) [
                | inl (d', e') ↦
                    rw (e, e')
                      (fetch_more-keeps fuel k (drop (k - length d) (p ∷ ps)) d'
                        (gather (get_placed net h token) batch w).1 after)
                | inr (error, e') ↦ rw (e, e') after
              ]
      ]

  module _
      (moves : (old new at t : ℕ) (db : Database) → view (move_shard old new at t db) ≡ view db)
      (new_id : ℕ → ℕ) (now : ℕ) where
    move_one-keeps :
        (p : Placed) (block : Bytes) (target : StorageNode)
        → KeepsView view value (move_one net h token new_id now p block target)
    unfolding move_one NodeClient.put_shard NodeClient.delete_shard
    move_one-keeps (s, n) block target w same =
        let put = NodeClient.put_shard net h token target.address (new_id s.id) block w in
        let sent =
          send-keeps target.address (NodeClient.put_request net h token (new_id s.id) block) w
            same in
        let moved : World net =
          commit (stage (move_shard s.id (new_id s.id) target.id now) put.1) in
        let written = moves s.id (new_id s.id) target.id now put.1.session ∙ sent.session in
        elim (Result-cases put.0) [
          | inl (a, e) ↦
              rw (e, move_one)
                (send-keeps n.address (NodeClient.delete_request net h token s.id) moved
                  (record { committed = written; session = written }))
          | inr (error, e) ↦ rw (e, move_one) sent
        ]

    repair_one-keeps :
        (p : Placed) (block : Bytes) (target : StorageNode)
        → KeepsView view value (repair_one net h token new_id now p block target)
    unfolding repair_one
    repair_one-keeps p block target w same =
        elim (Bool-cases (sha256_hex h block != p.0.checksum_sha256)) [
          | inl e ↦ rw e same
          | inr e ↦ rw e (move_one-keeps p block target w same)
        ]

    pub repair_each-keeps :
        (bad : List Placed) (rebuilt : List Bytes) (targets : List StorageNode)
        → KeepsView view value (repair_each net h token new_id now bad rebuilt targets)
    unfolding repair_each
    repair_each-keeps [] rebuilt targets w same = same
    repair_each-keeps (p ∷ bad) [] targets w same = same
    repair_each-keeps (p ∷ bad) (b ∷ rebuilt) [] w same = same
    repair_each-keeps (p ∷ bad) (b ∷ rebuilt) (t ∷ targets) w same =
        let one = repair_one-keeps p b t w same in
        let after = repair_one net h token new_id now p b t w in
        elim (Result-cases after.0) [
          | inl (n, e) ↦ rw (e, repair_each) (repair_each-keeps bad rebuilt targets after.1 one)
          | inr (error, e) ↦ rw (e, repair_each) one
        ]
