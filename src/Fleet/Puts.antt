-- ===== src/Fleet/Puts.antt =====
-- The shards of an upload of api_service/services/files.py on the nodes of a fleet.
use secure_file_system.NodeClient
use secure_file_system.Base.{ℕ, ◌<◌, ◌≡◌, refl, false, List, [], ◌∷◌, arith, Result, ok, err, Done}
use secure_file_system.Base.Lists.{any, All, All-always}
use secure_file_system.Base.Text.{Text}
use secure_file_system.Files.{failed}
use secure_file_system.Files.Reading.{Placed, get_placed}
use secure_file_system.Files.Uploading.{Placement, put_placed}
use secure_file_system.Fleet.{FleetState, node_network}
use secure_file_system.Fleet.Keeping.{put-KeepsShards, get-KeepsShards}
use secure_file_system.Fleet.Stored.{HasShard, deliver-keeps, put_shard-Has}
use secure_file_system.Network.{Network, World, gather, gather-preserves}
use secure_file_system.NodeClient.{NodeFailure, put_request, send}
use secure_file_system.Python.Hashlib.{Hashlib, IsHashlib}
use secure_file_system.Python.Hex.{pow16}
use secure_file_system.Python.Unicode.{Unicode, IsUnicode}
use secure_file_system.Python.Uuid.{uuid_text, uuid_text-IsCanonical}
use secure_file_system.StorageNode.Router.{NodeSettings}
use secure_file_system.StorageNode.Storage.{Faults}
use secure_file_system.StorageNode.Storage.Contract.{IsName}
use secure_file_system.StorageNode.Storage.Ids.{IsCanonical-IsSafeName}

module _ (h : Hashlib) (u : Unicode) (settings : NodeSettings) (faults : ℕ → Faults)
    (suffix : ℕ → Text) (token : Text) where
  abbrev pub Net : Network
  Net = node_network h u settings faults suffix

  -- The node of a placement holds its block.
  abbrev pub HasPlaced : Placement → FleetState → Type 0
  HasPlaced p s = HasShard h u settings token p.node.address p.shard.id p.block s

  abbrev pub AllPlaced : List Placement → FleetState → Type 0
  AllPlaced placed s = All (λ p. HasPlaced p s) placed

  id-IsName : (id : ℕ) → IsName (uuid_text id)
  id-IsName id = (IsCanonical-IsSafeName (uuid_text-IsCanonical id)).not_temporary

  put_placed-keeps :
      (q p : Placement) (w : World Net)
      → HasPlaced q w.network
      → HasPlaced q (put_placed Net h token p w).1.network
  unfolding put_placed NodeClient.put_shard NodeClient.send NodeClient.put_request
  put_placed-keeps q p w has =
      deliver-keeps h u settings faults suffix token q.node.address q.shard.id q.block
        p.node.address (NodeClient.put_request Net h token p.shard.id p.block) w.network
        (put-KeepsShards h u settings (NodeClient.put_request Net h token p.shard.id p.block)
          (uuid_text p.shard.id) refl refl)
        (id-IsName q.shard.id) has

  pub get_placed-keeps :
      (q : Placement) (p : Placed) (w : World Net)
      → HasPlaced q w.network
      → HasPlaced q (get_placed Net h token p w).1.network
  unfolding get_placed NodeClient.get_shard NodeClient.send NodeClient.get_request
  get_placed-keeps q p w has =
      deliver-keeps h u settings faults suffix token q.node.address q.shard.id q.block p.1.address
        (NodeClient.get_request Net h token p.0.id) w.network
        (get-KeepsShards h u settings (NodeClient.get_request Net h token p.0.id) (uuid_text p.0.id)
          refl refl)
        (id-IsName q.shard.id) has

  done-of_not_failed : (r : Result NodeFailure Done) → failed r ≡ false → r ≡ ok tt
  unfolding failed
  done-of_not_failed (ok tt) e = refl
  done-of_not_failed (err x) e = cc

  -- If no PUT failed, the fleet holds every block.
  pub gather-AllPlaced :
      (placed : List Placement) (w : World Net)
      → IsHashlib h
      → IsUnicode u
      → All (λ p. p.shard.id < pow16 32) placed
      → any failed (gather (put_placed Net h token) placed w).0 ≡ false
      → AllPlaced placed (gather (put_placed Net h token) placed w).1.network
  unfolding gather
  gather-AllPlaced [] w laws tables small e = tt
  gather-AllPlaced (p ∷ ps) w laws tables small e =
      let w1 = (put_placed Net h token p w).1 in
      let done = done-of_not_failed (put_placed Net h token p w).0 (ground (arith, e)) in
      let has : HasPlaced p w1.network =
        unfold put_placed in
        put_shard-Has h u settings faults suffix token p.node.address p.shard.id p.block w laws
          tables small.0 done in
      (
        gather-preserves (λ v. HasPlaced p v.network) (put_placed Net h token) ps
            (All-always ps (λ q v. put_placed-keeps p q v)) w1 has,
        gather-AllPlaced ps w1 laws tables small.1 (ground (arith, e)),
      )
