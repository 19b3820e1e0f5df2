-- ===== src/Scripts/Registering.antt =====
-- What scripts/seed_storage_nodes.py does when it is run again.
use secure_file_system.Base.{
  ℕ, ◌≡◌, refl, ap, inl, inr, true, List, [], ◌∷◌, ◌++◌, arith, ◌==◌, list_eq, nat_eq, Bool-cases,
  ok, ok-eq, not_ok,
}
use secure_file_system.Base.Lists.{length, all, All}
use secure_file_system.Base.Text.{Text}
use secure_file_system.Database.{StorageNode, Database}
use secure_file_system.Python.Unicode.{Unicode}
use secure_file_system.Scripts.Nodes.{
  split_addresses, is_host_port, new_node, is_known, insert_one, insert_new, register, seed,
}

abbrev IsKnown : List StorageNode → Text → Type 0
IsKnown nodes address = is_known nodes address ≡ true

IsKnown-append :
    (nodes more : List StorageNode) (address : Text)
    → IsKnown nodes address
    → IsKnown (nodes ++ more) address
IsKnown-append [] more address h = cc
IsKnown-append (n ∷ nodes) more address h = elim (Bool-cases (n.address == address)) [
  | inl e ↦ rw e refl
  | inr e ↦ rw e (IsKnown-append nodes more address (rw e at h))
]

IsKnown-added :
    (nodes : List StorageNode) (id : ℕ) (address : Text) (now : ℕ)
    → IsKnown (nodes ++ (new_node id address now ∷ [])) address
IsKnown-added [] id address now = ground arith
IsKnown-added (n ∷ nodes) id address now = ground (arith, IsKnown-added nodes id address now)

module _ (draw : ℕ → ℕ) (now : ℕ) where
  insert_one-IsKnown :
      (address : Text) (nodes : List StorageNode)
      → IsKnown (insert_one draw now address nodes) address
  unfolding insert_one
  insert_one-IsKnown address nodes = elim (Bool-cases (is_known nodes address)) [
    | inl e ↦ rw e e
    | inr e ↦ rw e (IsKnown-added nodes (draw (length nodes)) address now)
  ]

  insert_one-keeps :
      (a : Text) (nodes : List StorageNode) (address : Text)
      → IsKnown nodes address
      → IsKnown (insert_one draw now a nodes) address
  unfolding insert_one
  insert_one-keeps a nodes address h = elim (Bool-cases (is_known nodes a)) [
    | inl e ↦ rw e h
    | inr e ↦ rw e (IsKnown-append nodes _ address h)
  ]

  insert_new-keeps :
      (addresses : List Text) (nodes : List StorageNode) (address : Text)
      → IsKnown nodes address
      → IsKnown (insert_new draw now addresses nodes).1 address
  unfolding insert_new
  insert_new-keeps [] nodes address h = h
  insert_new-keeps (a ∷ addresses) nodes address h =
      insert_new-keeps addresses (insert_one draw now a nodes) address
        (insert_one-keeps a nodes address h)

  insert_new-IsKnown :
      (addresses : List Text) (nodes : List StorageNode)
      → All (IsKnown (insert_new draw now addresses nodes).1) addresses
  unfolding insert_new
  insert_new-IsKnown [] nodes = tt
  insert_new-IsKnown (a ∷ addresses) nodes =
      let nodes' = insert_one draw now a nodes in
      (
        insert_new-keeps addresses nodes' a (insert_one-IsKnown a nodes),
        insert_new-IsKnown addresses nodes',
      )

  insert_new-of_known :
      (addresses : List Text) (nodes : List StorageNode)
      → All (IsKnown nodes) addresses
      → insert_new draw now addresses nodes ≡ (0, nodes)
  unfolding insert_new insert_one
  insert_new-of_known [] nodes h = refl
  insert_new-of_known (a ∷ addresses) nodes h =
      rw (h.0) (rw (insert_new-of_known addresses nodes h.1) refl)

register-again :
    (draw draw' : ℕ → ℕ) (now now' : ℕ) (addresses : List Text) (db : Database) (found : ℕ × ℕ)
    → (register draw now addresses db).0 ≡ ok found
    → register draw' now' addresses (register draw now addresses db).1
      ≡ (ok (0, found.1), (register draw now addresses db).1)
unfolding register
register-again draw draw' now now' [] db found e = absurd (not_ok e)
register-again draw draw' now now' (a ∷ addresses) db found e =
    let nodes = (insert_new draw now (a ∷ addresses) db.nodes).1 in
    let count : length (a ∷ addresses) ≡ found.1 =
      ap (λ (p : ℕ × ℕ). p.1) (ok-eq (register draw now (a ∷ addresses) db).0 refl e) in
    rw
      (
        insert_new-of_known draw' now' (a ∷ addresses) nodes
            (insert_new-IsKnown draw now (a ∷ addresses) db.nodes),
        ← count,
      )
      refl

-- A second run with the same addresses adds no node and leaves the database as it is.
pub seed-again :
    (u : Unicode) (draw draw' : ℕ → ℕ) (now now' : ℕ) (value : Text) (db : Database) (found : ℕ × ℕ)
    → (seed u draw now value db).0 ≡ ok found
    → seed u draw' now' value (seed u draw now value db).1
      ≡ (ok (0, found.1), (seed u draw now value db).1)
unfolding seed
seed-again u draw draw' now now' value db found e =
    let addresses = split_addresses u value in
    elim (Bool-cases (all (is_host_port u) addresses)) [
      | inr f ↦ absurd (not_ok (rw f at e))
      | inl f ↦ rw f (register-again draw draw' now now' addresses db found (rw f at e))
    ]
