-- ===== src/Schema/Added.antt =====
-- The rows that an upload of api_service/services/files.py adds to the tables.
use mathlib.Core.Path.{subst}
use secure_file_system.Base.{
  ℕ, ◌≡◌, refl, sym, ap, ◌∙◌, ◌≢◌, true, false, Option, none, some, List, [], ◌∷◌, ◌++◌, map, arith,
  contains, list_eq, nat_eq,
}
use secure_file_system.Base.Lists.{
  All, All-append, All-implies, All-both, IsDistinct, All-of_map, All-map, map-append,
}
use secure_file_system.Base.Text.{Bytes}
use secure_file_system.Database.{User, File, StorageNode, Shard, AuditEvent}
use secure_file_system.Filenames.{fitting}
use secure_file_system.Files.Uploading.{Draws, Placement}
use secure_file_system.Files.Uploading.Placing.{IsPlacement}
use secure_file_system.Python.Hashlib.{Hashlib}
use secure_file_system.Schema.{
  refers, file_checks, file_fits, shard_fits, FilesTable, ShardsTable, AuditTable,
}
use secure_file_system.Schema.Tables.{IsDistinct-append, contains-append}
use secure_file_system.Signing.{checked}

-- An identifier that no row has is none of those of the table.
not_contained : (ids : List ℕ) (id : ℕ) → contains ids id ≡ false → All (λ x. x ≢ id) ids
not_contained [] id h = tt
not_contained (x ∷ ids) id h =
    ((λ e. ground (arith, h, e)), not_contained ids id (ground (arith, h)))

contains-last : (ids : List ℕ) (id : ℕ) → contains (ids ++ (id ∷ [])) id ≡ true
contains-last [] id = ground arith
contains-last (x ∷ ids) id = ground (arith, contains-last ids id)

contains-more : (xs ys : List ℕ) (id : ℕ) → contains xs id ≡ true → contains (xs ++ ys) id ≡ true
contains-more xs ys id h = contains-append xs ys id ∙ rw h refl

refers-more : (xs ys : List ℕ) (id : Option ℕ) → refers xs id ≡ true → refers (xs ++ ys) id ≡ true
unfolding refers
refers-more xs ys none h = refl
refers-more xs ys (some id) h = contains-more xs ys id h

-- What differs wherever the numbers of the shards do.
IsDistinct-shards :
    {B : Type 0} (f : Shard → B) (Q : Placement → Type 0)
    → ((p q : Placement)
        → Q p
        → Q q
        → f p.shard ≡ f q.shard
        → p.shard.shard_index ≡ q.shard.shard_index)
    → (placed : List Placement) → All Q placed
    → IsDistinct (map (λ p. p.shard.shard_index) placed)
    → IsDistinct (map f (map (λ p. p.shard) placed))
IsDistinct-shards f Q same [] each apart = tt
IsDistinct-shards f Q same (p ∷ placed) each apart = (
  All-map (λ y. y ≢ f p.shard) f (map (λ q. q.shard) placed)
      (All-map (λ s. f s ≢ f p.shard) (λ (q : Placement). q.shard) placed
        (All-both placed (λ q i other e. other (same q p i each.0 e)) each.1
          (All-of_map (λ j. j ≢ p.shard.shard_index) (λ (q : Placement). q.shard.shard_index) placed
            apart.0))),
  IsDistinct-shards f Q same placed each.1 apart.1,
)

module _ (h : Hashlib) (d : Draws) (block_of : ℕ → Bytes) (high : ℕ) where
  abbrev Placements : List Placement → Type 0
  Placements = All (IsPlacement h d block_of 0 high)

  -- A row of another file, with an identifier that is not drawn.
  abbrev IsOther : Shard → Type 0
  IsOther s = (s.file_id ≢ d.file_id) × ((i : ℕ) → s.id ≢ d.shard_id i)

  apart-new :
      {B : Type 0} (f : Shard → B) (old : List Shard) (placed : List Placement)
      → ((s : Shard) (p : Placement)
          → IsPlacement h d block_of 0 high p
          → IsOther s
          → f s ≢ f p.shard)
      → Placements placed
      → All IsOther old
      → All (λ y. All (λ x. x ≢ y) (map f old)) (map f (map (λ p. p.shard) placed))
  apart-new f old [] differ each others = tt
  apart-new f old (p ∷ placed) differ each others = (
    All-map (λ x. x ≢ f p.shard) f old (All-implies old (λ s o. differ s p each.0 o) others),
    apart-new f old placed differ each.1 others,
  )

  -- What holds of two rows apart where it holds of their placements.
  apart-added :
      {B : Type 0} (f : Shard → B) (old : List Shard) (placed : List Placement)
      → ((p q : Placement)
          → IsPlacement h d block_of 0 high p
          → IsPlacement h d block_of 0 high q
          → f p.shard ≡ f q.shard
          → p.shard.shard_index ≡ q.shard.shard_index)
      → ((s : Shard) (p : Placement)
          → IsPlacement h d block_of 0 high p
          → IsOther s
          → f s ≢ f p.shard)
      → Placements placed
      → IsDistinct (map (λ p. p.shard.shard_index) placed)
      → All IsOther old
      → IsDistinct (map f old)
      → IsDistinct (map f (old ++ map (λ p. p.shard) placed))
  apart-added f old placed same differ each apart others distinct =
      subst IsDistinct (sym (map-append f old (map (λ p. p.shard) placed))) (
        IsDistinct-append (map f old) (map f (map (λ p. p.shard) placed)) distinct
          (IsDistinct-shards f (IsPlacement h d block_of 0 high) same placed each apart)
          (apart-new f old placed differ each others))

  pub ShardsTable-added :
      (nodes : List StorageNode) (files : List File) (file : File) (old : List Shard)
      (placed : List Placement)
      → file.id ≡ d.file_id
      → ((i j : ℕ) → d.shard_id i ≡ d.shard_id j → i ≡ j)
      → contains (map (λ f. f.id) files) d.file_id ≡ false
      → All (λ s. (i : ℕ) → s.id ≢ d.shard_id i) old
      → Placements placed
      → IsDistinct (map (λ p. p.shard.shard_index) placed)
      → All (λ p. contains (map (λ n. n.id) nodes) p.node.id ≡ true) placed
      → All (λ p. shard_fits p.shard ≡ true) placed
      → ShardsTable nodes files old
      → ShardsTable nodes (files ++ (file ∷ [])) (old ++ map (λ p. p.shard) placed)
  ShardsTable-added nodes files file old placed id injective new unused each apart on fit t =
      let others : All IsOther old =
        All-both old (λ s named free. ((λ e. cc), free)) t.of_file unused in
      let ids : map (λ f. f.id) (files ++ (file ∷ [])) ≡ map (λ f. f.id) files ++ (d.file_id ∷ []) =
        map-append (λ f. f.id) files (file ∷ []) ∙ ap (λ i. map (λ f. f.id) files ++ (i ∷ [])) id in
      record {
        keys =
            apart-added (λ s. s.id) old placed (λ p q i j e. injective _ _ (sym i.id ∙ e ∙ j.id))
              (λ s p i o e. o.1 p.shard.shard_index (e ∙ i.id)) each apart others t.keys;
        file_index =
            apart-added (λ s. (s.file_id, s.shard_index)) old placed (λ p q i j e. ap (λ x. x.1) e)
              (λ s p i o e. o.0 (ap (λ x. x.0) e ∙ i.file_id)) each apart others t.file_index;
        fits =
            All-append _ old (map (λ p. p.shard) placed) t.fits
              (All-map _ (λ (p : Placement). p.shard) placed fit);
        of_file =
            All-append _ old (map (λ p. p.shard) placed)
              (All-implies old
                (λ s e.
                  ap (λ l. contains l s.file_id) ids
                  ∙ contains-more (map (λ f. f.id) files) (d.file_id ∷ []) s.file_id e)
                t.of_file)
              (All-map _ (λ (p : Placement). p.shard) placed
                (All-implies placed
                  (λ p i.
                    ap (λ l. contains l p.shard.file_id) ids
                    ∙ ap (contains (map (λ f. f.id) files ++ (d.file_id ∷ []))) i.file_id
                    ∙ contains-last (map (λ f. f.id) files) d.file_id)
                  each));
        on_node = All-append _ old (map (λ p. p.shard) placed) t.on_node (
            All-map _ (λ (p : Placement). p.shard) placed
              (All-both placed (λ p i e. ap (contains (map (λ n. n.id) nodes)) i.node_id ∙ e) each
                on));
      }

-- The row of a new file, of a user who has a row.
pub FilesTable-added :
    (users : List User) (files : List File) (file : File)
    → contains (map (λ f. f.id) files) file.id ≡ false
    → file_checks file ≡ true
    → file_fits file ≡ true
    → contains (map (λ u. u.id) users) file.owner_user_id ≡ true
    → FilesTable users files
    → FilesTable users (files ++ (file ∷ []))
FilesTable-added users files file new checked fitting owned t = record {
  keys = subst IsDistinct (sym (map-append (λ f. f.id) files (file ∷ []))) (
      IsDistinct-append (map (λ f. f.id) files) (file.id ∷ []) t.keys (tt, tt)
        (not_contained (map (λ f. f.id) files) file.id new, tt));
  checks = All-append _ files (file ∷ []) t.checks (checked, tt);
  fits = All-append _ files (file ∷ []) t.fits (fitting, tt);
  owners = All-append _ files (file ∷ []) t.owners (owned, tt);
}

pub AuditTable-added :
    (users : List User) (files : List File) (file : File) (events : List AuditEvent)
    → AuditTable users files events
    → AuditTable users (files ++ (file ∷ [])) events
AuditTable-added users files file events t = record {
  of_file =
      All-implies events
        (λ e named.
          ap (λ ids. refers ids e.file_id) (map-append (λ f. f.id) files (file ∷ []))
          ∙ refers-more (map (λ f. f.id) files) (file.id ∷ []) e.file_id named)
        t.of_file;
  by_user = t.by_user;
}

-- The row of the file is one of them.
pub ids-added :
    (files : List File) (file : File)
    → contains (map (λ f. f.id) (files ++ (file ∷ []))) file.id ≡ true
ids-added files file =
    ap (λ ids. contains ids file.id) (map-append (λ f. f.id) files (file ∷ []))
    ∙ contains-last (map (λ f. f.id) files) file.id
