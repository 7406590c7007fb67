-- ===== src/Disk/Trees.antt =====
-- Puts and deletes of crates/omp-core/src/paths.rs in the disk store of store/disk.rs.
use open_memory_protocol.Base.{
  [], ◌∷◌, List, Option, none, some, ok, All, ◌≡◌, refl, sym, ◌∙◌, inl, inr, Result-cases,
  Option-cases, Bool-cases,
}
use open_memory_protocol.Base.Bytes.{Bytes}
use open_memory_protocol.Hash.{Hash, IsHash}
use open_memory_protocol.Crypto.{Primitives}
use open_memory_protocol.Crypto.Sealing.{IsSound}
use open_memory_protocol.Tree
use open_memory_protocol.Tree.{Mode, Entry, Tree}
use open_memory_protocol.Disk.{Codecs, Files}
use open_memory_protocol.Disk.Objects.{IsCodec}
use open_memory_protocol.Disk.Careful.{disk_store, careful_store, careful_store-IsContentStore}
use open_memory_protocol.Paths.{
  split, is_tree, load_tree_with_key, get_from, get_parts, get_at_with_key, put_at_with_key,
  delete_at_with_key,
}
use open_memory_protocol.Paths.Loading.{IsStorableName, HasTrees, Extends}
use open_memory_protocol.Paths.Put
use open_memory_protocol.Paths.Put.{Diverge}
use open_memory_protocol.Paths.Delete
use open_memory_protocol.Paths.Delete.{get_at_root}

-- Both stores read the same.
module _ (z : Codecs) (p : Primitives) (key : Option Bytes) where
  load_careful :
      (s : Files) (h : Hash)
      → load_tree_with_key (careful_store z) p key s h ≡ load_tree_with_key (disk_store z) p key s h
  unfolding load_tree_with_key
  load_careful s h = refl

  get_from_careful :
      (s : Files) (t : Tree) (parts : List Bytes)
      → get_from (careful_store z) p key s t parts ≡ get_from (disk_store z) p key s t parts
  unfolding get_from
  get_from_careful s t [] = refl
  get_from_careful s t (part ∷ []) = refl
  get_from_careful s t (part ∷ next ∷ more) = elim (Option-cases (Tree.get t part)) [
    | inl missing ↦ rw missing refl
    | inr (entry, there) ↦ elim (Bool-cases (is_tree entry.mode)) [
      | inr file ↦ rw (there, file) refl
      | inl dir ↦
          rw (there, dir, load_careful s entry.hash)
            (elim (Result-cases (load_tree_with_key (disk_store z) p key s entry.hash)) [
              | inl (e, q) ↦ rw q refl
              | inr (child, q) ↦ rw q (get_from_careful s child (next ∷ more))
            ])
    ]
  ]

  get_parts_careful :
      (s : Files) (root : Hash) (parts : List Bytes)
      → get_parts (careful_store z) p key s root parts ≡ get_parts (disk_store z) p key s root parts
  unfolding get_parts
  get_parts_careful s root [] = refl
  get_parts_careful s root (part ∷ parts) =
      rw (load_careful s root)
        (elim (Result-cases (load_tree_with_key (disk_store z) p key s root)) [
          | inl (e, q) ↦ rw q refl
          | inr (t, q) ↦ rw q (get_from_careful s t (part ∷ parts))
        ])

  get_at_careful :
      (s : Files) (path : Bytes) (root : Hash)
      → get_at_with_key (careful_store z) p key s path root
        ≡ get_at_with_key (disk_store z) p key s path root
  unfolding get_at_with_key
  get_at_careful s path root = elim (Result-cases (split path)) [
    | inl (e, q) ↦ rw q refl
    | inr (parts, q) ↦ rw q (get_parts_careful s root parts)
  ]

  get_at_root_careful :
      (s : Files) (path : Bytes) (root : Option Hash)
      → get_at_root (careful_store z) p key s path root
        ≡ get_at_root (disk_store z) p key s path root
  get_at_root_careful s path none = refl
  get_at_root_careful s path (some h) = get_at_careful s path h

  HasTrees-careful :
      (s : Files) → HasTrees (disk_store z) p key s → HasTrees (careful_store z) p key s
  HasTrees-careful s has h t e = has h t (sym (load_careful s h) ∙ e)

  HasTrees-disk : (s : Files) → HasTrees (careful_store z) p key s → HasTrees (disk_store z) p key s
  HasTrees-disk s has h t e = has h t (load_careful s h ∙ e)

-- The disk store, with codecs and a cipher that do what they document.
module _ (z : Codecs) (codec : IsCodec z) (p : Primitives) (sound : IsSound p)
    (key : Option Bytes) where
  -- In a store whose trees can all be stored again, after `put_at` of an entry with a hash of 32 bytes
  -- at a path whose components a tree can hold, where no object put meets another under its hash or has
  -- 2^64 bytes or more, `get_at` of the path from the new root gives the entry; the new root is a hash,
  -- every tree that could be read still reads as it did, and all trees of the store can again be
  -- stored.
  pub get_at-put_at :
      (s : Files) (root : Option Hash) (path : Bytes) (parts : List Bytes) (entry : Entry)
      (h : Hash) (s' : Files)
      → IsHash entry.hash
      → HasTrees (disk_store z) p key s
      → split path ≡ ok parts
      → All (IsStorableName key) parts
      → put_at_with_key (careful_store z) p key s root path entry
        ≡ put_at_with_key (disk_store z) p key s root path entry
      → put_at_with_key (disk_store z) p key s root path entry ≡ ok (h, s')
      → (get_at_with_key (disk_store z) p key s' path h ≡ ok (some (entry.mode, entry.hash)))
        × IsHash h
        × Extends (disk_store z) p key s s'
        × HasTrees (disk_store z) p key s'
  get_at-put_at s root path parts entry h s' eh has sp names alike e =
      let (found, ih, ext, has') =
        Put.get_at-put_at (careful_store z) (careful_store-IsContentStore z codec) p sound key entry
          eh s root path parts h s' (HasTrees-careful z p key s has) sp names (alike ∙ e) in
      (
        sym (get_at_careful z p key s' path h) ∙ found,
        ih,
        λ k t l. sym (load_careful z p key s' k) ∙ ext k t (load_careful z p key s k ∙ l),
        HasTrees-disk z p key s' has',
      )

  pub get_at-put_at_ne :
      (s : Files) (root : Hash) (path other : Bytes) (parts qs : List Bytes) (entry : Entry)
      (h : Hash) (s' : Files) (r : Option (Mode × Hash))
      → IsHash entry.hash
      → HasTrees (disk_store z) p key s
      → split path ≡ ok parts
      → split other ≡ ok qs
      → Diverge parts qs
      → All (IsStorableName key) parts
      → put_at_with_key (careful_store z) p key s (some root) path entry
        ≡ put_at_with_key (disk_store z) p key s (some root) path entry
      → put_at_with_key (disk_store z) p key s (some root) path entry ≡ ok (h, s')
      → get_at_with_key (disk_store z) p key s other root ≡ ok r
      → get_at_with_key (disk_store z) p key s' other h ≡ ok r
  get_at-put_at_ne s root path other parts qs entry h s' r eh has sp sq dv names alike e g =
      sym (get_at_careful z p key s' other h)
      ∙ Put.get_at-put_at_ne (careful_store z) (careful_store-IsContentStore z codec) p sound key
          entry eh s root path other parts qs h s' r (HasTrees-careful z p key s has) sp sq dv names
          (alike ∙ e) (get_at_careful z p key s other root ∙ g)

  pub get_at-delete_at :
      (s : Files) (root : Hash) (path other : Bytes) (parts : List Bytes) (q : Bytes)
      (qs : List Bytes) (new_root : Option Hash) (s' : Files) (r : Option (Mode × Hash))
      → HasTrees (disk_store z) p key s
      → IsHash root
      → split path ≡ ok parts
      → split other ≡ ok (q ∷ qs)
      → Diverge parts (q ∷ qs)
      → All (IsStorableName key) parts
      → delete_at_with_key (careful_store z) p key s root path
        ≡ delete_at_with_key (disk_store z) p key s root path
      → delete_at_with_key (disk_store z) p key s root path ≡ ok (new_root, s')
      → get_at_with_key (disk_store z) p key s other root ≡ ok r
      → (get_at_root (disk_store z) p key s' path new_root ≡ ok none)
        × (get_at_root (disk_store z) p key s' other new_root ≡ ok r)
        × HasTrees (disk_store z) p key s'
  get_at-delete_at s root path other parts q qs new_root s' r has ih sp sq dv names alike e g =
      let (gone, kept, has') =
        Delete.get_at-delete_at (careful_store z) (careful_store-IsContentStore z codec) p sound key
          s root path other parts q qs new_root s' r (HasTrees-careful z p key s has) ih sp sq dv
          names (alike ∙ e) (get_at_careful z p key s other root ∙ g) in
      (
        sym (get_at_root_careful z p key s' path new_root) ∙ gone,
        sym (get_at_root_careful z p key s' other new_root) ∙ kept,
        HasTrees-disk z p key s' has',
      )
