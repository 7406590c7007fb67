-- ===== src/Paths/Delete.antt =====
-- Deleting the entry at a path.
mod Steps
use Steps.{
  Deleted, get_below, Kept, store_or_collapse_lem, delete_last, unchanged, replace_child-IsStorable,
  replace_child_ne, through_replaced, get_parts_loads, get_parts_inv,
}
use open_memory_protocol.Base.{
  Option-cases, All, [], ◌∷◌, List, true, Option, none, some, ok, >>=-eq-ok, ◌≡◌, ◌≢◌, refl, sym,
  ◌∙◌, inl, inr, arith, Bool-cases, Result,
}
use open_memory_protocol.Base.Bytes.{Bytes, beq_refl, beq-ne}
use open_memory_protocol.Base.SortedMap
use open_memory_protocol.Error.{OmpError}
use open_memory_protocol.Hash.{Hash, IsHash}
use open_memory_protocol.Crypto.{Primitives}
use open_memory_protocol.Crypto.Sealing.{IsSound}
use open_memory_protocol.Tree
use open_memory_protocol.Tree.{Mode, Entry, Tree, empty}
use open_memory_protocol.Store.{ObjectStore, IsContentStore}
use open_memory_protocol.Paths.{
  split, get_at_with_key, delete_parts, delete_at_with_key, is_tree, load_tree_with_key,
  store_tree_with_key, get_from, get_parts, store_or_collapse, replace_child, delete_inner,
}
use open_memory_protocol.Paths.Loading.{
  get_from_file, get-IsHash, get_from_through, IsStorableName, IsStorable, insert-IsStorable,
  remove-IsStorable, get-insert_tree, get-remove_tree, HasTrees, Extends, store_tree_lem,
  get_from_missing, get_from_child, get_from_same,
}
use open_memory_protocol.Paths.Put.{Diverge}

-- `get_at_with_key` from a root that may have collapsed.
abbrev pub get_at_root :
    (o : ObjectStore)
    → Primitives
    → Option Bytes
    → o.State
    → Bytes
    → Option Hash
    → Result OmpError (Option (Mode × Hash))
get_at_root o p key s path none = ok none
get_at_root o p key s path (some h) = get_at_with_key o p key s path h

module _ (o : ObjectStore) (laws : IsContentStore o) (p : Primitives) (sound : IsSound p)
    (key : Option Bytes) where
  open o use {State}

  others_below :
      (s s₁ s' : State) (t t' : Tree) (head next part : Bytes) (more rest : List Bytes)
      (entry : Entry) (child : Option Hash) (r : Option (Mode × Hash))
      → Tree.get t head ≡ some entry
      → is_tree entry.mode ≡ true
      → Deleted o laws p sound key s entry.hash (next ∷ more) child s₁
      → replace_child o p key t head child ≡ ok t'
      → Extends o p key s₁ s'
      → head ≡ part
      → Diverge (next ∷ more) rest
      → get_from o p key s t (part ∷ rest) ≡ ok r
      → get_from o p key s' t' (part ∷ rest) ≡ ok r
  others_below s s₁ s' t t' head next part more [] entry child r there dir d rep ext same dv g =
      absurd dv
  others_below s s₁ s' t t' head next part more (c ∷ qs) entry child r there dir d rep ext same dv
        g =
      let (ct, l, k) =
        get_from_through o laws p sound key s t head c qs entry r there dir (rw same g) in
      let q = get_parts_loads o laws p sound key s entry.hash ct c qs l ∙ k in
      rw (← same) (
        through_replaced o laws p sound key s₁ s' t t' head c qs child r rep ext
          (d.others c qs r dv q))

  -- `delete_inner` below a directory, from what it does in the child.
  delete_in_child :
      (s : State) (current : Hash) (t : Tree) (head next : Bytes) (more : List Bytes)
      (entry : Entry) (child root : Option Hash) (s₁ s' : State) (t' : Tree)
      → IsStorable key t
      → IsStorableName key head
      → load_tree_with_key o p key s current ≡ ok t
      → Tree.get t head ≡ some entry
      → is_tree entry.mode ≡ true
      → Deleted o laws p sound key s entry.hash (next ∷ more) child s₁
      → replace_child o p key t head child ≡ ok t'
      → store_or_collapse o p key s₁ t' ≡ ok (root, s')
      → Deleted o laws p sound key s current (head ∷ next ∷ more) root s'
  delete_in_child s current t head next more entry child root s₁ s' t' good name l there dir d rep
        st =
      let good' =
        replace_child-IsStorable o laws p sound key t t' head child good name d.hashes rep in
      let kept = store_or_collapse_lem o laws p sound key s₁ t' root s' d.trees good' st in
      let ext : Extends o p key s s' = λ h u k. kept.extends h u (d.extends h u k) in
      record {
        extends = ext;
        trees = kept.trees;
        hashes = kept.hashes;
        gone = kept.reads head (next ∷ more) none (
            through_replaced o laws p sound key s₁ s' t t' head next more child none rep
              kept.extends d.gone);
        others = λ part rest r dv g.
            let g' = sym (get_parts_loads o laws p sound key s current t part rest l) ∙ g in
            elim dv [
              | inl ne ↦ kept.reads part rest r (
                  get_from_same o laws p sound key s s' t t' part rest r
                    (replace_child_ne o laws p sound key t t' head part child rep ne) ext g')
              | inr (same, below) ↦ kept.reads part rest r (
                  others_below s s₁ s' t t' head next part more rest entry child r there dir d rep
                    kept.extends same below g')
            ];
      }

  delete_inner_lem :
      (parts : List Bytes) (s : State) (current : Hash) (root : Option Hash) (s' : State)
      → HasTrees o p key s
      → IsHash current
      → All (IsStorableName key) parts
      → delete_inner o p key s current parts ≡ ok (root, s')
      → Deleted o laws p sound key s current parts root s'
  unfolding delete_inner
  delete_inner_lem [] s current root s' has ih _ e = cc e
  delete_inner_lem (head ∷ []) s current root s' has ih _ e =
      delete_last o laws p sound key s current head root s' has e
  delete_inner_lem (head ∷ next ∷ more) s current root s' has ih (n, ns) e =
      let (t, l, k) = >>=-eq-ok (load_tree_with_key o p key s current) _ e in
      let stays = λ (q : get_from o p key s t (head ∷ next ∷ more) ≡ ok none).
        unchanged o laws p sound key s current (head ∷ next ∷ more) has ih
          (get_parts_loads o laws p sound key s current t head (next ∷ more) l ∙ q) in
      elim (Option-cases (Tree.get t head)) [
        | inl missing ↦
            let k' : ok (some current, s) ≡ ok (root, s') = rw missing at k in
            same_root (cc k') (cc k')
              (stays (get_from_missing o laws p sound key s t head (next ∷ more) missing))
        | inr (entry, there) ↦ elim (Bool-cases (is_tree entry.mode)) [
          | inl dir ↦
              let ((child, s₁), e₁, k₁) =
                >>=-eq-ok (delete_inner o p key s entry.hash (next ∷ more)) _
                  (rw (there, dir) at k) in
              let (t', rep, st) = >>=-eq-ok (replace_child o p key t head child) _ k₁ in
              let hash = get-IsHash key t head entry (has current t l) there in
              delete_in_child s current t head next more entry child root s₁ s' t' (has current t l)
                n l there dir (delete_inner_lem (next ∷ more) s entry.hash child s₁ has hash ns e₁)
                rep st
          | inr file ↦
              let k' : ok (some current, s) ≡ ok (root, s') = rw (there, file) at k in
              same_root (cc k') (cc k')
                (stays (get_from_file o laws p sound key s t head next more entry there file))
        ]
      ]
    where
      same_root :
          some current ≡ root
          → s ≡ s'
          → Deleted o laws p sound key s current (head ∷ next ∷ more) (some current) s
          → Deleted o laws p sound key s current (head ∷ next ∷ more) root s'
      same_root f g d = rw (← f, ← g) d

  get_at_root-eq-get_below :
      (s : State) (path : Bytes) (parts : List Bytes) (root : Option Hash)
      → split path ≡ ok parts
      → get_at_root o p key s path root ≡ get_below o laws p sound key s root parts
  unfolding get_at_with_key
  get_at_root-eq-get_below s path parts none sp = refl
  get_at_root-eq-get_below s path parts (some h) sp = rw sp

  delete_parts_lem :
      (parts : List Bytes) (s : State) (current : Hash) (root : Option Hash) (s' : State)
      → HasTrees o p key s
      → IsHash current
      → All (IsStorableName key) parts
      → delete_parts o p key s current parts ≡ ok (root, s')
      → Deleted o laws p sound key s current parts root s'
  unfolding delete_parts
  delete_parts_lem [] s current root s' has ih _ e = cc e
  delete_parts_lem (head ∷ more) s current root s' has ih names e =
      delete_inner_lem (head ∷ more) s current root s' has ih names e

  -- After `delete_at` of a path whose components a tree can hold, `get_at` of the path from the new
  -- root gives nothing; at a path that diverges from it, `get_at` gives what it gave before. Where
  -- the whole tree has collapsed there is no root, and nothing was left at such a path. All trees of
  -- the store can again be stored.
  pub get_at-delete_at :
      (s : State) (root : Hash) (path other : Bytes) (parts : List Bytes) (q : Bytes)
      (qs : List Bytes) (new_root : Option Hash) (s' : State) (r : Option (Mode × Hash))
      → HasTrees o p key s
      → IsHash root
      → split path ≡ ok parts
      → split other ≡ ok (q ∷ qs)
      → Diverge parts (q ∷ qs)
      → All (IsStorableName key) parts
      → delete_at_with_key o p key s root path ≡ ok (new_root, s')
      → get_at_with_key o p key s other root ≡ ok r
      → (get_at_root o p key s' path new_root ≡ ok none)
        × (get_at_root o p key s' other new_root ≡ ok r)
        × HasTrees o p key s'
  unfolding delete_at_with_key get_at_with_key
  get_at-delete_at s root path other parts q qs new_root s' r has ih sp sq dv names e g =
      let d = delete_parts_lem parts s root new_root s' has ih names (rw sp at e) in
      (
        get_at_root-eq-get_below s' path parts new_root sp ∙ d.gone,
        get_at_root-eq-get_below s' other (q ∷ qs) new_root sq ∙ d.others q qs r dv (rw sq at g),
        d.trees,
      )
