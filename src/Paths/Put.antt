-- ===== src/Paths/Put.antt =====
-- Putting an entry at a path.
mod Steps
pub use Steps.{Diverge}
use Steps.{Done, put_last, put_below}
use open_memory_protocol.Base.{
  [], ◌∷◌, List, Option, none, some, ok, >>=-eq-ok, All, ◌≡◌, ◌≢◌, refl, sym, ◌∙◌, ◌⊎◌, inl, inr,
  Bool-cases, Option-cases,
}
use open_memory_protocol.Base.Bytes.{Bytes, beq_refl, beq-ne}
use open_memory_protocol.Hash.{Hash, IsHash}
use open_memory_protocol.Crypto.{Primitives}
use open_memory_protocol.Crypto.Sealing.{IsSound}
use open_memory_protocol.Tree
use open_memory_protocol.Tree.{Mode, Entry, Tree, empty}
use open_memory_protocol.Store.{ObjectStore, IsContentStore}
use open_memory_protocol.Paths.{
  is_tree, split, load_tree_with_key, get_from, get_parts, get_at_with_key, open_tree, child_of,
  put_inner, put_parts, put_at_with_key,
}
use open_memory_protocol.Paths.Loading.{
  IsStorableName, IsStorable, empty-IsStorable, insert-IsStorable, get-insert_tree, HasTrees,
  Extends, store_tree_lem, get_from_missing, get_from_last, get_from_child, get_from_through,
  get_from_same, get_from-empty,
}

module _ (o : ObjectStore) (laws : IsContentStore o) (p : Primitives) (sound : IsSound p)
    (key : Option Bytes) (entry : Entry) (entry_hash : IsHash entry.hash) where
  open o use {State}

  put_inner_lem :
      (parts : List Bytes) (s : State) (root : Option Hash) (h : Hash) (s' : State)
      → HasTrees o p key s
      → All (IsStorableName key) parts
      → put_inner o p key s root parts entry ≡ ok (h, s')
      → Done o laws p sound key entry entry_hash s root parts h s'
  unfolding put_inner
  put_inner_lem [] s root h s' has _ e = cc e
  put_inner_lem (head ∷ []) s root h s' has (n, _) e =
      put_last o laws p sound key entry entry_hash s root head h s' has n e
  put_inner_lem (head ∷ next ∷ more) s root h s' has (n, ns) e =
      put_below o laws p sound key entry entry_hash s root head next more h s' has n
        (λ child h₁ s₁. put_inner_lem (next ∷ more) s child h₁ s₁ has ns) e

  get_parts_of_loads :
      (s : State) (h : Hash) (t : Tree) (part : Bytes) (more : List Bytes)
      → load_tree_with_key o p key s h ≡ ok t
      → get_parts o p key s h (part ∷ more) ≡ get_from o p key s t (part ∷ more)
  unfolding get_parts
  get_parts_of_loads s h t part more l = rw l

  put_parts_lem :
      (parts : List Bytes) (s : State) (root : Option Hash) (h : Hash) (s' : State)
      → HasTrees o p key s
      → All (IsStorableName key) parts
      → put_parts o p key s root parts entry ≡ ok (h, s')
      → Done o laws p sound key entry entry_hash s root parts h s'
        × (get_parts o p key s' h parts ≡ ok (some (entry.mode, entry.hash)))
  unfolding put_parts
  put_parts_lem [] s root h s' has _ e = cc e
  put_parts_lem (head ∷ more) s root h s' has names e =
      let d = put_inner_lem (head ∷ more) s root h s' has names e in
      (d, get_parts_of_loads s' h d.tree head more d.loads ∙ d.found)

  -- After `put_at` of an entry at a path whose components a tree can hold, `get_at` of the path from
  -- the new root gives the entry; the new root is a hash, every tree that could be read still reads
  -- as it did, and all trees of the store can again be stored.
  pub get_at-put_at :
      (s : State) (root : Option Hash) (path : Bytes) (parts : List Bytes) (h : Hash) (s' : State)
      → HasTrees o p key s
      → split path ≡ ok parts
      → All (IsStorableName key) parts
      → put_at_with_key o p key s root path entry ≡ ok (h, s')
      → (get_at_with_key o p key s' path h ≡ ok (some (entry.mode, entry.hash)))
        × IsHash h
        × Extends o p key s s'
        × HasTrees o p key s'
  unfolding put_at_with_key get_at_with_key
  get_at-put_at s root path parts h s' has sp names e =
      let (d, found) = put_parts_lem parts s root h s' has names (rw sp at e) in
      (rw sp found, d.is_hash, d.extends, d.trees)

  stays_at :
      (parts qs : List Bytes) (s : State) (root h : Hash) (s' : State) (r : Option (Mode × Hash))
      → Done o laws p sound key entry entry_hash s (some root) parts h s'
      → Diverge parts qs
      → get_parts o p key s root qs ≡ ok r
      → get_parts o p key s' h qs ≡ ok r
  unfolding get_parts
  stays_at [] qs s root h s' r d dv e = absurd dv
  stays_at (_ ∷ _) [] s root h s' r d dv e = absurd dv
  stays_at (head ∷ more) (q ∷ qs) s root h s' r d dv e =
      let (t, l, k) = >>=-eq-ok (load_tree_with_key o p key s root) _ e in
      rw (d.loads) (d.others t (unfold open_tree in l) q qs r dv k)

  -- `put_at` changes nothing at a path that diverges from the one that it writes.
  pub get_at-put_at_ne :
      (s : State) (root : Hash) (path other : Bytes) (parts qs : List Bytes) (h : Hash) (s' : State)
      (r : Option (Mode × Hash))
      → HasTrees o p key s
      → split path ≡ ok parts
      → split other ≡ ok qs
      → Diverge parts qs
      → All (IsStorableName key) parts
      → put_at_with_key o p key s (some root) path entry ≡ ok (h, s')
      → get_at_with_key o p key s other root ≡ ok r
      → get_at_with_key o p key s' other h ≡ ok r
  unfolding put_at_with_key get_at_with_key
  get_at-put_at_ne s root path other parts qs h s' r has sp sq dv names e g =
      let (d, _) = put_parts_lem parts s (some root) h s' has names (rw sp at e) in
      rw sq (stays_at parts qs s root h s' r d dv (rw sq at g))
