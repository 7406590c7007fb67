-- ===== src/Paths/Delete/Steps.antt =====
-- The steps of deleting the entry at a path.
use open_memory_protocol.Base.{
  [], ◌∷◌, List, true, Option, none, some, ok, >>=-eq-ok, ◌≡◌, ◌≢◌, refl, sym, ◌∙◌, inl, inr, arith,
  Bool-cases, Result,
}
use open_memory_protocol.Base.Bytes.{Bytes, beq_refl, beq-ne}
use open_memory_protocol.Base.SortedMap
use open_memory_protocol.Error.{OmpError}
use open_memory_protocol.Hash.{Hash, IsHash}
use open_memory_protocol.Crypto.{Primitives}
use open_memory_protocol.Crypto.Sealing.{IsSound}
use open_memory_protocol.Tree
use open_memory_protocol.Tree.{Mode, Entry, Tree, empty}
use open_memory_protocol.Store.{ObjectStore, IsContentStore}
use open_memory_protocol.Paths.{
  is_tree, load_tree_with_key, store_tree_with_key, get_from, get_parts, store_or_collapse,
  replace_child, delete_inner,
}
use open_memory_protocol.Paths.Loading.{
  IsStorableName, IsStorable, insert-IsStorable, remove-IsStorable, get-insert_tree,
  get-remove_tree, HasTrees, Extends, store_tree_lem, get_from_missing, get_from_child,
  get_from_same,
}
use open_memory_protocol.Paths.Put.{Diverge}

module _ (o : ObjectStore) (laws : IsContentStore o) (p : Primitives) (sound : IsSound p)
    (key : Option Bytes) where
  open o use {State}

  abbrev pub Has : State → Type 0
  Has = HasTrees o p key

  abbrev pub Ext : State → State → Type 0
  Ext = Extends o p key

  -- What a path leads to from a root that may have collapsed.
  abbrev pub get_below : State → Option Hash → List Bytes → Result OmpError (Option (Mode × Hash))
  get_below s none parts = ok none
  get_below s (some h) parts = get_parts o p key s h parts

  -- A tree as the root that it was stored under, or that it collapsed to.
  pub record Kept (s : State) (t : Tree) (root : Option Hash) (s' : State) : Type 0 where
    pub extends : Ext s s'
    pub trees : Has s'
    pub hashes : (h : Hash) → root ≡ some h → IsHash h
    pub reads :
        (part : Bytes) (more : List Bytes) (r : Option (Mode × Hash))
        → get_from o p key s' t (part ∷ more) ≡ ok r
        → get_below s' root (part ∷ more) ≡ ok r

  pub get_from-empty_tree :
      (s : State) (t : Tree) (part : Bytes) (more : List Bytes)
      → Tree.is_empty t ≡ true
      → get_from o p key s t (part ∷ more) ≡ ok none
  unfolding Tree.is_empty Tree.get SortedMap.get
  get_from-empty_tree s t part more e =
      get_from_missing o laws p sound key s t part more (ground arith)

  pub store_or_collapse_lem :
      (s : State) (t : Tree) (root : Option Hash) (s' : State)
      → Has s
      → IsStorable key t
      → store_or_collapse o p key s t ≡ ok (root, s')
      → Kept s t root s'
  unfolding store_or_collapse
  store_or_collapse_lem s t root s' has good e = elim (Bool-cases (Tree.is_empty t)) [
    | inl gone ↦
        let k = rw gone at e in
        let f : none ≡ root = cc k in
        let g : s ≡ s' = cc k in
        rw (← f, ← g)
          (record {
            extends = λ h u l. l;
            trees = has;
            hashes = λ h q. cc q;
            reads = λ part more r q. sym (get_from-empty_tree s t part more gone) ∙ q;
          })
    | inr full ↦
        let k = rw full at e in
        let ((h, s₁), st, q) = >>=-eq-ok (store_tree_with_key o p key s t) _ k in
        let f : some h ≡ root = cc q in
        let g : s₁ ≡ s' = cc q in
        let d = store_tree_lem o laws p sound key s t h s' has good (rw (← g) st) in
        rw (← f) (record {
          extends = d.extends;
          trees = d.trees;
          hashes = λ k' q'. let u : h ≡ k' = cc q' in rw (← u) d.is_hash;
          reads = λ part more r q'. unfold get_parts in rw d.loads q';
        })
  ]

  -- What `delete_inner` gives: nothing at the path, and what was there elsewhere.
  pub record Deleted (s : State) (current : Hash) (parts : List Bytes) (root : Option Hash)
      (s' : State) : Type 0 where
    pub extends : Ext s s'
    pub trees : Has s'
    pub hashes : (h : Hash) → root ≡ some h → IsHash h
    pub gone : get_below s' root parts ≡ ok none
    pub others :
        (part : Bytes) (more : List Bytes) (r : Option (Mode × Hash))
        → Diverge parts (part ∷ more)
        → get_parts o p key s current (part ∷ more) ≡ ok r
        → get_below s' root (part ∷ more) ≡ ok r

  pub get_parts_loads :
      (s : State) (h : Hash) (t : Tree) (part : Bytes) (more : List Bytes)
      → load_tree_with_key o p key s h ≡ ok t
      → get_parts o p key s h (part ∷ more) ≡ get_from o p key s t (part ∷ more)
  unfolding get_parts
  get_parts_loads s h t part more l = rw l

  pub get_parts_inv :
      (s : State) (h : Hash) (part : Bytes) (more : List Bytes) (r : Option (Mode × Hash))
      → get_parts o p key s h (part ∷ more) ≡ ok r
      → (t : Tree) × (load_tree_with_key o p key s h ≡ ok t)
        × (get_from o p key s t (part ∷ more) ≡ ok r)
  unfolding get_parts
  get_parts_inv s h part more r e = >>=-eq-ok (load_tree_with_key o p key s h) _ e

  pub delete_last :
      (s : State) (current : Hash) (head : Bytes) (root : Option Hash) (s' : State)
      → Has s
      → delete_inner o p key s current (head ∷ []) ≡ ok (root, s')
      → Deleted s current (head ∷ []) root s'
  unfolding delete_inner
  delete_last s current head root s' has e =
      let (t, l, k) = >>=-eq-ok (load_tree_with_key o p key s current) _ e in
      let t' = Tree.remove t head in
      let kept =
        store_or_collapse_lem s t' root s' has (remove-IsStorable key t head (has current t l)) k in
      record {
        extends = kept.extends;
        trees = kept.trees;
        hashes = kept.hashes;
        gone = kept.reads head [] none (
            get_from_missing o laws p sound key s' t' head []
              (get-remove_tree t head head ∙ (rw (beq_refl head))));
        others = λ part more r d g. elim d [
          | inl ne ↦ kept.reads part more r (
              get_from_same o laws p sound key s s' t t' part more r
                (get-remove_tree t head part ∙ (rw (beq-ne head part ne))) kept.extends
                (sym (get_parts_loads s current t part more l) ∙ g))
          | inr (_, nowhere) ↦ absurd nowhere
        ];
      }

  -- Where nothing is deleted, the path led nowhere already.
  pub unchanged :
      (s : State) (current : Hash) (parts : List Bytes)
      → Has s
      → IsHash current
      → get_parts o p key s current parts ≡ ok none
      → Deleted s current parts (some current) s
  unchanged s current parts has ih e = record {
    extends = λ h u l. l;
    trees = has;
    hashes = λ h q. let f : current ≡ h = cc q in rw (← f) ih;
    gone = e;
    others = λ part more r d g. g;
  }

  pub replace_child-IsStorable :
      (t t' : Tree) (head : Bytes) (child : Option Hash)
      → IsStorable key t
      → IsStorableName key head
      → ((h : Hash) → child ≡ some h → IsHash h)
      → replace_child o p key t head child ≡ ok t'
      → IsStorable key t'
  unfolding replace_child
  replace_child-IsStorable t t' head none good name hashes e =
      let f : Tree.remove t head ≡ t' = cc e in rw (← f) (remove-IsStorable key t head good)
  replace_child-IsStorable t t' head (some c) good name hashes e =
      insert-IsStorable key t t' head (record { mode = Mode.tree; hash = c }) good name
        (hashes c refl) e

  pub replace_child_ne :
      (t t' : Tree) (head part : Bytes) (child : Option Hash)
      → replace_child o p key t head child ≡ ok t'
      → head ≢ part
      → Tree.get t' part ≡ Tree.get t part
  unfolding replace_child
  replace_child_ne t t' head part none e ne =
      let f : Tree.remove t head ≡ t' = cc e in
      rw (← f) (get-remove_tree t head part ∙ (rw (beq-ne head part ne)))
  replace_child_ne t t' head part (some c) e ne =
      get-insert_tree t t' head part (record { mode = Mode.tree; hash = c }) e
      ∙ (rw (beq-ne head part ne))

  pub through_replaced :
      (s₁ s' : State) (t t' : Tree) (head next : Bytes) (more : List Bytes) (child : Option Hash)
      (r : Option (Mode × Hash))
      → replace_child o p key t head child ≡ ok t'
      → Ext s₁ s'
      → get_below s₁ child (next ∷ more) ≡ ok r
      → get_from o p key s' t' (head ∷ next ∷ more) ≡ ok r
  unfolding replace_child is_tree
  through_replaced s₁ s' t t' head next more none r e ext g =
      let f : Tree.remove t head ≡ t' = cc e in
      get_from_missing o laws p sound key s' t' head (next ∷ more)
        (rw (← f) (get-remove_tree t head head ∙ (rw (beq_refl head))))
      ∙ g
  through_replaced s₁ s' t t' head next more (some c) r e ext g =
      let (ct, l, k) = get_parts_inv s₁ c next more r g in
      let sub : Entry = record { mode = Mode.tree; hash = c } in
      get_from_child o laws p sound key s' t' ct head next more sub
        (get-insert_tree t t' head head sub e ∙ (rw (beq_refl head))) refl (ext c ct l)
      ∙ get_from_same o laws p sound key s₁ s' ct ct next more r refl ext k
