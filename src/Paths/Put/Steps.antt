-- ===== src/Paths/Put/Steps.antt =====
-- The steps of putting an entry at a path, one tree after the other.
use open_memory_protocol.Base.{
  [], ◌∷◌, List, Option, none, some, ok, >>=-eq-ok, ◌≡◌, ◌≢◌, refl, sym, ◌∙◌, ◌⊎◌, inl, inr,
  Bool-cases, Option-cases,
}
use open_memory_protocol.Base.Bytes.{Bytes, beq_refl, beq-ne}
use open_memory_protocol.Hash.{Hash, IsHash}
use open_memory_protocol.Crypto.{Primitives}
use open_memory_protocol.Crypto.Sealing.{IsSound}
use open_memory_protocol.Tree
use open_memory_protocol.Tree.{Mode, Entry, Tree, empty}
use open_memory_protocol.Store.{ObjectStore, IsContentStore}
use open_memory_protocol.Paths.{
  is_tree, load_tree_with_key, get_from, open_tree, child_of, put_inner,
}
use open_memory_protocol.Paths.Loading.{
  IsStorableName, IsStorable, empty-IsStorable, insert-IsStorable, get-insert_tree, HasTrees,
  Extends, store_tree_lem, get_from_missing, get_from_last, get_from_child, get_from_through,
  get_from_same, get_from-empty,
}

-- Two paths that part ways at a component: neither leads through the other.
abbrev pub Diverge : List Bytes → List Bytes → Type 0
Diverge [] qs = ⊥
Diverge (_ ∷ _) [] = ⊥
Diverge (a ∷ ps) (b ∷ qs) = (a ≢ b) ⊎ ((a ≡ b) × Diverge ps qs)

module _ (o : ObjectStore) (laws : IsContentStore o) (p : Primitives) (sound : IsSound p)
    (key : Option Bytes) (entry : Entry) (entry_hash : IsHash entry.hash) where
  open o use {State}

  abbrev pub Has : State → Type 0
  Has = HasTrees o p key

  abbrev pub Ext : State → State → Type 0
  Ext = Extends o p key

  -- The new root tree, what is found in it, and what stays.
  pub record Done (s : State) (root : Option Hash) (parts : List Bytes) (h : Hash) (s' : State)
      : Type 0 where
    pub tree : Tree
    pub is_hash : IsHash h
    pub loads : load_tree_with_key o p key s' h ≡ ok tree
    pub extends : Ext s s'
    pub trees : Has s'
    pub found : get_from o p key s' tree parts ≡ ok (some (entry.mode, entry.hash))
    pub others :
        (old : Tree)
        → open_tree o p key s root ≡ ok old
        → (part : Bytes) (more : List Bytes) (r : Option (Mode × Hash))
        → Diverge parts (part ∷ more)
        → get_from o p key s old (part ∷ more) ≡ ok r
        → get_from o p key s' tree (part ∷ more) ≡ ok r

  pub open_tree-IsStorable :
      (s : State) (root : Option Hash) (t : Tree)
      → Has s
      → open_tree o p key s root ≡ ok t
      → IsStorable key t
  unfolding open_tree
  open_tree-IsStorable s none t has e = let f : empty ≡ t = cc e in rw (← f) (empty-IsStorable key)
  open_tree-IsStorable s (some h) t has e = has h t e

  pub stays_beside :
      (s s' : State) (t t' : Tree) (head part : Bytes) (e : Entry) (more : List Bytes)
      (r : Option (Mode × Hash))
      → Tree.insert t head e ≡ ok t'
      → head ≢ part
      → Ext s s'
      → get_from o p key s t (part ∷ more) ≡ ok r
      → get_from o p key s' t' (part ∷ more) ≡ ok r
  stays_beside s s' t t' head part e more r i ne ext k =
      get_from_same o laws p sound key s s' t t' part more r
        (get-insert_tree t t' head part e i ∙ (rw (beq-ne head part ne))) ext k

  pub put_last :
      (s : State) (root : Option Hash) (head : Bytes) (h : Hash) (s' : State)
      → Has s
      → IsStorableName key head
      → put_inner o p key s root (head ∷ []) entry ≡ ok (h, s')
      → Done s root (head ∷ []) h s'
  unfolding put_inner
  put_last s root head h s' has name e =
      let (t, e₁, k₁) = >>=-eq-ok (open_tree o p key s root) _ e in
      let (t', e₂, k₂) = >>=-eq-ok (Tree.insert t head entry) _ k₁ in
      let good =
        insert-IsStorable key t t' head entry (open_tree-IsStorable s root t has e₁) name entry_hash
          e₂ in
      let st = store_tree_lem o laws p sound key s t' h s' has good k₂ in
      record {
        tree = t';
        is_hash = st.is_hash;
        loads = st.loads;
        extends = st.extends;
        trees = st.trees;
        found =
            get_from_last o laws p sound key s' t' head entry
              (get-insert_tree t t' head head entry e₂ ∙ (rw (beq_refl head)));
        others = λ old eo part more r d k.
            let f : t ≡ old = cc (e₁, eo) in
            elim d [
              | inl ne ↦ stays_beside s s' t t' head part entry more r e₂ ne st.extends (rw f k)
              | inr (_, nowhere) ↦ absurd nowhere
            ];
      }

  abbrev pub subtree : Hash → Entry
  subtree h = record { mode = Mode.tree; hash = h }

  -- The walk through the replaced child of a tree.
  pub through_subtree :
      (s₁ s' : State) (t t' c : Tree) (head next : Bytes) (h : Hash) (more : List Bytes)
      (r : Option (Mode × Hash))
      → Tree.insert t head (subtree h) ≡ ok t'
      → load_tree_with_key o p key s₁ h ≡ ok c
      → Ext s₁ s'
      → get_from o p key s₁ c (next ∷ more) ≡ ok r
      → get_from o p key s' t' (head ∷ next ∷ more) ≡ ok r
  unfolding is_tree
  through_subtree s₁ s' t t' c head next h more r i l ext k =
      get_from_child o laws p sound key s' t' c head next more (subtree h)
        (get-insert_tree t t' head head (subtree h) i ∙ (rw (beq_refl head))) refl (ext h c l)
      ∙ get_from_same o laws p sound key s₁ s' c c next more r refl ext k

  -- What a diverging path below the same first part leads to, in the old child.
  pub old_below :
      (s : State) (t : Tree) (head next : Bytes) (more : List Bytes) (child : Option Hash)
      (r : Option (Mode × Hash))
      → child_of o p key (Tree.get t head) ≡ ok child
      → get_from o p key s t (head ∷ next ∷ more) ≡ ok r
      → (c : Tree) × (open_tree o p key s child ≡ ok c)
        × (get_from o p key s c (next ∷ more) ≡ ok r)
  unfolding child_of open_tree
  old_below s t head next more child r e k = elim (Option-cases (Tree.get t head)) [
    | inl none_there ↦
        let f : none ≡ child = cc (rw none_there at e) in
        (
          empty,
          rw (← f),
          get_from-empty o laws p sound key s next more
              ∙ sym (get_from_missing o laws p sound key s t head (next ∷ more) none_there)
              ∙ k,
        )
    | inr (x, there) ↦ elim (Bool-cases (is_tree x.mode)) [
      | inl dir ↦
          let f : some x.hash ≡ child = cc (rw (there, dir) at e) in
          let (c, l, q) = get_from_through o laws p sound key s t head next more x r there dir k in
          (c, rw (← f) l, q)
      | inr file ↦ cc (rw (there, file) at e)
    ]
  ]

  pub stays_below :
      (s s₁ s' : State) (t t' : Tree) (head next part : Bytes) (more rest : List Bytes)
      (child : Option Hash) (h₁ : Hash) (r : Option (Mode × Hash))
      → child_of o p key (Tree.get t head) ≡ ok child
      → Done s child (next ∷ more) h₁ s₁
      → Tree.insert t head (subtree h₁) ≡ ok t'
      → Ext s₁ s'
      → head ≡ part
      → Diverge (next ∷ more) rest
      → get_from o p key s t (part ∷ rest) ≡ ok r
      → get_from o p key s' t' (part ∷ rest) ≡ ok r
  stays_below s s₁ s' t t' head next part more [] child h₁ r e₂ d e₄ ext same dv k = absurd dv
  stays_below s s₁ s' t t' head next part more (c ∷ qs) child h₁ r e₂ d e₄ ext same dv k =
      let (oc, l, q) = old_below s t head c qs child r e₂ (rw same k) in
      rw (← same) (
        through_subtree s₁ s' t t' d.tree head c h₁ qs r e₄ d.loads ext (d.others oc l c qs r dv q))

  pub put_below :
      (s : State) (root : Option Hash) (head next : Bytes) (more : List Bytes) (h : Hash)
      (s' : State)
      → Has s
      → IsStorableName key head
      → ((child : Option Hash) (h₁ : Hash) (s₁ : State)
          → put_inner o p key s child (next ∷ more) entry ≡ ok (h₁, s₁)
          → Done s child (next ∷ more) h₁ s₁)
      → put_inner o p key s root (head ∷ next ∷ more) entry ≡ ok (h, s')
      → Done s root (head ∷ next ∷ more) h s'
  unfolding put_inner
  put_below s root head next more h s' has name ih e =
      let (t, e₁, k₁) = >>=-eq-ok (open_tree o p key s root) _ e in
      let (child, e₂, k₂) = >>=-eq-ok (child_of o p key (Tree.get t head)) _ k₁ in
      let ((h₁, s₁), e₃, k₃) = >>=-eq-ok (put_inner o p key s child (next ∷ more) entry) _ k₂ in
      let d = ih child h₁ s₁ e₃ in
      let (t', e₄, k₄) = >>=-eq-ok (Tree.insert t head (subtree h₁)) _ k₃ in
      let good =
        insert-IsStorable key t t' head (subtree h₁) (open_tree-IsStorable s root t has e₁) name
          d.is_hash e₄ in
      let st = store_tree_lem o laws p sound key s₁ t' h s' d.trees good k₄ in
      let ext : Ext s s' = λ k u l. st.extends k u (d.extends k u l) in
      record {
        tree = t';
        is_hash = st.is_hash;
        loads = st.loads;
        extends = ext;
        trees = st.trees;
        found = through_subtree s₁ s' t t' d.tree head next h₁ more _ e₄ d.loads st.extends d.found;
        others = λ old eo part rest r dv k.
            let f : t ≡ old = cc (e₁, eo) in
            elim dv [
              | inl ne ↦ stays_beside s s' t t' head part (subtree h₁) rest r e₄ ne ext (rw f k)
              | inr (same, below) ↦
                  stays_below s s₁ s' t t' head next part more rest child h₁ r e₂ d e₄ st.extends
                    same below (rw f k)
            ];
      }
