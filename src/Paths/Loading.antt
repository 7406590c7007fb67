-- ===== src/Paths/Loading.antt =====
-- What a store gives back after a tree was stored in it.
mod Storable
pub use Storable.*
use open_memory_protocol.Base.{
  Bool-cases, Option-cases, [], ◌∷◌, List, Bool, true, false, Option, none, some, ok, >>=-eq-ok,
  reject_if, ok_or, ok_or-eq-ok, All, ◌≡◌, refl, sym, ◌∙◌, inl, inr, arith, Ordering, if◌then◌else◌,
  not,
}
use open_memory_protocol.Base.Bytes.{Bytes, codes, beq, beq_refl, beq_iff, order}
use open_memory_protocol.Base.SortedMap
use open_memory_protocol.Base.SortedMap.{
  SortedMap, IsSorted, get-insert, get-remove, insert-IsSorted, remove-IsSorted,
}
use open_memory_protocol.Error.{OmpError}
use open_memory_protocol.Hash.{Hash, IsHash}
use open_memory_protocol.Object
use open_memory_protocol.Object.{ObjectType}
use open_memory_protocol.Crypto.{Primitives}
use open_memory_protocol.Crypto.Sealing.{IsSound}
use open_memory_protocol.Tree
use open_memory_protocol.Tree.{
  Mode, Entry, Tree, empty, parse_with_path_key, serialize_with_path_key, validate_name,
}
use open_memory_protocol.Tree.RoundTrip.{IsName, parse-serialize}
use open_memory_protocol.Tree.Sealed.{IsSealable, parse-serialize_with_path_key}
use open_memory_protocol.Store.{ObjectStore, IsContentStore}
use open_memory_protocol.Paths.{is_tree, load_tree_with_key, store_tree_with_key, get_from}

module _ (o : ObjectStore) (p : Primitives) (key : Option Bytes) where
  open o use {State}

  -- Every tree that loads can be stored again.
  abbrev pub HasTrees : State → Type 0
  HasTrees s = (h : Hash) (t : Tree) → load_tree_with_key o p key s h ≡ ok t → IsStorable key t

  -- Every tree that loads from `s` loads from `s'`.
  abbrev pub Extends : State → State → Type 0
  Extends s s' =
      (h : Hash) (t : Tree)
      → load_tree_with_key o p key s h ≡ ok t
      → load_tree_with_key o p key s' h ≡ ok t

module _ (o : ObjectStore) (laws : IsContentStore o) (p : Primitives) (sound : IsSound p)
    (key : Option Bytes) where
  open o use {State}

  parse-serialize_storable :
      (k : Option Bytes) (t : Tree) (bytes : Bytes)
      → IsStorable k t
      → serialize_with_path_key p k t ≡ ok bytes
      → parse_with_path_key p k bytes ≡ ok t
  unfolding serialize_with_path_key
  parse-serialize_storable none t bytes g h =
      let f : Tree.serialize t ≡ bytes = cc h in
      rw (← f) (parse-serialize p none t (record { sorted = g.sorted; good = g.entries }))
  parse-serialize_storable (some k) t bytes g h =
      (parse-serialize_with_path_key p sound k t bytes g.sorted g.entries h).0

  load_found :
      (s : State) (h : Hash) (t : Tree)
      → load_tree_with_key o p key s h ≡ ok t
      → (content : Bytes) × (o.get s h ≡ ok (some (codes "tree", content)))
        × (parse_with_path_key p key content ≡ ok t)
  unfolding load_tree_with_key
  load_found s h t e =
      let (found, e₁, k₁) = >>=-eq-ok (o.get s h) _ e in
      let ((type, content), e₂, k₂) = >>=-eq-ok (ok_or found OmpError.not_found) _ k₁ in
      let (_, e₃, k₃) =
        >>=-eq-ok (reject_if (not (beq type (codes "tree"))) OmpError.corrupt) _ k₂ in
      let f : found ≡ some (type, content) = ok_or-eq-ok _ _ e₂ in
      let g : type ≡ codes "tree" = ground (arith, beq_iff type (codes "tree")) in
      (content, rw (e₁, f, g), k₃)

  load_of_found :
      (s : State) (h : Hash) (t : Tree) (content : Bytes)
      → o.get s h ≡ ok (some (codes "tree", content))
      → parse_with_path_key p key content ≡ ok t
      → load_tree_with_key o p key s h ≡ ok t
  unfolding load_tree_with_key
  load_of_found s h t content e f = rw (e, beq_refl (codes "tree"), f)

  -- What storing a tree does to the store.
  pub record Stored (s : State) (t : Tree) (h : Hash) (s' : State) : Type 0 where
    pub is_hash : IsHash h
    pub loads : load_tree_with_key o p key s' h ≡ ok t
    pub extends : Extends o p key s s'
    pub trees : HasTrees o p key s'

  pub store_tree_lem :
      (s : State) (t : Tree) (h : Hash) (s' : State)
      → HasTrees o p key s
      → IsStorable key t
      → store_tree_with_key o p key s t ≡ ok (h, s')
      → Stored s t h s'
  unfolding store_tree_with_key Object.as_str
  store_tree_lem s t h s' trees g e =
      let (bytes, e₁, e₂) = >>=-eq-ok (serialize_with_path_key p key t) _ e in
      let parsed = parse-serialize_storable key t bytes g e₁ in
      record {
        is_hash = laws.put_hash s s' _ bytes h e₂;
        loads = load_of_found s' h t bytes (laws.get-put s s' _ bytes h e₂) parsed;
        extends = λ k u l.
            let (content, f, q) = load_found s k u l in
            load_of_found s' k u content (laws.get_keeps s s' _ bytes h k _ e₂ f) q;
        trees = λ k u l.
            let (content, f, q) = load_found s' k u l in
            elim (laws.get_only s s' _ bytes h k _ e₂ f) [
              | inl same ↦
                  let c : content ≡ bytes = cc same in let v : u ≡ t = cc (q, parsed, c) in rw v g
              | inr old ↦ trees k u (load_of_found s k u content old q)
            ];
      }

  pub get_from_missing :
      (s : State) (t : Tree) (part : Bytes) (more : List Bytes)
      → Tree.get t part ≡ none
      → get_from o p key s t (part ∷ more) ≡ ok none
  unfolding get_from
  get_from_missing s t part [] e = rw e
  get_from_missing s t part (_ ∷ _) e = rw e

  pub get_from_file :
      (s : State) (t : Tree) (part next : Bytes) (more : List Bytes) (e : Entry)
      → Tree.get t part ≡ some e
      → is_tree e.mode ≡ false
      → get_from o p key s t (part ∷ next ∷ more) ≡ ok none
  unfolding get_from
  get_from_file s t part next more e f g = rw (f, g)

  pub get_from_last :
      (s : State) (t : Tree) (part : Bytes) (e : Entry)
      → Tree.get t part ≡ some e
      → get_from o p key s t (part ∷ []) ≡ ok (some (e.mode, e.hash))
  unfolding get_from
  get_from_last s t part e f = rw f

  pub get_from_child :
      (s : State) (t c : Tree) (part next : Bytes) (more : List Bytes) (e : Entry)
      → Tree.get t part ≡ some e
      → is_tree e.mode ≡ true
      → load_tree_with_key o p key s e.hash ≡ ok c
      → get_from o p key s t (part ∷ next ∷ more) ≡ get_from o p key s c (next ∷ more)
  unfolding get_from
  get_from_child s t c part next more e f g l = rw (f, g, l)

  pub get_from_through :
      (s : State) (t : Tree) (part next : Bytes) (more : List Bytes) (e : Entry)
      (r : Option (Mode × Hash))
      → Tree.get t part ≡ some e
      → is_tree e.mode ≡ true
      → get_from o p key s t (part ∷ next ∷ more) ≡ ok r
      → (c : Tree) × (load_tree_with_key o p key s e.hash ≡ ok c)
        × (get_from o p key s c (next ∷ more) ≡ ok r)
  unfolding get_from
  get_from_through s t part next more e r f g h =
      >>=-eq-ok (load_tree_with_key o p key s e.hash) _ (rw (f, g) at h)

  -- A walk that starts with the same entry goes the same way in a store with more trees.
  pub get_from_same :
      (s s' : State) (t t' : Tree) (part : Bytes) (more : List Bytes) (r : Option (Mode × Hash))
      → Tree.get t' part ≡ Tree.get t part
      → Extends o p key s s'
      → get_from o p key s t (part ∷ more) ≡ ok r
      → get_from o p key s' t' (part ∷ more) ≡ ok r
  get_from_same s s' t t' part [] r same ext h = unfold get_from in rw same (unfold get_from in h)
  get_from_same s s' t t' part (next ∷ more) r same ext h = elim (Option-cases (Tree.get t part)) [
    | inl e ↦
        get_from_missing s' t' part (next ∷ more) (same ∙ e)
        ∙ sym (get_from_missing s t part (next ∷ more) e)
        ∙ h
    | inr (entry, e) ↦ elim (Bool-cases (is_tree entry.mode)) [
      | inl f ↦
          let (c, l, k) = get_from_through s t part next more entry r e f h in
          get_from_child s' t' c part next more entry (same ∙ e) f (ext entry.hash c l)
          ∙ get_from_same s s' c c next more r refl ext k
      | inr f ↦
          get_from_file s' t' part next more entry (same ∙ e) f
          ∙ sym (get_from_file s t part next more entry e f)
          ∙ h
    ]
  ]

  pub get_from-empty :
      (s : State) (part : Bytes) (more : List Bytes)
      → get_from o p key s empty (part ∷ more) ≡ ok none
  unfolding get_from Tree.get SortedMap.get
  get_from-empty s part [] = refl
  get_from-empty s part (_ ∷ _) = refl
