-- ===== src/Paths/Loading/Storable.antt =====
-- Trees that the codec of crates/omp-core/src/tree.rs can hold, plain or sealed.
use open_memory_protocol.Base.{
  Bool-cases, [], ◌∷◌, Bool, true, false, Option, none, some, ok, >>=-eq-ok, All, ◌≡◌, inl, inr,
  Ordering, if◌then◌else◌,
}
use open_memory_protocol.Base.Bytes.{Bytes, beq, order}
use open_memory_protocol.Base.SortedMap
use open_memory_protocol.Base.SortedMap.{
  SortedMap, IsSorted, get-insert, get-remove, insert-IsSorted, remove-IsSorted,
}
use open_memory_protocol.Hash.{IsHash}
use open_memory_protocol.Tree
use open_memory_protocol.Tree.{
  Mode, Entry, Tree, empty, parse_with_path_key, serialize_with_path_key, validate_name,
}
use open_memory_protocol.Tree.RoundTrip.{IsName}
use open_memory_protocol.Tree.Sealed.{IsSealable}

-- A name that a tree can hold in the form in use.
abbrev pub IsStorableName : Option Bytes → Bytes → Type 0
IsStorableName none name = IsName name
IsStorableName (some _) name = IsSealable name

abbrev pub IsStorableEntry : Option Bytes → Bytes × Entry → Type 0
IsStorableEntry key e = IsStorableName key e.0 × IsHash e.1.hash

pub record IsStorable (key : Option Bytes) (t : Tree) : Type 0 where
  pub sorted : IsSorted t.entries
  pub entries : All (IsStorableEntry key) t.entries

pub empty-IsStorable : (key : Option Bytes) → IsStorable key empty
empty-IsStorable key = record { sorted = tt; entries = tt }

All-insert :
    (P : Bytes × Entry → Type 0) (k : Bytes) (e : Entry) (m : SortedMap Entry)
    → P (k, e)
    → All P m
    → All P (SortedMap.insert k e m)
unfolding SortedMap.insert
All-insert P k e [] q _ = (q, tt)
All-insert P k e ((j, w) ∷ m) q (r, h) = go (order k j) (All-insert P k e m q h)
  where
    go :
        (c : Ordering)
        → All P (SortedMap.insert k e m)
        → All P (elim c [
          | Ordering.lt ↦ (k, e) ∷ (j, w) ∷ m
          | Ordering.eq ↦ (k, e) ∷ m
          | Ordering.gt ↦ (j, w) ∷ SortedMap.insert k e m
        ])
    go Ordering.lt ih = (q, (r, h))
    go Ordering.eq ih = (q, h)
    go Ordering.gt ih = (r, ih)

All-remove :
    (P : Bytes × Entry → Type 0) (k : Bytes) (m : SortedMap Entry)
    → All P m
    → All P (SortedMap.remove k m)
unfolding SortedMap.remove
All-remove P k [] _ = tt
All-remove P k ((j, w) ∷ m) (r, h) = go (beq j k) (All-remove P k m h)
  where
    go :
        (b : Bool)
        → All P (SortedMap.remove k m)
        → All P (if b then SortedMap.remove k m else (j, w) ∷ SortedMap.remove k m)
    go true ih = ih
    go false ih = (r, ih)

pub get-IsHash :
    (key : Option Bytes) (t : Tree) (name : Bytes) (e : Entry)
    → IsStorable key t
    → Tree.get t name ≡ some e
    → IsHash e.hash
unfolding Tree.get SortedMap.get
get-IsHash key t name e good h = go t.entries good.entries h
  where
    go :
        (m : SortedMap Entry)
        → All (IsStorableEntry key) m
        → SortedMap.get name m ≡ some e
        → IsHash e.hash
    go [] _ k = cc k
    go ((j, w) ∷ m) ((_, hash), g) k = elim (Bool-cases (beq j name)) [
      | inl y ↦ let f : some w ≡ some e = rw y at k in let q : w ≡ e = cc f in rw (← q) hash
      | inr n ↦ go m g (rw n at k)
    ]

module _ (key : Option Bytes) where
  pub insert-IsStorable :
      (t t' : Tree) (name : Bytes) (e : Entry)
      → IsStorable key t
      → IsStorableName key name
      → IsHash e.hash
      → Tree.insert t name e ≡ ok t'
      → IsStorable key t'
  unfolding Tree.insert
  insert-IsStorable t t' name e g n h i =
      let (_, _, k) = >>=-eq-ok (validate_name name) _ i in
      let f : record { entries = SortedMap.insert name e t.entries } ≡ t' = cc k in
      rw (← f) (record {
        sorted = insert-IsSorted name e t.entries g.sorted;
        entries = All-insert (IsStorableEntry key) name e t.entries (n, h) g.entries;
      })

  pub remove-IsStorable :
      (t : Tree) (name : Bytes) → IsStorable key t → IsStorable key (Tree.remove t name)
  unfolding Tree.remove
  remove-IsStorable t name g = record {
    sorted = remove-IsSorted name t.entries g.sorted;
    entries = All-remove (IsStorableEntry key) name t.entries g.entries;
  }

pub get-insert_tree :
    (t t' : Tree) (name j : Bytes) (e : Entry)
    → Tree.insert t name e ≡ ok t'
    → Tree.get t' j ≡ (if beq name j then some e else Tree.get t j)
unfolding Tree.insert Tree.get
get-insert_tree t t' name j e i =
    let (_, _, k) = >>=-eq-ok (validate_name name) _ i in
    let f : record { entries = SortedMap.insert name e t.entries } ≡ t' = cc k in
    rw (← f) (get-insert name j e t.entries)

pub get-remove_tree :
    (t : Tree) (name j : Bytes)
    → Tree.get (Tree.remove t name) j ≡ (if beq name j then none else Tree.get t j)
unfolding Tree.remove Tree.get
get-remove_tree t name j = get-remove name j t.entries
