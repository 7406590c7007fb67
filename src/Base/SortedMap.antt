-- ===== src/Base/SortedMap.antt =====
-- Rust's `BTreeMap<String, V>`: an association list in the order of the keys' bytes.
use Prim.Native.Nat.{Ordering}
use mathlib.Core.Path.{◌≡◌, refl, sym, ◌∙◌}
use mathlib.Core.Option.{Option, none, some}
use mathlib.Core.List.{List, [], ◌∷◌, ◌++◌, append-nil, append_assoc}
use native.Mathlib.Omega.{arith}
use open_memory_protocol.Base.Tests.{if◌then◌else◌}
use open_memory_protocol.Base.Bytes.{
  Bytes, beq, beq_iff, order, order-eq, order_refl, order-lt_flip, order-gt_flip, order-lt_trans,
}

abbrev pub SortedMap {ℓ} : Type ℓ → Type ℓ
SortedMap V = List (Bytes × V)

module _ {ℓ} {V : Type ℓ} where
  unfoldable pub get : Bytes → SortedMap V → Option V
  get k [] = none
  get k ((j, v) ∷ m) = if beq j k then some v else get k m

  unfoldable pub insert : Bytes → V → SortedMap V → SortedMap V
  insert k v [] = (k, v) ∷ []
  insert k v ((j, w) ∷ m) =
      let later = insert k v m in
      elim (order k j) [
        | Ordering.lt ↦ (k, v) ∷ (j, w) ∷ m
        | Ordering.eq ↦ (k, v) ∷ m
        | Ordering.gt ↦ (j, w) ∷ later
      ]

  unfoldable pub remove : Bytes → SortedMap V → SortedMap V
  remove k [] = []
  remove k ((j, w) ∷ m) = let rest = remove k m in if beq j k then rest else (j, w) ∷ rest

  -- Every key of `m` is above `k`.
  abbrev pub Above : Bytes → SortedMap V → Type 0
  Above k [] = Unit
  Above k ((j, _) ∷ m) = (order k j ≡ Ordering.lt) × Above k m

  abbrev pub IsSorted : SortedMap V → Type 0
  IsSorted [] = Unit
  IsSorted ((k, _) ∷ m) = Above k m × IsSorted m

  pub get-insert :
      (k j : Bytes) (v : V) (m : SortedMap V)
      → get j (insert k v m) ≡ (if beq k j then some v else get j m)
  unfolding get insert
  get-insert k j v [] = refl
  get-insert k j v ((i, w) ∷ m) =
      ground (
        arith,
        order-eq k i,
        beq_iff i k,
        beq_iff i j,
        beq_iff k j,
        get-insert k j v m,
        order_refl k,
      )

  pub get-remove :
      (k j : Bytes) (m : SortedMap V) → get j (remove k m) ≡ (if beq k j then none else get j m)
  unfolding get remove
  get-remove k j [] = ground arith
  get-remove k j ((i, w) ∷ m) =
      ground (arith, beq_iff i k, beq_iff i j, beq_iff k j, get-remove k j m)

  Above-trans : (k j : Bytes) (m : SortedMap V) → order k j ≡ Ordering.lt → Above j m → Above k m
  Above-trans k j [] h _ = tt
  Above-trans k j ((i, _) ∷ m) h (p, a) = (order-lt_trans k j i h p, Above-trans k j m h a)

  Above-insert :
      (k j : Bytes) (v : V) (m : SortedMap V)
      → order k j ≡ Ordering.lt
      → Above k m
      → Above k (insert j v m)
  unfolding insert
  Above-insert k j v [] h _ = (h, tt)
  Above-insert k j v ((i, w) ∷ m) h (p, a) = ground (arith, Above-insert k j v m h a)

  pub insert-IsSorted : (k : Bytes) (v : V) (m : SortedMap V) → IsSorted m → IsSorted (insert k v m)
  unfolding insert
  insert-IsSorted k v [] _ = (tt, tt)
  insert-IsSorted k v ((j, w) ∷ m) (a, s) = ground (
    arith,
    order-gt_flip k j,
    order-eq k j,
    Above-trans k j m,
    Above-insert j k v m,
    insert-IsSorted k v m s,
  )

  Above-remove : (k j : Bytes) (m : SortedMap V) → Above k m → Above k (remove j m)
  unfolding remove
  Above-remove k j [] _ = tt
  Above-remove k j ((i, w) ∷ m) (p, a) = ground (arith, Above-remove k j m a)

  pub remove-IsSorted : (k : Bytes) (m : SortedMap V) → IsSorted m → IsSorted (remove k m)
  unfolding remove
  remove-IsSorted k [] _ = tt
  remove-IsSorted k ((j, w) ∷ m) (a, s) =
      ground (arith, Above-remove j k m a, remove-IsSorted k m s)

  -- Every key of `m` is below `k`.
  abbrev Below : Bytes → SortedMap V → Type 0
  Below k [] = Unit
  Below k ((j, _) ∷ m) = (order j k ≡ Ordering.lt) × Below k m

  insert_last : (k : Bytes) (v : V) (m : SortedMap V) → Below k m → insert k v m ≡ m ++ (k, v) ∷ []
  unfolding insert
  insert_last k v [] _ = refl
  insert_last k v ((j, w) ∷ m) (p, b) = rw (order-lt_flip j k p, insert) (rw (insert_last k v m b))

  -- Every key of `m` is below every key of `n`.
  abbrev Precedes : SortedMap V → SortedMap V → Type 0
  Precedes m [] = Unit
  Precedes m ((k, _) ∷ n) = Below k m × Precedes m n

  Below-snoc :
      (k j : Bytes) (v : V) (m : SortedMap V)
      → Below j m
      → order k j ≡ Ordering.lt
      → Below j (m ++ (k, v) ∷ [])
  Below-snoc k j v [] _ p = (p, tt)
  Below-snoc k j v ((i, _) ∷ m) (q, b) p = (q, Below-snoc k j v m b p)

  Precedes-snoc :
      (k : Bytes) (v : V) (m n : SortedMap V)
      → Precedes m n
      → Above k n
      → Precedes (m ++ (k, v) ∷ []) n
  Precedes-snoc k v m [] _ _ = tt
  Precedes-snoc k v m ((j, _) ∷ n) (b, p) (q, a) =
      (Below-snoc k j v m b q, Precedes-snoc k v m n p a)

  -- Insertion of the entries one after the other.
  unfoldable pub insert_all : SortedMap V → SortedMap V → SortedMap V
  insert_all m [] = m
  insert_all m ((k, v) ∷ n) = insert_all (insert k v m) n

  insert_all-append : (m n : SortedMap V) → Precedes m n → IsSorted n → insert_all m n ≡ m ++ n
  unfolding insert_all
  insert_all-append m [] _ _ = sym (append-nil m)
  insert_all-append m ((k, v) ∷ n) (b, p) (a, s) = rw (insert_last k v m b) (
      insert_all-append (m ++ (k, v) ∷ []) n (Precedes-snoc k v m n p a) s
      ∙ append_assoc m ((k, v) ∷ []) n)

  Precedes-nil : (n : SortedMap V) → Precedes [] n
  Precedes-nil [] = tt
  Precedes-nil (_ ∷ n) = (tt, Precedes-nil n)

  -- Inserting the entries of a sorted map in order builds the map.
  pub insert_all_of_IsSorted : (n : SortedMap V) → IsSorted n → insert_all [] n ≡ n
  insert_all_of_IsSorted n s = insert_all-append [] n (Precedes-nil n) s
