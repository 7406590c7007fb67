-- ===== src/Base/HashSet.antt =====
-- Rust's `HashSet` of byte strings, as a list, with membership and insertion.
use Prim.Native.Nat.{ℕ, suc, ◌≤◌, ◌<◌}
use open_memory_protocol.Base.Lists.{length}
use open_memory_protocol.Base.Tests.{if◌then◌else◌, Bool-cases}
use open_memory_protocol.Base.Bytes.{Bytes, beq, beq_refl, beq_iff}
use mathlib.Core.Path.{◌≡◌, refl}
use mathlib.Core.Logic.{◌⊎◌, inl, inr}
use mathlib.Core.Bool.{Bool, true, false}
use mathlib.Core.List.{List, [], ◌∷◌}
use native.Mathlib.Omega.{arith}

abbrev pub HashSet : Type 0
HashSet = List Bytes

abbrev pub has : Bytes → HashSet → Bool
has h [] = false
has h (k ∷ set) = if beq h k then true else has h set

unfoldable pub insert : Bytes → HashSet → HashSet
insert h set = if has h set then set else h ∷ set

-- Membership, as a proposition.
abbrev pub In : Bytes → HashSet → Type 0
In h set = has h set ≡ true

pub has-insert : (h : Bytes) (set : HashSet) → has h (insert h set) ≡ true
unfolding insert
has-insert h set = elim (Bool-cases (has h set)) [
  | inl y ↦ rw (y, y) refl
  | inr n ↦ rw (n, beq_refl h) refl
]

pub has-insert_keeps :
    (k h : Bytes) (set : HashSet) → has k set ≡ true → has k (insert h set) ≡ true
unfolding insert
has-insert_keeps k h set q = elim (Bool-cases (has h set)) [
  | inl y ↦ rw y q
  | inr n ↦ rw (n, q) (ground arith)
]

pub has-insert_only :
    (k h : Bytes) (set : HashSet) → has k (insert h set) ≡ true → (k ≡ h) ⊎ (has k set ≡ true)
unfolding insert
has-insert_only k h set q = elim (Bool-cases (has h set)) [
  | inl y ↦ inr (rw y at q)
  | inr n ↦
      (let q' = rw n at q in
        elim (Bool-cases (beq k h)) [ inl e ↦ inl ((beq_iff k h).0 e) | inr d ↦ inr (rw d at q') ])
]

-- How many of `known` are not in the set.
unfoldable pub missing : List Bytes → HashSet → ℕ
missing [] set = 0
missing (k ∷ known) set = let rest = missing known set in if has k set then rest else suc rest

pub missing-length : (known : List Bytes) (set : HashSet) → missing known set ≤ length known
unfolding missing
missing-length [] set = omega arith
missing-length (k ∷ known) set = ground (arith, missing-length known set)

pub missing_mono :
    (known : List Bytes) (a b : HashSet)
    → ((h : Bytes) → has h a ≡ true → has h b ≡ true)
    → missing known b ≤ missing known a
unfolding missing
missing_mono [] a b sub = omega arith
missing_mono (k ∷ known) a b sub = ground (arith, missing_mono known a b sub, sub k)

pub missing-insert :
    (known : List Bytes) (h : Bytes) (set : HashSet)
    → has h known ≡ true
    → has h set ≡ false
    → missing known (insert h set) < missing known set
unfolding missing
missing-insert [] h set p n = cc p
missing-insert (k ∷ known) h set p n =
    let less = missing_mono known set (insert h set) (λ j. has-insert_keeps j h set) in
    elim (Bool-cases (beq h k)) [
      | inl y ↦
          let same = (beq_iff h k).0 y in
          let before : has k set ≡ false = rw (← same) n in
          let after : has k (insert h set) ≡ true = rw (← same) (has-insert h set) in
          rw (before, after) (omega (arith, less))
      | inr d ↦ ground (arith, missing-insert known h set (rw d at p) n, has-insert_keeps k h set)
    ]
