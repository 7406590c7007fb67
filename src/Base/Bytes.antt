-- ===== src/Base/Bytes.antt =====
-- Rust's `&str` and `&[u8]` as lists of byte values: equality, the byte-wise order, splitting.
use Prim.Native.Nat.{ℕ, compare, Ordering}
use Prim.Native.Char.{code}
use Prim.Native.String.{String}
use mathlib.Core.Path.{◌≡◌, refl, sym, ◌∙◌}
use mathlib.Core.Logic.{◌≢◌, ◌↔◌, inl, inr}
use mathlib.Core.Bool.{Bool, true, false, ◌&&◌, ◌||◌, false≢true}
use mathlib.Core.Option.{Option, none, some}
use mathlib.Core.List.{List, [], ◌∷◌, ◌++◌}
use native.Mathlib.Omega.{arith}
use open_memory_protocol.Base.Tests.{
  ◌==◌, if◌then◌else◌, ==_iff, ==-ne, ==-refl, Bool-cases, Option-cases,
}
use open_memory_protocol.Base.Lists.{All}

abbrev pub Bytes : Type 0
Bytes = List ℕ

-- The code points of a literal: its bytes, since every literal here is ASCII.
abbrev pub codes : String → Bytes
codes String.[] = []
codes (String.◌∷◌ c s) = code c ∷ codes s

unfoldable pub beq : Bytes → Bytes → Bool
beq [] [] = true
beq [] (_ ∷ _) = false
beq (_ ∷ _) [] = false
beq (a ∷ s) (b ∷ t) = (a == b) && beq s t

pub beq→eq : (s t : Bytes) → beq s t ≡ true → s ≡ t
unfolding beq
beq→eq [] [] h = refl
beq→eq [] (_ ∷ _) h = cc
beq→eq (_ ∷ _) [] h = cc
beq→eq (a ∷ s) (b ∷ t) h = ground (arith, beq→eq s t)

pub beq_refl : (s : Bytes) → beq s s ≡ true
unfolding beq
beq_refl [] = refl
beq_refl (a ∷ s) = ground (arith, beq_refl s)

pub beq_iff : (s t : Bytes) → (beq s t ≡ true) ↔ (s ≡ t)
beq_iff s t = (beq→eq s t, λ e. rw e (beq_refl t))

pub beq-ne : (s t : Bytes) → s ≢ t → beq s t ≡ false
beq-ne s t h = elim (Bool-cases (beq s t)) [ inl e ↦ absurd (h (beq→eq s t e)) | inr e ↦ e ]

-- `Ord` on `str` and on `[u8]`: the order by bytes.
unfoldable pub order : Bytes → Bytes → Ordering
order [] [] = Ordering.eq
order [] (_ ∷ _) = Ordering.lt
order (_ ∷ _) [] = Ordering.gt
order (a ∷ s) (b ∷ t) = elim (compare a b) [
  | Ordering.lt ↦ Ordering.lt
  | Ordering.eq ↦ order s t
  | Ordering.gt ↦ Ordering.gt
]

pub order-eq : (s t : Bytes) → order s t ≡ Ordering.eq → s ≡ t
unfolding order
order-eq [] [] h = refl
order-eq [] (_ ∷ _) h = cc
order-eq (_ ∷ _) [] h = cc
order-eq (a ∷ s) (b ∷ t) h = ground (arith, order-eq s t)

pub order_refl : (s : Bytes) → order s s ≡ Ordering.eq
unfolding order
order_refl [] = refl
order_refl (a ∷ s) = ground (arith, order_refl s)

pub order-lt_flip : (s t : Bytes) → order s t ≡ Ordering.lt → order t s ≡ Ordering.gt
unfolding order
order-lt_flip [] [] h = cc
order-lt_flip [] (_ ∷ _) h = refl
order-lt_flip (_ ∷ _) [] h = cc
order-lt_flip (a ∷ s) (b ∷ t) h = ground (arith, order-lt_flip s t)

pub order-gt_flip : (s t : Bytes) → order s t ≡ Ordering.gt → order t s ≡ Ordering.lt
unfolding order
order-gt_flip [] [] h = cc
order-gt_flip [] (_ ∷ _) h = cc
order-gt_flip (_ ∷ _) [] h = refl
order-gt_flip (a ∷ s) (b ∷ t) h = ground (arith, order-gt_flip s t)

pub order-lt_trans :
    (s t u : Bytes) → order s t ≡ Ordering.lt → order t u ≡ Ordering.lt → order s u ≡ Ordering.lt
unfolding order
order-lt_trans [] [] u h k = cc
order-lt_trans [] (_ ∷ _) [] h k = cc
order-lt_trans [] (_ ∷ _) (_ ∷ _) h k = refl
order-lt_trans (_ ∷ _) [] u h k = cc
order-lt_trans (_ ∷ _) (_ ∷ _) [] h k = cc
order-lt_trans (a ∷ s) (b ∷ t) (c ∷ u) h k = ground (arith, order-lt_trans s t u)

-- `str::split_once` at an ASCII character.
unfoldable pub split_once : ℕ → Bytes → Option (Bytes × Bytes)
split_once d [] = none
split_once d (c ∷ s) =
    if c == d
    then some ([], s)
    else elim (split_once d s) [ none ↦ none | some (l, r) ↦ some (c ∷ l, r) ]

abbrev pub Lacks : ℕ → Bytes → Type 0
Lacks d = All (λ c. c ≢ d)

pub split_once-append : (d : ℕ) (l r : Bytes) → Lacks d l → split_once d (l ++ d ∷ r) ≡ some (l, r)
unfolding split_once
split_once-append d [] r _ = rw (==-refl d)
split_once-append d (c ∷ l) r (p, h) = rw (==-ne c d p, split_once-append d l r h)

pub split_once_of_Lacks : (d : ℕ) (s : Bytes) → Lacks d s → split_once d s ≡ none
unfolding split_once
split_once_of_Lacks d [] _ = refl
split_once_of_Lacks d (c ∷ s) (p, h) = rw (==-ne c d p, split_once_of_Lacks d s h)

pub split_once_sound :
    (d : ℕ) (s l r : Bytes) → split_once d s ≡ some (l, r) → (s ≡ l ++ d ∷ r) × Lacks d l
unfolding split_once
split_once_sound d [] l r h = cc
split_once_sound d (c ∷ s) l r h = elim (Bool-cases (c == d)) [
  | inl e ↦
      let k : some ([], s) ≡ some (l, r) = rw e at h in
      let p : [] ≡ l = cc k in let q : s ≡ r = cc k in rw (← p) (cc (q, (==_iff c d).0 e), tt)
  | inr e ↦ elim (Option-cases (split_once d s)) [
    | inl f ↦ cc (rw (e, f) at h)
    | inr ((l', r'), f) ↦
        let k : some (c ∷ l', r') ≡ some (l, r) = rw (e, f) at h in
        let (q, lacks) = split_once_sound d s l' r' f in
        let p : c ∷ l' ≡ l = cc k in
        let u : r' ≡ r = cc k in
        rw (← p) (cc (q, u), (λ v. false≢true (sym e ∙ (==_iff c d).1 v), lacks))
  ]
]

-- `str::split` at an ASCII character: always at least one part.
unfoldable pub split_head : ℕ → Bytes → Bytes × List Bytes
split_head d [] = ([], [])
split_head d (c ∷ s) =
    let (part, more) = split_head d s in if c == d then ([], part ∷ more) else (c ∷ part, more)

unfoldable pub split : ℕ → Bytes → List Bytes
unfolding split_head
split d s = let (part, more) = split_head d s in part ∷ more

pub split_head-append :
    (d : ℕ) (l r : Bytes) → Lacks d l → split_head d (l ++ d ∷ r) ≡ (l, split d r)
unfolding split_head split
split_head-append d [] r _ = rw (==-refl d)
split_head-append d (c ∷ l) r (p, h) = rw (==-ne c d p, split_head-append d l r h)

pub split-append : (d : ℕ) (l r : Bytes) → Lacks d l → split d (l ++ d ∷ r) ≡ l ∷ split d r
split-append d l r h = unfold split in rw (split_head-append d l r h)

-- `str::strip_prefix`
unfoldable pub strip_prefix : Bytes → Bytes → Option Bytes
strip_prefix [] s = some s
strip_prefix (_ ∷ _) [] = none
strip_prefix (a ∷ p) (b ∷ s) = if a == b then strip_prefix p s else none

pub strip_prefix-append : (p s : Bytes) → strip_prefix p (p ++ s) ≡ some s
unfolding strip_prefix
strip_prefix-append [] s = refl
strip_prefix-append (a ∷ p) s = rw (==-refl a, strip_prefix-append p s)

-- The end of a line without its carriage return.
unfoldable pub strip_cr : Bytes → Bytes
strip_cr [] = []
strip_cr (c ∷ []) = if c == b'\r' then [] else c ∷ []
strip_cr (c ∷ d ∷ s) = c ∷ strip_cr (d ∷ s)

lines_of : List Bytes → List Bytes
lines_of [] = []
lines_of ([] ∷ []) = []
lines_of ((c ∷ s) ∷ []) = (c ∷ s) ∷ []
lines_of (line ∷ next ∷ more) = strip_cr line ∷ lines_of (next ∷ more)

-- `str::lines`: a line ends with LF or CR LF, and the end of the last line may be missing.
unfoldable pub lines : Bytes → List Bytes
unfolding lines_of split
lines s = lines_of (split b'\n' s)

pub lines-append : (l s : Bytes) → Lacks b'\n' l → lines (l ++ b'\n' ∷ s) ≡ strip_cr l ∷ lines s
unfolding lines
lines-append l s h = rw (split_head-append b'\n' l s h)

pub strip_cr-append :
    (l : Bytes) (c : ℕ) (s : Bytes) → strip_cr (l ++ c ∷ s) ≡ l ++ strip_cr (c ∷ s)
unfolding strip_cr
strip_cr-append [] c s = refl
strip_cr-append (a ∷ []) c s = refl
strip_cr-append (a ∷ b ∷ l) c s = rw (strip_cr-append (b ∷ l) c s)

-- `str::contains` of an ASCII character.
unfoldable pub contains : ℕ → Bytes → Bool
contains d [] = false
contains d (c ∷ s) = c == d || contains d s

pub contains-Lacks : (d : ℕ) (s : Bytes) → contains d s ≡ false → Lacks d s
unfolding contains
contains-Lacks d [] _ = tt
contains-Lacks d (c ∷ s) h = (ground arith, contains-Lacks d s (ground arith))

pub Lacks-contains : (d : ℕ) (s : Bytes) → Lacks d s → contains d s ≡ false
unfolding contains
Lacks-contains d [] _ = refl
Lacks-contains d (c ∷ s) (p, h) = rw (==-ne c d p) (Lacks-contains d s h)
