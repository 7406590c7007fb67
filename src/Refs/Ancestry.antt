-- ===== src/Refs/Ancestry.antt =====
-- Ancestors of crates/omp-core/src/refs.rs: going back in two steps.
use open_memory_protocol.Base.{
  ◌++◌, ◌∷◌, [], ◌+◌, ◌<◌, ℕ, zero, suc, ok, false, ◌>>=◌, >>=-eq-ok, ◌≡◌, ◌≢◌, All-map, ap, inl,
  inr, Result-cases, refl, All, arith,
}
use open_memory_protocol.Base.Bytes.{Bytes, codes, Lacks, beq, beq-ne, strip_prefix}
use open_memory_protocol.Base.Decimal.{format_uint, u64_limit}
use open_memory_protocol.Hash.{Hash, IsHash, hex, from_str}
use open_memory_protocol.Hash.Text.{hex-IsHexChar, from_str-hex}
use open_memory_protocol.Hex.RoundTrip.{IsHexChar}
use open_memory_protocol.Crypto.{Primitives}
use open_memory_protocol.Store.{ObjectStore}
use open_memory_protocol.Refs.{Refs, is_prefix, start_of}
use open_memory_protocol.Refs.Ancestors.{split_ancestor-format_uint}
use open_memory_protocol.Refs.History.{nth_ancestor, parent_of, resolve_ref}

no_refs : (s : Bytes) → All IsHexChar s → is_prefix (codes "refs/") s ≡ false
unfolding strip_prefix
no_refs [] _ = refl
no_refs (c ∷ s) (g, _) = ground arith

head_no_hash : (h : Hash) → from_str (codes "HEAD") ≢ ok h
unfolding from_str
head_no_hash h e = cc e

hex_start :
    (r : Refs) (h : Hash) (s : Bytes) → All IsHexChar s → from_str s ≡ ok h → start_of r s ≡ ok h
unfolding start_of
hex_start r h s g e =
    let head : beq s (codes "HEAD") ≡ false =
      beq-ne s (codes "HEAD") (λ q. head_no_hash h (rw q at e)) in
    rw (head, no_refs s g, e) refl

no_tilde : (h : Hash) → IsHash h → Lacks b'~' (hex h)
no_tilde h g = All-map IsHexChar (λ c. c ≢ b'~') (λ c q. omega arith) (hex h) (hex-IsHexChar h g)

module _ (o : ObjectStore) (p : Primitives) where
  open o use {State}

  nth_ancestor-plus :
      (s : State) (h : Hash) (m n : ℕ)
      → nth_ancestor o p s h (m + n) ≡ (nth_ancestor o p s h m >>= λ k. nth_ancestor o p s k n)
  unfolding nth_ancestor
  nth_ancestor-plus s h zero n = ap (nth_ancestor o p s h) (omega arith)
  nth_ancestor-plus s h (suc m) n =
      let step : suc m + n ≡ suc (m + n) = omega arith in
      rw step (elim (Result-cases (parent_of o p s h)) [
        | inl (e, q) ↦ rw q refl
        | inr (parent, q) ↦ rw (q, nth_ancestor-plus s parent m n)
      ])

  -- Going back `m` commits from a ref and then `n` from the hash found is going back `m + n` from the
  -- ref, also where it fails.
  pub resolve_ref_again :
      (r : Refs) (s : State) (base : Bytes) (m n : ℕ) (h : Hash)
      → Lacks b'~' base
      → m + n < u64_limit
      → IsHash h
      → resolve_ref o p r s (base ++ b'~' ∷ format_uint m) ≡ ok h
      → resolve_ref o p r s (hex h ++ b'~' ∷ format_uint n)
        ≡ resolve_ref o p r s (base ++ b'~' ∷ format_uint (m + n))
  unfolding resolve_ref
  resolve_ref_again r s base m n h lacks lt g e =
      let before = rw (split_ancestor-format_uint base m lacks (omega arith)) at e in
      let (start, a, b) = >>=-eq-ok (start_of r base) _ before in
      rw (
        split_ancestor-format_uint base (m + n) lacks lt,
        split_ancestor-format_uint (hex h) n (no_tilde h g) (omega arith),
        hex_start r h (hex h) (hex-IsHexChar h g) (from_str-hex h g),
        a,
        nth_ancestor-plus s start m n,
        b,
      )
