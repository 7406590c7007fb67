-- ===== src/Query/Parser/Fuel.antt =====
-- The fuel of the parser of crates/omp-core/src/query.rs.
use open_memory_protocol.Base.{
  inl, ◌⊎◌, inr, ℕ, zero, suc, ◌+◌, ◌*◌, ◌≤◌, [], ◌∷◌, Result, ok, err, ◌>>=◌, length, ◌≡◌, ◌≢◌,
  refl, arith,
}
use open_memory_protocol.Base.Bytes.{Bytes}
use open_memory_protocol.Query.{Floats, FieldPath, Expr, Tok, Token, Failure}
use open_memory_protocol.Query.Parser.{
  path_step, path_segment, Tokens, Parsed, refuse, expect_rparen, expect_lparen, expect_ident,
  push_segment, parse_path_rest, parse_field_path, expect_op, parse_literal, parse_exists,
  parse_compare, Peek, peek, advance, parse_or, or_loop, parse_and, and_loop, parse_not,
  parse_primary, finish, parse_tokens,
}

-- A result that has not run out of fuel, and that leaves at most `n` of what `size` counts.
abbrev pub Ends : {A : Type 0} → (A → ℕ) → ℕ → Result Failure A → Type 0
Ends size n (ok a) = size a ≤ n
Ends size n (err (Failure.parse pos)) = Unit
Ends size n (err Failure.out_of_fuel) = ⊥

module _ {A B : Type 0} where
  pub Ends-bind :
      (sa : A → ℕ) (sb : B → ℕ) (n k : ℕ) (m : Result Failure A) (f : A → Result Failure B)
      → Ends sa n m
      → ((a : A) → sa a ≤ n → Ends sb k (f a))
      → Ends sb k (m >>= f)
  Ends-bind sa sb n k (ok a) f h g = g a h
  Ends-bind sa sb n k (err (Failure.parse pos)) f h g = tt
  Ends-bind sa sb n k (err Failure.out_of_fuel) f h g = absurd h

pub Ends-weaken :
    {A : Type 0} (size : A → ℕ) (n k : ℕ) (m : Result Failure A)
    → n ≤ k
    → Ends size n m
    → Ends size k m
Ends-weaken size n k (ok a) le h = omega arith
Ends-weaken size n k (err (Failure.parse pos)) le h = tt
Ends-weaken size n k (err Failure.out_of_fuel) le h = h

pub Ends-ne :
    {A : Type 0} (size : A → ℕ) (n : ℕ) (m : Result Failure A)
    → Ends size n m
    → m ≢ err Failure.out_of_fuel
Ends-ne size n (ok a) h e = cc
Ends-ne size n (err (Failure.parse pos)) h e = cc
Ends-ne size n (err Failure.out_of_fuel) h e = h

module _ (fl : Floats) where
  abbrev left : {A : Type 0} → A × Tokens fl → ℕ
  left (a, ts) = length ts

  abbrev EndsAt : {A : Type 0} → ℕ → Parsed fl A → Type 0
  EndsAt n m = Ends left n m

  -- Of a reader of one token, the rest is not longer than the tokens.
  expect_rparen-Ends : (ts : Tokens fl) → Ends length (length ts) (expect_rparen fl ts)
  unfolding expect_rparen
  expect_rparen-Ends [] = tt
  expect_rparen-Ends (t ∷ ts) = ground arith

  expect_lparen-Ends : (ts : Tokens fl) → Ends length (length ts) (expect_lparen fl ts)
  unfolding expect_lparen
  expect_lparen-Ends [] = tt
  expect_lparen-Ends (t ∷ ts) = ground arith

  expect_ident-Ends : (ts : Tokens fl) → EndsAt (length ts) (expect_ident fl ts)
  unfolding expect_ident
  expect_ident-Ends [] = tt
  expect_ident-Ends (t ∷ ts) = ground arith

  expect_op-Ends : (ts : Tokens fl) → EndsAt (length ts) (expect_op fl ts)
  unfolding expect_op
  expect_op-Ends [] = tt
  expect_op-Ends (t ∷ ts) = ground arith

  parse_literal-Ends : (ts : Tokens fl) → EndsAt (length ts) (parse_literal fl ts)
  unfolding parse_literal
  parse_literal-Ends [] = tt
  parse_literal-Ends (t ∷ ts) = ground arith

  push_segment-Ends :
      (s : Bytes) (n : ℕ) (m : Parsed fl FieldPath) → EndsAt n m → EndsAt n (push_segment fl s m)
  push_segment-Ends s n (ok a) h = h
  push_segment-Ends s n (err (Failure.parse pos)) h = tt
  push_segment-Ends s n (err Failure.out_of_fuel) h = h

  path_segment-Ends :
      (n : ℕ) (k : Tok fl) (u : Token fl) (m : Parsed fl FieldPath) (ts : Tokens fl)
      → EndsAt n m
      → EndsAt n (path_segment fl k u m ts)
  path_segment-Ends n (Tok.ident s) u m ts h = push_segment-Ends s n m h
  path_segment-Ends n _ u m ts h = tt

  path_step-Ends :
      (n : ℕ) (k : Tok fl) (ts : Tokens fl) (after : Parsed fl FieldPath)
      → length ts ≤ n
      → EndsAt n after
      → EndsAt n (path_step fl k ts after)
  path_step-Ends n Tok.dot ts after le h = h
  path_step-Ends n _ ts after le h = le

  parse_path_rest-Ends : (ts : Tokens fl) → EndsAt (length ts) (parse_path_rest fl ts)
  unfolding parse_path_rest
  parse_path_rest-Ends [] = omega arith
  parse_path_rest-Ends (t ∷ []) = path_step-Ends 1 t.kind (t ∷ []) (refuse fl []) (omega arith) tt
  parse_path_rest-Ends (t ∷ u ∷ ts) =
      let rest = parse_path_rest fl ts in
      let n = length (t ∷ u ∷ ts) in
      let ih = Ends-weaken left (length ts) n rest (omega arith) (parse_path_rest-Ends ts) in
      path_step-Ends n t.kind (t ∷ u ∷ ts) (path_segment fl u.kind u rest ts) (omega arith)
        (path_segment-Ends n u.kind u rest ts ih)

  parse_field_path-Ends : (ts : Tokens fl) → EndsAt (length ts) (parse_field_path fl ts)
  unfolding parse_field_path
  parse_field_path-Ends ts =
      Ends-bind left left (length ts) (length ts) (expect_ident fl ts) _ (expect_ident-Ends ts)
        (λ (first, ts₁) le. push_segment-Ends first (length ts) (parse_path_rest fl ts₁) (
          Ends-weaken left (length ts₁) (length ts) (parse_path_rest fl ts₁) le
            (parse_path_rest-Ends ts₁)))

  parse_exists-Ends : (ts : Tokens fl) → EndsAt (length ts) (parse_exists fl ts)
  unfolding parse_exists
  parse_exists-Ends ts =
      Ends-bind length left (length ts) (length ts) (expect_lparen fl ts) _ (expect_lparen-Ends ts)
        (λ ts₁ le₁.
          Ends-bind left left (length ts₁) (length ts) (parse_field_path fl ts₁) _
            (parse_field_path-Ends ts₁)
            (λ (path, ts₂) le₂.
              Ends-bind length left (length ts₂) (length ts) (expect_rparen fl ts₂) _
                (expect_rparen-Ends ts₂) (λ ts₃ le₃. omega arith)))

  parse_compare-Ends : (ts : Tokens fl) → EndsAt (length ts) (parse_compare fl ts)
  unfolding parse_compare
  parse_compare-Ends ts =
      Ends-bind left left (length ts) (length ts) (parse_field_path fl ts) _
        (parse_field_path-Ends ts)
        (λ (path, ts₁) le₁.
          Ends-bind left left (length ts₁) (length ts) (expect_op fl ts₁) _ (expect_op-Ends ts₁)
            (λ (o, ts₂) le₂.
              Ends-bind left left (length ts₂) (length ts) (parse_literal fl ts₂) _
                (parse_literal-Ends ts₂) (λ (value, ts₃) le₃. omega arith)))

  -- A token that a call reads on its own shortens the rest.
  advance-lt :
      (ts : Tokens fl) → (length (advance fl ts) + 1 ≡ length ts) ⊎ (peek fl ts ≡ Peek.other)
  unfolding peek advance
  advance-lt [] = inr refl
  advance-lt (t ∷ ts) = inl (omega arith)

  mutual
    unfolding parse_or or_loop parse_and and_loop parse_not parse_primary

    parse_or-Ends :
        (f : ℕ) (ts : Tokens fl) → length ts * 4 + 4 ≤ f → EndsAt (length ts) (parse_or fl f ts)
    parse_or-Ends zero ts h = absurd (omega arith)
    parse_or-Ends (suc f) ts h =
        Ends-bind left left (length ts) (length ts) (parse_and fl f ts) _
          (parse_and-Ends f ts (omega arith))
          (λ (e, ts₁) le.
            Ends-weaken left (length ts₁) (length ts) (or_loop fl f e ts₁) le
              (or_loop-Ends f e ts₁ (omega arith)))

    or_loop-Ends :
        (f : ℕ) (e : Expr fl) (ts : Tokens fl)
        → length ts * 4 + 1 ≤ f
        → EndsAt (length ts) (or_loop fl f e ts)
    or_loop-Ends zero e ts h = absurd (omega arith)
    or_loop-Ends (suc f) e ts h = elim (advance-lt ts) [
      | inr q ↦ rw (or_loop, q) (omega arith)
      | inl lt ↦
          let next =
            Ends-bind left left (length (advance fl ts)) (length ts)
              (parse_and fl f (advance fl ts)) (λ (right, ts₁). or_loop fl f (Expr.or e right) ts₁)
              (parse_and-Ends f (advance fl ts) (omega arith))
              (λ (right, ts₁) le.
                Ends-weaken left (length ts₁) (length ts) (or_loop fl f (Expr.or e right) ts₁)
                  (omega arith) (or_loop-Ends f (Expr.or e right) ts₁ (omega arith))) in
          ground arith
    ]

    parse_and-Ends :
        (f : ℕ) (ts : Tokens fl) → length ts * 4 + 3 ≤ f → EndsAt (length ts) (parse_and fl f ts)
    parse_and-Ends zero ts h = absurd (omega arith)
    parse_and-Ends (suc f) ts h =
        Ends-bind left left (length ts) (length ts) (parse_not fl f ts) _
          (parse_not-Ends f ts (omega arith))
          (λ (e, ts₁) le.
            Ends-weaken left (length ts₁) (length ts) (and_loop fl f e ts₁) le
              (and_loop-Ends f e ts₁ (omega arith)))

    and_loop-Ends :
        (f : ℕ) (e : Expr fl) (ts : Tokens fl)
        → length ts * 4 + 1 ≤ f
        → EndsAt (length ts) (and_loop fl f e ts)
    and_loop-Ends zero e ts h = absurd (omega arith)
    and_loop-Ends (suc f) e ts h = elim (advance-lt ts) [
      | inr q ↦ rw (and_loop, q) (omega arith)
      | inl lt ↦
          let next =
            Ends-bind left left (length (advance fl ts)) (length ts)
              (parse_not fl f (advance fl ts))
              (λ (right, ts₁). and_loop fl f (Expr.and e right) ts₁)
              (parse_not-Ends f (advance fl ts) (omega arith))
              (λ (right, ts₁) le.
                Ends-weaken left (length ts₁) (length ts) (and_loop fl f (Expr.and e right) ts₁)
                  (omega arith) (and_loop-Ends f (Expr.and e right) ts₁ (omega arith))) in
          ground arith
    ]

    parse_not-Ends :
        (f : ℕ) (ts : Tokens fl) → length ts * 4 + 2 ≤ f → EndsAt (length ts) (parse_not fl f ts)
    parse_not-Ends zero ts h = absurd (omega arith)
    parse_not-Ends (suc f) ts h = elim (advance-lt ts) [
      | inr q ↦ rw (parse_not, q) (parse_primary-Ends f ts (omega arith))
      | inl lt ↦
          let primary = parse_primary-Ends f ts (omega arith) in
          let next =
            Ends-bind left left (length (advance fl ts)) (length ts)
              (parse_not fl f (advance fl ts)) (λ (inner, ts₁). ok (Expr.not inner, ts₁))
              (parse_not-Ends f (advance fl ts) (omega arith)) (λ (inner, ts₁) le. omega arith) in
          ground arith
    ]

    parse_primary-Ends :
        (f : ℕ) (ts : Tokens fl)
        → length ts * 4 + 1 ≤ f
        → EndsAt (length ts) (parse_primary fl f ts)
    parse_primary-Ends zero ts h = absurd (omega arith)
    parse_primary-Ends (suc f) ts h = elim (advance-lt ts) [
      | inr q ↦ rw (parse_primary, q) (parse_compare-Ends ts)
      | inl lt ↦
          let compared = parse_compare-Ends ts in
          let exists =
            Ends-weaken left (length (advance fl ts)) (length ts) (parse_exists fl (advance fl ts))
              (omega arith) (parse_exists-Ends (advance fl ts)) in
          let next =
            Ends-bind left left (length (advance fl ts)) (length ts) (parse_or fl f (advance fl ts))
              (λ (e, ts₁). expect_rparen fl ts₁ >>= (λ ts₂. ok (e, ts₂)))
              (parse_or-Ends f (advance fl ts) (omega arith))
              (λ (e, ts₁) le.
                Ends-bind length left (length ts₁) (length ts) (expect_rparen fl ts₁)
                  (λ ts₂. ok (e, ts₂)) (expect_rparen-Ends ts₁) (λ ts₂ le₂. omega arith)) in
          ground arith
    ]

  finish-Ends : (r : Expr fl × Tokens fl) → Ends (λ e. 0) 0 (finish fl r)
  finish-Ends (e, []) = omega arith
  finish-Ends (e, t ∷ ts) = tt

  -- Parsing a list of tokens ends: `parse_tokens` never runs out of the fuel that it starts with.
  pub parse_tokens-Ends : (ts : Tokens fl) → Ends (λ e. 0) 0 (parse_tokens fl ts)
  unfolding parse_tokens
  parse_tokens-Ends ts =
      Ends-bind left (λ e. 0) (length ts) 0 (parse_or fl (length ts * 4 + 4) ts) (finish fl)
        (parse_or-Ends (length ts * 4 + 4) ts (omega arith)) (λ r le. finish-Ends r)
