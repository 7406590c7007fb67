-- ===== src/Registry/Reachable.antt =====
-- The registries that the operations of crates/omp-core/src/registry.rs lead to.
use open_memory_protocol.Base.{
  List, [], ◌∷◌, ◌++◌, false, ◌==◌, Bool-cases, Option-cases, some, ok, >>=-eq-ok, reject_if-eq-ok,
  ok_or-eq-ok, All, All-append, ok_or, length, sym, ◌≡◌, ◌≢◌, inl, inr,
}
use open_memory_protocol.Base.Bytes.{Bytes, beq, beq_refl}
use open_memory_protocol.Error.{OmpError}
use open_memory_protocol.Hash.{Hash}
use open_memory_protocol.Tenant.{TenantId}
use open_memory_protocol.Query.Evaluate.{is_some}
use open_memory_protocol.Registry.{
  Quotas, EncryptionMode, TenantEntry, TenantRegistry, find_id, by_id, without_id, remove,
  set_first, hash_token, set_quotas, create_with_mode,
}

module _ (sha256 : Bytes → Hash) where
  -- One operation that succeeds.
  pub data Step (r r' : TenantRegistry) : Type 0 where
    created :
        (id : TenantId) (quotas : Quotas) (mode : EncryptionMode) (token : Bytes)
        → create_with_mode sha256 r id quotas mode token ≡ ok r'
        → Step r r'
    removed : (id : TenantId) → remove r id ≡ ok r' → Step r r'
    quotas_set : (id : TenantId) (quotas : Quotas) → set_quotas r id quotas ≡ ok r' → Step r r'

  -- The registries that a sequence of operations on the empty one leads to.
  pub data Reachable : TenantRegistry → Type 0 where
    start : Reachable (record { entries = [] })
    step : (r r' : TenantRegistry) → Reachable r → Step r r' → Reachable r'

-- No two entries have one id.
abbrev pub AreDistinct : List TenantEntry → Type 0
AreDistinct [] = Unit
AreDistinct (e ∷ entries) = All (λ (d : TenantEntry). d.id ≢ e.id) entries × AreDistinct entries

not_found :
    (entries : List TenantEntry) (id : TenantId)
    → is_some (find_id entries id) ≡ false
    → All (λ (e : TenantEntry). e.id ≢ id) entries
unfolding find_id
not_found [] id n = tt
not_found (e ∷ entries) id n = elim (Bool-cases (beq e.id id)) [
  | inl y ↦ absurd (cc (rw y at n))
  | inr d ↦ (λ q. cc (rw q at d, beq_refl id), not_found entries id (rw d at n))
]

append-AreDistinct :
    (entries : List TenantEntry) (e : TenantEntry)
    → All (λ (d : TenantEntry). d.id ≢ e.id) entries
    → AreDistinct entries
    → AreDistinct (entries ++ e ∷ [])
append-AreDistinct [] e _ _ = (tt, tt)
append-AreDistinct (d ∷ entries) e (p, ps) (q, qs) = (
  All-append (λ (x : TenantEntry). x.id ≢ d.id) entries (e ∷ []) q (λ k. p (sym k), tt),
  append-AreDistinct entries e ps qs,
)

without_id-All :
    (P : TenantId → Type 0) (entries : List TenantEntry) (id : TenantId)
    → All (λ (d : TenantEntry). P d.id) entries
    → All (λ (d : TenantEntry). P d.id) (without_id entries id)
unfolding without_id
without_id-All P [] id _ = tt
without_id-All P (e ∷ entries) id (p, ps) = elim (Bool-cases (beq e.id id)) [
  | inl y ↦ rw y (without_id-All P entries id ps)
  | inr d ↦ rw d (p, without_id-All P entries id ps)
]

without_id-AreDistinct :
    (entries : List TenantEntry) (id : TenantId)
    → AreDistinct entries
    → AreDistinct (without_id entries id)
unfolding without_id
without_id-AreDistinct [] id _ = tt
without_id-AreDistinct (e ∷ entries) id (p, ps) = elim (Bool-cases (beq e.id id)) [
  | inl y ↦ rw y (without_id-AreDistinct entries id ps)
  | inr d ↦ rw d (without_id-All (λ i. i ≢ e.id) entries id p, without_id-AreDistinct entries id ps)
]

set_first-All :
    (P : TenantId → Type 0) (entries out : List TenantEntry) (id : TenantId) (quotas : Quotas)
    → set_first entries id quotas ≡ some out
    → All (λ (d : TenantEntry). P d.id) entries
    → All (λ (d : TenantEntry). P d.id) out
unfolding set_first
set_first-All P [] out id quotas e _ = absurd (cc e)
set_first-All P (x ∷ entries) out id quotas e (p, ps) = elim (Bool-cases (beq x.id id)) [
  | inl y ↦
      (let q : record x { quotas = quotas } ∷ entries ≡ out = cc (rw y at e) in rw (← q) (p, ps))
  | inr d ↦ elim (Option-cases (set_first entries id quotas)) [
    | inl n ↦ absurd (cc (rw (d, n) at e))
    | inr (rest, f) ↦
        let q : x ∷ rest ≡ out = cc (rw (d, f) at e) in
        rw (← q) (p, set_first-All P entries rest id quotas f ps)
  ]
]

set_first-AreDistinct :
    (entries out : List TenantEntry) (id : TenantId) (quotas : Quotas)
    → set_first entries id quotas ≡ some out
    → AreDistinct entries
    → AreDistinct out
unfolding set_first
set_first-AreDistinct [] out id quotas e _ = absurd (cc e)
set_first-AreDistinct (x ∷ entries) out id quotas e (p, ps) = elim (Bool-cases (beq x.id id)) [
  | inl y ↦
      (let q : record x { quotas = quotas } ∷ entries ≡ out = cc (rw y at e) in rw (← q) (p, ps))
  | inr d ↦ elim (Option-cases (set_first entries id quotas)) [
    | inl n ↦ absurd (cc (rw (d, n) at e))
    | inr (rest, f) ↦
        let q : x ∷ rest ≡ out = cc (rw (d, f) at e) in
        rw (← q) (
          set_first-All (λ i. i ≢ x.id) entries rest id quotas f p,
          set_first-AreDistinct entries rest id quotas f ps,
        )
  ]
]

module _ (sha256 : Bytes → Hash) where
  Step-AreDistinct :
      (r r' : TenantRegistry) → Step sha256 r r' → AreDistinct r.entries → AreDistinct r'.entries
  unfolding create_with_mode remove set_quotas by_id
  Step-AreDistinct r r' (Step.created id quotas mode token e) d =
      let (new, e₁) = reject_if-eq-ok (is_some (find_id r.entries id)) OmpError.conflict _ e in
      let entry : TenantEntry = record {
        id = id;
        token_sha256 = hash_token sha256 token;
        quotas = quotas;
        encryption_mode = mode;
      } in
      let q : r.entries ++ entry ∷ [] ≡ r'.entries = cc e₁ in
      rw (← q) (append-AreDistinct r.entries entry (not_found r.entries id new) d)
  Step-AreDistinct r r' (Step.removed id e) d =
      let (_, e₁) =
        reject_if-eq-ok (length (without_id r.entries id) == length r.entries) OmpError.not_found _
          e in
      let q : without_id r.entries id ≡ r'.entries = cc e₁ in
      rw (← q) (without_id-AreDistinct r.entries id d)
  Step-AreDistinct r r' (Step.quotas_set id quotas e) d =
      let (entries, f, e₁) =
        >>=-eq-ok (ok_or (set_first r.entries id quotas) OmpError.not_found) _ e in
      let q : entries ≡ r'.entries = cc e₁ in
      rw (← q) (set_first-AreDistinct r.entries entries id quotas (ok_or-eq-ok _ _ f) d)

  -- No two tenants of a registry that creations, removals and changes of quotas lead to have one id.
  pub Reachable-AreDistinct : (r : TenantRegistry) → Reachable sha256 r → AreDistinct r.entries
  Reachable-AreDistinct _ Reachable.start = tt
  Reachable-AreDistinct _ (Reachable.step r r' before s) =
      Step-AreDistinct r r' s (Reachable-AreDistinct r before)
