-- ===== src/Uploads/Sorting.antt =====
-- The sort of the chunk files in `assemble` of crates/omp-core/src/uploads.rs, whatever the order in which
-- the folder lists them.
use mathlib.Core.List.{Permᴰ}
use mathlib.Core.Path.{subst}
use open_memory_protocol.Base.{ℕ, [], ◌∷◌, All, ◌≡◌, ◌≢◌, refl, sym, ◌∙◌, arith}
use open_memory_protocol.Base.Bytes.{Bytes}
use open_memory_protocol.Uploads.{ChunkFiles, insert_chunk, sort_by_offset}

-- No two files have the same offset.
abbrev pub AreApart : ChunkFiles → Type 0
AreApart [] = Unit
AreApart ((o, b) ∷ files) = All (λ e. o ≢ e.0) files × AreApart files

All-Perm : (P : ℕ × Bytes → Type 0) (xs ys : ChunkFiles) → Permᴰ xs ys → All P xs → All P ys
All-Perm P _ _ Permᴰ.nil h = h
All-Perm P (a ∷ xs) (b ∷ ys) (Permᴰ.cons e d) (p, h) = (rw (← e) p, All-Perm P xs ys d h)
All-Perm P (a ∷ b ∷ xs) (c ∷ d ∷ _) (Permᴰ.swap e f) (p, (q, h)) = (rw (← f) q, (rw (← e) p, h))
All-Perm P xs zs (Permᴰ.trans {l₂ = ys} d₁ d₂) h = All-Perm P ys zs d₂ (All-Perm P xs ys d₁ h)

abbrev IsApart : ChunkFiles → ℕ × Bytes → Type 0
IsApart files a = All (λ y. a.0 ≢ y.0) files

AreApart-Perm : (xs ys : ChunkFiles) → Permᴰ xs ys → AreApart xs → AreApart ys
AreApart-Perm _ _ Permᴰ.nil h = h
AreApart-Perm (a ∷ xs) (b ∷ ys) (Permᴰ.cons e d) (p, h) =
    (rw (← e) (All-Perm (λ y. a.0 ≢ y.0) xs ys d p), AreApart-Perm xs ys d h)
AreApart-Perm (a ∷ b ∷ xs) (c ∷ d ∷ _) (Permᴰ.swap e f) ((n, p), (q, h)) =
    ((rw (← e, ← f) (λ s. n (sym s)), subst (IsApart xs) f q), (subst (IsApart xs) e p, h))
AreApart-Perm xs zs (Permᴰ.trans {l₂ = ys} d₁ d₂) h =
    AreApart-Perm ys zs d₂ (AreApart-Perm xs ys d₁ h)

insert_chunk_comm :
    (o : ℕ) (b : Bytes) (o' : ℕ) (b' : Bytes) (files : ChunkFiles)
    → o ≢ o'
    → insert_chunk o b (insert_chunk o' b' files) ≡ insert_chunk o' b' (insert_chunk o b files)
unfolding insert_chunk
insert_chunk_comm o b o' b' [] n = ground arith
insert_chunk_comm o b o' b' ((k, c) ∷ files) n =
    let ih = insert_chunk_comm o b o' b' files n in ground arith

-- Files with offsets that are apart sort to the same list in whatever order they come.
pub sort_by_offset-Perm :
    (xs ys : ChunkFiles) → Permᴰ xs ys → AreApart xs → sort_by_offset xs ≡ sort_by_offset ys
unfolding sort_by_offset
sort_by_offset-Perm _ _ Permᴰ.nil h = refl
sort_by_offset-Perm (a ∷ xs) (b ∷ ys) (Permᴰ.cons e d) (p, h) =
    rw (e, sort_by_offset-Perm xs ys d h)
sort_by_offset-Perm (a ∷ b ∷ xs) (c ∷ d ∷ _) (Permᴰ.swap e f) ((n, p), (q, h)) =
    rw (← e, ← f) (insert_chunk_comm (a.0) (a.1) (b.0) (b.1) (sort_by_offset xs) n)
sort_by_offset-Perm xs zs (Permᴰ.trans {l₂ = ys} d₁ d₂) h =
    sort_by_offset-Perm xs ys d₁ h ∙ sort_by_offset-Perm ys zs d₂ (AreApart-Perm xs ys d₁ h)
