-- ===== src/Gc/Live.antt =====
-- The objects whose references, as far as crates/omp-core/src/gc.rs follows them, are in a live set.
use open_memory_protocol.Base.{List, Option, none, some, ok, All, All-map, map, ◌⊎◌, inl, inr, ◌≡◌}
use open_memory_protocol.Base.Bytes.{Bytes, codes}
use open_memory_protocol.Base.HashSet.{HashSet, In}
use open_memory_protocol.Hash.{Hash}
use open_memory_protocol.Chunks
use open_memory_protocol.Chunks.{ChunkEntry, ChunksBody}
use open_memory_protocol.Tree.{Mode, Tree}
use open_memory_protocol.Commit.{Commit}
use open_memory_protocol.Query.Evaluate.{Manifest}
use open_memory_protocol.Gc.{LiveSet, Source, fetch, read_manifest, load_tree, load_commit}

pub record IsWithin (a b : LiveSet) : Type 0 where
  pub commits_in : (h : Hash) → In h a.commits → In h b.commits
  pub trees_in : (h : Hash) → In h a.trees → In h b.trees
  pub manifests_in : (h : Hash) → In h a.manifests → In h b.manifests
  pub chunks_in : (h : Hash) → In h a.chunks_objects → In h b.chunks_objects
  pub blobs_in : (h : Hash) → In h a.blobs → In h b.blobs

pub IsWithin_refl : (a : LiveSet) → IsWithin a a
IsWithin_refl a = record {
  commits_in = λ h p. p;
  trees_in = λ h p. p;
  manifests_in = λ h p. p;
  chunks_in = λ h p. p;
  blobs_in = λ h p. p;
}

pub IsWithin_trans : (a b c : LiveSet) → IsWithin a b → IsWithin b c → IsWithin a c
IsWithin_trans a b c p q = record {
  commits_in = λ h x. q.commits_in h (p.commits_in h x);
  trees_in = λ h x. q.trees_in h (p.trees_in h x);
  manifests_in = λ h x. q.manifests_in h (p.manifests_in h x);
  chunks_in = λ h x. q.chunks_in h (p.chunks_in h x);
  blobs_in = λ h x. q.blobs_in h (p.blobs_in h x);
}

abbrev pub AreIn : List Hash → HashSet → Type 0
AreIn hashes set = All (λ h. In h set) hashes

abbrev pub IsEntryLive : LiveSet → Mode → Hash → Type 0
IsEntryLive live Mode.tree h = In h live.trees
IsEntryLive live Mode.manifest h = In h live.manifests
IsEntryLive live Mode.blob h = In h live.blobs

module _ (r : Source) where
  -- A blob, or a chunk list all of whose chunks are live.
  abbrev pub IsSourceLive : LiveSet → Hash → Type 0
  IsSourceLive live h =
      In h live.blobs
      ⊎ ((body : Bytes) × ((parsed : ChunksBody) × ((r.store.get r.state h
                ≡ ok (some (codes "chunks", body)))
              × (Chunks.parse body ≡ ok parsed)
              × In h live.chunks_objects
              × AreIn (map (λ (e : ChunkEntry). e.hash) parsed.entries) live.blobs)))

  abbrev pub AreContentsLive : LiveSet → Option (Manifest r.floats) → Type 0
  AreContentsLive live none = Unit
  AreContentsLive live (some m) =
      AreIn (map (λ (e : Bytes × Hash). e.1) m.probe_hashes) live.blobs
      × IsSourceLive live m.source_hash

  abbrev pub IsManifestLive : LiveSet → Hash → Type 0
  IsManifestLive live h =
      (body : Bytes) × ((found : Option (Manifest r.floats)) × ((fetch r (codes "manifest") h
            ≡ ok body)
          × (read_manifest r body ≡ ok found)
          × AreContentsLive live found))

  abbrev pub IsTreeLive : LiveSet → Hash → Type 0
  IsTreeLive live h =
      (tree : Tree) × ((load_tree r h ≡ ok tree)
        × All (λ e. IsEntryLive live e.1.mode e.1.hash) tree.entries)

  abbrev pub IsCommitLive : LiveSet → Hash → Type 0
  IsCommitLive live h =
      (c : Commit) × ((load_commit r h ≡ ok c)
        × In c.tree live.trees
        × AreIn c.parents live.commits)

  module _ (a b : LiveSet) (w : IsWithin a b) where
    AreIn-mono : (hashes : List Hash) → AreIn hashes a.blobs → AreIn hashes b.blobs
    AreIn-mono hashes p = All-map (λ h. In h a.blobs) (λ h. In h b.blobs) w.blobs_in hashes p

    pub IsSourceLive-mono : (h : Hash) → IsSourceLive a h → IsSourceLive b h
    IsSourceLive-mono h (inl p) = inl (w.blobs_in h p)
    IsSourceLive-mono h (inr (body, (parsed, (g, q, c, bs)))) =
        inr (body, (parsed, (g, q, w.chunks_in h c, AreIn-mono _ bs)))

    AreContentsLive-mono :
        (found : Option (Manifest r.floats)) → AreContentsLive a found → AreContentsLive b found
    AreContentsLive-mono none _ = tt
    AreContentsLive-mono (some m) (p, q) = (AreIn-mono _ p, IsSourceLive-mono m.source_hash q)

    pub IsManifestLive-mono : (h : Hash) → IsManifestLive a h → IsManifestLive b h
    IsManifestLive-mono h (body, (found, (f, g, c))) =
        (body, (found, (f, g, AreContentsLive-mono found c)))

    pub IsEntryLive-mono : (mode : Mode) (h : Hash) → IsEntryLive a mode h → IsEntryLive b mode h
    IsEntryLive-mono Mode.tree h p = w.trees_in h p
    IsEntryLive-mono Mode.manifest h p = w.manifests_in h p
    IsEntryLive-mono Mode.blob h p = w.blobs_in h p

    pub IsTreeLive-mono : (h : Hash) → IsTreeLive a h → IsTreeLive b h
    IsTreeLive-mono h (tree, (e, p)) = (
      tree,
      (
        e,
        All-map (λ e. IsEntryLive a e.1.mode e.1.hash) (λ e. IsEntryLive b e.1.mode e.1.hash)
            (λ e. IsEntryLive-mono e.1.mode e.1.hash) tree.entries p,
      ),
    )

    pub IsCommitLive-mono : (h : Hash) → IsCommitLive a h → IsCommitLive b h
    IsCommitLive-mono h (c, (e, t, p)) = (
      c,
      (
        e,
        w.trees_in c.tree t,
        All-map (λ h. In h a.commits) (λ h. In h b.commits) w.commits_in c.parents p,
      ),
    )

  -- `b` has all of `a`, and what is new in it has all its references in `b`.
  pub record Grows (a b : LiveSet) : Type 0 where
    pub within : IsWithin a b
    pub commits_new : (h : Hash) → In h b.commits → In h a.commits ⊎ IsCommitLive b h
    pub trees_new : (h : Hash) → In h b.trees → In h a.trees ⊎ IsTreeLive b h
    pub manifests_new : (h : Hash) → In h b.manifests → In h a.manifests ⊎ IsManifestLive b h

  pub Grows-refl : (a : LiveSet) → Grows a a
  Grows-refl a = record {
    within = IsWithin_refl a;
    commits_new = λ h p. inl p;
    trees_new = λ h p. inl p;
    manifests_new = λ h p. inl p;
  }

  pub Grows-trans : (a b c : LiveSet) → Grows a b → Grows b c → Grows a c
  Grows-trans a b c p q = record {
    within = IsWithin_trans a b c p.within q.within;
    commits_new = λ h x. elim (q.commits_new h x) [
      | inr l ↦ inr l
      | inl y ↦ elim (p.commits_new h y) [
        | inl z ↦ inl z
        | inr l ↦ inr (IsCommitLive-mono b c q.within h l)
      ]
    ];
    trees_new = λ h x. elim (q.trees_new h x) [
      | inr l ↦ inr l
      | inl y ↦ elim (p.trees_new h y) [
        | inl z ↦ inl z
        | inr l ↦ inr (IsTreeLive-mono b c q.within h l)
      ]
    ];
    manifests_new = λ h x. elim (q.manifests_new h x) [
      | inr l ↦ inr l
      | inl y ↦ elim (p.manifests_new h y) [
        | inl z ↦ inl z
        | inr l ↦ inr (IsManifestLive-mono b c q.within h l)
      ]
    ];
  }
