-- ===== src/Gc/Reachable.antt =====
-- What the walk of crates/omp-core/src/gc.rs returns is closed under the references that the walk follows.
use open_memory_protocol.Base.{
  ℕ, zero, suc, List, [], ◌∷◌, ok, Result, >>=-eq-ok, map_err, map_err-eq-ok, Bool-cases, All,
  All-map, inl, inr, ◌≡◌,
}
use open_memory_protocol.Base.Bytes.{Bytes}
use open_memory_protocol.Base.HashSet.{
  HashSet, In, has, insert, has-insert, has-insert_keeps, has-insert_only,
}
use open_memory_protocol.Hash.{Hash}
use open_memory_protocol.Tree.{Mode, Entry}
use open_memory_protocol.Gc.{
  LiveSet, nothing_live, Source, WalkError, load_tree, load_commit, insert_blobs, insert_shares,
  mark_tree, mark_commit, pushed, walk_manifest, walk_entry, walk_entries, walk_tree, walk_commits,
  walk,
}
use open_memory_protocol.Gc.Live.{
  AreIn, IsEntryLive, IsEntryLive-mono, IsTreeLive-mono, IsCommitLive-mono, IsManifestLive-mono,
  IsTreeLive, IsCommitLive, IsManifestLive, Grows, Grows-refl, Grows-trans,
}
use open_memory_protocol.Gc.Manifests.{insert_blobs-Grows, walk_manifest-Grows}

module _ (r : Source) where
  close_tree :
      (h : Hash) (a b : LiveSet) → Grows r (mark_tree h a) b → IsTreeLive r b h → Grows r a b
  close_tree h a b g l = record {
    within = record {
      commits_in = g.within.commits_in;
      trees_in = λ k p. g.within.trees_in k (has-insert_keeps k h a.trees p);
      manifests_in = g.within.manifests_in;
      chunks_in = g.within.chunks_in;
      blobs_in = g.within.blobs_in;
    };
    commits_new = g.commits_new;
    trees_new = λ k p. elim (g.trees_new k p) [
      | inr live ↦ inr live
      | inl q ↦ elim (has-insert_only k h a.trees q) [
        | inl same ↦ inr (rw same l)
        | inr old ↦ inl old
      ]
    ];
    manifests_new = g.manifests_new;
  }

  close_commit :
      (h : Hash) (a b : LiveSet) → Grows r (mark_commit h a) b → IsCommitLive r b h → Grows r a b
  close_commit h a b g l = record {
    within = record {
      commits_in = λ k p. g.within.commits_in k (has-insert_keeps k h a.commits p);
      trees_in = g.within.trees_in;
      manifests_in = g.within.manifests_in;
      chunks_in = g.within.chunks_in;
      blobs_in = g.within.blobs_in;
    };
    commits_new = λ k p. elim (g.commits_new k p) [
      | inr live ↦ inr live
      | inl q ↦ elim (has-insert_only k h a.commits q) [
        | inl same ↦ inr (rw same l)
        | inr old ↦ inl old
      ]
    ];
    trees_new = g.trees_new;
    manifests_new = g.manifests_new;
  }

  -- A walk below a tree that grows the set and marks the tree.
  abbrev pub IsGrowing : (Hash → LiveSet → Result WalkError LiveSet) → Type 0
  IsGrowing below = (h : Hash) (a b : LiveSet) → below h a ≡ ok b → Grows r a b × In h b.trees

  pub walk_entry-Grows :
      (below : Hash → LiveSet → Result WalkError LiveSet)
      → IsGrowing below
      → (mode : Mode) (h : Hash) (a b : LiveSet) → walk_entry r below mode h a ≡ ok b
      → Grows r a b × IsEntryLive b mode h
  walk_entry-Grows below ih Mode.tree h a b e = ih h a b e
  walk_entry-Grows below ih Mode.manifest h a b e =
      walk_manifest-Grows r h a b (map_err-eq-ok WalkError.failed (walk_manifest r h a) e)
  walk_entry-Grows below ih Mode.blob h a b e =
      let q : insert_blobs (h ∷ []) a ≡ b = cc e in
      let (g, p) = insert_blobs-Grows r (h ∷ []) a in rw (← q) (g, p.0)

  walk_entries-Grows :
      (below : Hash → LiveSet → Result WalkError LiveSet)
      → IsGrowing below
      → (entries : List (Bytes × Entry)) (a b : LiveSet) → walk_entries r below entries a ≡ ok b
      → Grows r a b × All (λ e. IsEntryLive b e.1.mode e.1.hash) entries
  unfolding walk_entries
  walk_entries-Grows below ih [] a b e = (let q : a ≡ b = cc e in rw (← q) (Grows-refl r a, tt))
  walk_entries-Grows below ih ((name, entry) ∷ entries) a b e =
      let (c, f, e₁) = >>=-eq-ok (walk_entry r below entry.mode entry.hash a) _ e in
      let (g, l) = walk_entry-Grows below ih entry.mode entry.hash a c f in
      let (g', ls) = walk_entries-Grows below ih entries c b e₁ in
      (Grows-trans r a c b g g', (IsEntryLive-mono r c b g'.within entry.mode entry.hash l, ls))

  pub walk_tree-Grows : (fuel : ℕ) → IsGrowing (walk_tree r fuel)
  unfolding walk_tree
  walk_tree-Grows zero h a b e = absurd (cc e)
  walk_tree-Grows (suc fuel) h a b e = elim (Bool-cases (has h a.trees)) [
    | inl y ↦ (let q : a ≡ b = cc (rw (y, walk_tree) at e) in rw (← q) (Grows-refl r a, y))
    | inr n ↦
        let (tree, f, e₁) =
          >>=-eq-ok (map_err WalkError.failed (load_tree r h)) _ (rw (n, walk_tree) at e) in
        let (g, l) =
          walk_entries-Grows (walk_tree r fuel) (walk_tree-Grows fuel) tree.entries (mark_tree h a)
            b e₁ in
        (
          close_tree h a b g (tree, (map_err-eq-ok WalkError.failed (load_tree r h) f, l)),
          g.within.trees_in h (has-insert h a.trees),
        )
  ]

  abbrev IsWalked : List Hash → LiveSet → LiveSet → Type 0
  IsWalked queue a b = Grows r a b × AreIn queue b.commits

  pushed_all :
      (hashes queue : List Hash) (set : HashSet)
      → AreIn (pushed hashes queue) set
      → AreIn hashes set × AreIn queue set
  pushed_all [] queue set p = (tt, p)
  pushed_all (h ∷ hashes) queue set p =
      let (q, (s, t)) = pushed_all hashes (h ∷ queue) set p in ((s, q), t)

  walk_commits-Grows :
      (depth fuel : ℕ) (queue : List Hash) (a b : LiveSet)
      → walk_commits r depth fuel queue a ≡ ok b
      → IsWalked queue a b
  unfolding walk_commits
  walk_commits-Grows depth fuel [] a b e = (let q : a ≡ b = cc e in rw (← q) (Grows-refl r a, tt))
  walk_commits-Grows depth zero (h ∷ queue) a b e = elim (Bool-cases (has h a.commits)) [
    | inr n ↦ absurd (cc (rw (n, walk_commits) at e))
    | inl y ↦
        let (g, p) = walk_commits-Grows depth zero queue a b (rw (y, walk_commits) at e) in
        (g, (g.within.commits_in h y, p))
  ]
  walk_commits-Grows depth (suc fuel) (h ∷ queue) a b e = elim (Bool-cases (has h a.commits)) [
    | inl y ↦
        let (g, p) = walk_commits-Grows depth (suc fuel) queue a b (rw (y, walk_commits) at e) in
        (g, (g.within.commits_in h y, p))
    | inr n ↦
        let (c, f, e₁) =
          >>=-eq-ok (map_err WalkError.failed (load_commit r h)) _ (rw (n, walk_commits) at e) in
        let (d, t, e₂) = >>=-eq-ok (walk_tree r depth c.tree (mark_commit h a)) _ e₁ in
        let (g, k) = walk_tree-Grows depth c.tree (mark_commit h a) d t in
        let (g', p) = walk_commits-Grows depth fuel (pushed c.parents queue) d b e₂ in
        let (ps, qs) = pushed_all c.parents queue b.commits p in
        let all = Grows-trans r (mark_commit h a) d b g g' in
        let live : IsCommitLive r b h = (
          c,
          (map_err-eq-ok WalkError.failed (load_commit r h) f, g'.within.trees_in c.tree k, ps),
        ) in
        (close_commit h a b all live, (all.within.commits_in h (has-insert h a.commits), qs))
  ]

  -- Every commit, tree and manifest in the set has in the set what the walk follows from it.
  pub record IsClosed (live : LiveSet) : Type 0 where
    pub commits_closed : (h : Hash) → In h live.commits → IsCommitLive r live h
    pub trees_closed : (h : Hash) → In h live.trees → IsTreeLive r live h
    pub manifests_closed : (h : Hash) → In h live.manifests → IsManifestLive r live h

  IsClosed-of_Grows : (a b : LiveSet) → Grows r a b → IsClosed a → IsClosed b
  IsClosed-of_Grows a b g c = record {
    commits_closed = λ h p. elim (g.commits_new h p) [
      | inr live ↦ live
      | inl old ↦ IsCommitLive-mono r a b g.within h (c.commits_closed h old)
    ];
    trees_closed = λ h p. elim (g.trees_new h p) [
      | inr live ↦ live
      | inl old ↦ IsTreeLive-mono r a b g.within h (c.trees_closed h old)
    ];
    manifests_closed = λ h p. elim (g.manifests_new h p) [
      | inr live ↦ live
      | inl old ↦ IsManifestLive-mono r a b g.within h (c.manifests_closed h old)
    ];
  }

  nothing_live-IsClosed : IsClosed nothing_live
  nothing_live-IsClosed = record {
    commits_closed = λ h p. absurd (cc p);
    trees_closed = λ h p. absurd (cc p);
    manifests_closed = λ h p. absurd (cc p);
  }

  insert_share-Grows :
      (h : Hash) (a : LiveSet) → Grows r a (record a { shares = insert h a.shares })
  insert_share-Grows h a = record {
    within = record {
      commits_in = λ k p. p;
      trees_in = λ k p. p;
      manifests_in = λ k p. p;
      chunks_in = λ k p. p;
      blobs_in = λ k p. p;
    };
    commits_new = λ k p. inl p;
    trees_new = λ k p. inl p;
    manifests_new = λ k p. inl p;
  }

  insert_shares_keeps :
      (hashes : List Hash) (a : LiveSet) (k : Hash)
      → In k a.shares
      → In k (insert_shares hashes a).shares
  insert_shares_keeps [] a k p = p
  insert_shares_keeps (h ∷ hashes) a k p =
      insert_shares_keeps hashes (record a { shares = insert h a.shares }) k
        (has-insert_keeps k h a.shares p)

  insert_shares-Grows :
      (hashes : List Hash) (a : LiveSet)
      → Grows r a (insert_shares hashes a) × AreIn hashes (insert_shares hashes a).shares
  insert_shares-Grows [] a = (Grows-refl r a, tt)
  insert_shares-Grows (h ∷ hashes) a =
      let a' = record a { shares = insert h a.shares } in
      let (g, p) = insert_shares-Grows hashes a' in
      (
        Grows-trans r a a' (insert_shares hashes a') (insert_share-Grows h a) g,
        (insert_shares_keeps hashes a' h (has-insert h a.shares), p),
      )

  -- A walk that returns a live set has the roots and the shares in it, and for each commit in it the
  -- parents and the tree, for each tree the trees, manifests and blobs of its entries, and for each
  -- manifest that could be read the probes and the source, with the chunks where that is a chunk list.
  -- The schema of a manifest need not be in it, nor anything that an unreadable manifest refers to.
  pub walk-IsClosed :
      (depth fuel : ℕ) (roots shares : List Hash) (live : LiveSet)
      → walk r depth fuel roots shares ≡ ok live
      → IsClosed live × AreIn roots live.commits × AreIn shares live.shares
  unfolding walk
  walk-IsClosed depth fuel roots shares live e =
      let (a, f, e₁) = >>=-eq-ok (walk_commits r depth fuel (pushed roots []) nothing_live) _ e in
      let q : insert_shares shares a ≡ live = cc e₁ in
      let (g, p) = walk_commits-Grows depth fuel (pushed roots []) nothing_live a f in
      let (rs, _) = pushed_all roots [] a.commits p in
      let (s, ss) = insert_shares-Grows shares a in
      let closed =
        IsClosed-of_Grows a (insert_shares shares a) s
          (IsClosed-of_Grows nothing_live a g nothing_live-IsClosed) in
      rw (← q) (
        closed,
        All-map (λ h. In h a.commits) (λ h. In h (insert_shares shares a).commits)
            s.within.commits_in roots rs,
        ss,
      )
