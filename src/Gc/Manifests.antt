-- ===== src/Gc/Manifests.antt =====
-- The blobs, chunk lists and manifests that the walk of crates/omp-core/src/gc.rs marks.
use open_memory_protocol.Base.{
  ok_or, List, [], ◌∷◌, Option, none, some, ok, >>=-eq-ok, ok_or-eq-ok, Bool-cases, All-map, map,
  inl, inr, ◌≡◌, ap, ◌∙◌,
}
use open_memory_protocol.Base.Bytes.{Bytes, codes, beq, beq_iff}
use open_memory_protocol.Base.HashSet.{
  In, has, insert, has-insert, has-insert_keeps, has-insert_only,
}
use open_memory_protocol.Error.{OmpError}
use open_memory_protocol.Hash.{Hash}
use open_memory_protocol.Chunks
use open_memory_protocol.Chunks.{ChunkEntry, ChunksBody}
use open_memory_protocol.Query.Evaluate.{Manifest}
use open_memory_protocol.Gc.{
  LiveSet, Source, fetch, read_manifest, insert_blobs, mark_manifest, mark_chunks, walk_source,
  walk_manifest, walk_contents,
}
use open_memory_protocol.Gc.Live.{
  AreIn, IsSourceLive, AreContentsLive, IsManifestLive, Grows, Grows-refl, Grows-trans,
}

module _ (r : Source) where
  insert_blob-Grows : (h : Hash) (a : LiveSet) → Grows r a (record a { blobs = insert h a.blobs })
  insert_blob-Grows h a = record {
    within = record {
      commits_in = λ k p. p;
      trees_in = λ k p. p;
      manifests_in = λ k p. p;
      chunks_in = λ k p. p;
      blobs_in = λ k p. has-insert_keeps k h a.blobs p;
    };
    commits_new = λ k p. inl p;
    trees_new = λ k p. inl p;
    manifests_new = λ k p. inl p;
  }

  mark_chunks-Grows : (h : Hash) (a : LiveSet) → Grows r a (mark_chunks h a)
  mark_chunks-Grows h a = record {
    within = record {
      commits_in = λ k p. p;
      trees_in = λ k p. p;
      manifests_in = λ k p. p;
      chunks_in = λ k p. has-insert_keeps k h a.chunks_objects p;
      blobs_in = λ k p. p;
    };
    commits_new = λ k p. inl p;
    trees_new = λ k p. inl p;
    manifests_new = λ k p. inl p;
  }

  pub insert_blobs-Grows :
      (hashes : List Hash) (a : LiveSet)
      → Grows r a (insert_blobs hashes a) × AreIn hashes (insert_blobs hashes a).blobs
  insert_blobs-Grows [] a = (Grows-refl r a, tt)
  insert_blobs-Grows (h ∷ hashes) a =
      let a' = record a { blobs = insert h a.blobs } in
      let (g, p) = insert_blobs-Grows hashes a' in
      (
        Grows-trans r a a' (insert_blobs hashes a') (insert_blob-Grows h a) g,
        (g.within.blobs_in h (has-insert h a.blobs), p),
      )

  chunks-Grows :
      (h : Hash) (parsed : ChunksBody) (a b : LiveSet)
      → insert_blobs (map (λ (e : ChunkEntry). e.hash) parsed.entries) (mark_chunks h a) ≡ b
      → Grows r a b
        × (In h b.chunks_objects × AreIn (map (λ (e : ChunkEntry). e.hash) parsed.entries) b.blobs)
  chunks-Grows h parsed a b q =
      let hashes = map (λ (e : ChunkEntry). e.hash) parsed.entries in
      let (g, p) = insert_blobs-Grows hashes (mark_chunks h a) in
      rw (← q) (
        Grows-trans r a (mark_chunks h a) (insert_blobs hashes (mark_chunks h a))
            (mark_chunks-Grows h a) g,
        (g.within.chunks_in h (has-insert h a.chunks_objects), p),
      )

  walk_source-Grows :
      (h : Hash) (a b : LiveSet) → walk_source r h a ≡ ok b → Grows r a b × IsSourceLive r b h
  unfolding walk_source
  walk_source-Grows h a b e =
      let (found, f, e₁) = >>=-eq-ok (r.store.get r.state h) _ e in
      let ((type, body), o, e₂) = >>=-eq-ok (ok_or found OmpError.not_found) _ e₁ in
      let stands = ok_or-eq-ok found _ o in
      elim (Bool-cases (beq type (codes "blob"))) [
        | inl y ↦
            let q : insert_blobs (h ∷ []) a ≡ b = cc (rw y at e₂) in
            let (g, p) = insert_blobs-Grows (h ∷ []) a in rw (← q) (g, inl p.0)
        | inr n ↦ elim (Bool-cases (beq type (codes "chunks"))) [
          | inr m ↦ absurd (cc (rw (n, m) at e₂))
          | inl y ↦
              let (parsed, p, e₃) = >>=-eq-ok (Chunks.parse body) _ (rw (n, y) at e₂) in
              let (g, l) = chunks-Grows h parsed a b (cc e₃) in
              let chunked = (beq_iff type (codes "chunks")).0 y in
              let found_chunks : r.store.get r.state h ≡ ok (some (codes "chunks", body)) =
                (f ∙ ap ok stands ∙ ap (λ t. ok (some (t, body))) chunked) in
              (g, inr (body, (parsed, (found_chunks, p, l.0, l.1))))
        ]
      ]

  -- What grows from a set where the manifest is marked grows from the set before, once the manifest's
  -- references are live.
  close_manifest :
      (h : Hash) (a b : LiveSet)
      → Grows r (mark_manifest h a) b
      → IsManifestLive r b h
      → Grows r a b
  close_manifest h a b g l = record {
    within = record {
      commits_in = g.within.commits_in;
      trees_in = g.within.trees_in;
      manifests_in = λ k p. g.within.manifests_in k (has-insert_keeps k h a.manifests p);
      chunks_in = g.within.chunks_in;
      blobs_in = g.within.blobs_in;
    };
    commits_new = g.commits_new;
    trees_new = g.trees_new;
    manifests_new = λ k p. elim (g.manifests_new k p) [
      | inr live ↦ inr live
      | inl q ↦ elim (has-insert_only k h a.manifests q) [
        | inl same ↦ inr (rw same l)
        | inr old ↦ inl old
      ]
    ];
  }

  walk_contents-Grows :
      (found : Option (Manifest r.floats)) (a b : LiveSet)
      → walk_contents r found a ≡ ok b
      → Grows r a b × AreContentsLive r b found
  walk_contents-Grows none a b e = (let q : a ≡ b = cc e in rw (← q) (Grows-refl r a, tt))
  walk_contents-Grows (some m) a b e =
      let probes = map (λ (e : Bytes × Hash). e.1) m.probe_hashes in
      let (g, p) = insert_blobs-Grows probes a in
      let (g', l) = walk_source-Grows m.source_hash (insert_blobs probes a) b e in
      (
        Grows-trans r a (insert_blobs probes a) b g g',
        (
          All-map (λ h. In h (insert_blobs probes a).blobs) (λ h. In h b.blobs) g'.within.blobs_in
              probes p,
          l,
        ),
      )

  pub walk_manifest-Grows :
      (h : Hash) (a b : LiveSet) → walk_manifest r h a ≡ ok b → Grows r a b × In h b.manifests
  unfolding walk_manifest
  walk_manifest-Grows h a b e = elim (Bool-cases (has h a.manifests)) [
    | inl y ↦ (let q : a ≡ b = cc (rw y at e) in rw (← q) (Grows-refl r a, y))
    | inr n ↦
        let (body, f, e₁) = >>=-eq-ok (fetch r (codes "manifest") h) _ (rw n at e) in
        let (found, m, e₂) = >>=-eq-ok (read_manifest r body) _ e₁ in
        let (g, l) = walk_contents-Grows found (mark_manifest h a) b e₂ in
        (
          close_manifest h a b g (body, (found, (f, m, l))),
          g.within.manifests_in h (has-insert h a.manifests),
        )
  ]
