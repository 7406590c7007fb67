-- ===== src/Gc/Fuel.antt =====
-- The fuel of the walk of crates/omp-core/src/gc.rs: one unit for each known hash, and one more in depth.
use open_memory_protocol.Base.{
  ℕ, zero, suc, ◌+◌, ◌<◌, ◌≤◌, List, [], ◌∷◌, ok, err, Result, >>=-eq-err, map_err, map_err-eq-ok,
  Bool-cases, All, length, inl, inr, ◌≡◌, ◌≢◌, arith,
}
use open_memory_protocol.Base.Bytes.{Bytes}
use open_memory_protocol.Base.HashSet.{
  In, has, insert, missing, missing-length, missing_mono, missing-insert,
}
use open_memory_protocol.Error.{OmpError}
use open_memory_protocol.Hash.{Hash}
use open_memory_protocol.Tree.{Mode, Entry, Tree}
use open_memory_protocol.Commit.{Commit}
use open_memory_protocol.Gc.{
  LiveSet, nothing_live, Source, WalkError, load_tree, load_commit, mark_tree, mark_commit, pushed,
  walk_manifest, walk_entry, walk_entries, walk_tree, walk_commits, walk,
}
use open_memory_protocol.Gc.Live.{AreIn}
use open_memory_protocol.Gc.Reachable.{IsGrowing, walk_entry-Grows, walk_tree-Grows}

abbrev pub IsBelowKnown : List Hash → Mode → Hash → Type 0
IsBelowKnown known Mode.tree h = In h known
IsBelowKnown known _ h = Unit

-- A list of hashes that has, for each tree in it, the trees below, and for each commit in it, the
-- parents and the tree.
pub record IsUniverse (r : Source) (known : List Hash) : Type 0 where
  pub trees_known :
      (h : Hash) (tree : Tree)
      → In h known
      → load_tree r h ≡ ok tree
      → All (λ e. IsBelowKnown known e.1.mode e.1.hash) tree.entries
  pub commits_known :
      (h : Hash) (c : Commit)
      → In h known
      → load_commit r h ≡ ok c
      → In c.tree known × AreIn c.parents known

no_fuel_error :
    {A : Type 0} (m : Result OmpError A) → map_err WalkError.failed m ≢ err WalkError.out_of_fuel
no_fuel_error (ok a) e = cc e
no_fuel_error (err x) e = cc e

module _ (r : Source) (known : List Hash) (universe : IsUniverse r known) where
  -- A walk below a tree that does not run out of fuel while fewer than `n` known trees are unmarked.
  abbrev IsLasting : ℕ → (Hash → LiveSet → Result WalkError LiveSet) → Type 0
  IsLasting n below =
      (h : Hash) (a : LiveSet)
      → In h known
      → missing known a.trees < n
      → below h a ≢ err WalkError.out_of_fuel

  walk_entry_lasts :
      (n : ℕ) (below : Hash → LiveSet → Result WalkError LiveSet)
      → IsLasting n below
      → (mode : Mode) (h : Hash) (a : LiveSet) → IsBelowKnown known mode h
      → missing known a.trees < n
      → walk_entry r below mode h a ≢ err WalkError.out_of_fuel
  walk_entry_lasts n below ih Mode.tree h a k lt e = ih h a k lt e
  walk_entry_lasts n below ih Mode.manifest h a k lt e = no_fuel_error (walk_manifest r h a) e
  walk_entry_lasts n below ih Mode.blob h a k lt e = cc e

  walk_entries_last :
      (n : ℕ) (below : Hash → LiveSet → Result WalkError LiveSet)
      → IsGrowing r below
      → IsLasting n below
      → (entries : List (Bytes × Entry)) (a : LiveSet)
      → All (λ e. IsBelowKnown known e.1.mode e.1.hash) entries
      → missing known a.trees < n
      → walk_entries r below entries a ≢ err WalkError.out_of_fuel
  unfolding walk_entries
  walk_entries_last n below grows ih [] a _ lt e = cc e
  walk_entries_last n below grows ih ((name, entry) ∷ entries) a (k, ks) lt e =
      elim (>>=-eq-err (walk_entry r below entry.mode entry.hash a) _ e) [
        | inl bad ↦ walk_entry_lasts n below ih entry.mode entry.hash a k lt bad
        | inr (b, (f, e₁)) ↦
            let (g, _) = walk_entry-Grows r below grows entry.mode entry.hash a b f in
            walk_entries_last n below grows ih entries b ks
              (omega (arith, missing_mono known a.trees b.trees g.within.trees_in)) e₁
      ]

  walk_tree_lasts : (fuel : ℕ) → IsLasting fuel (walk_tree r fuel)
  unfolding walk_tree
  walk_tree_lasts zero h a k lt e = omega arith
  walk_tree_lasts (suc fuel) h a k lt e = elim (Bool-cases (has h a.trees)) [
    | inl y ↦ cc (rw (y, walk_tree) at e)
    | inr n ↦
        elim (>>=-eq-err (map_err WalkError.failed (load_tree r h)) _ (rw (n, walk_tree) at e)) [
          | inl bad ↦ no_fuel_error (load_tree r h) bad
          | inr (tree, (f, e₁)) ↦
              let loaded = map_err-eq-ok WalkError.failed (load_tree r h) f in
              walk_entries_last fuel (walk_tree r fuel) (walk_tree-Grows r fuel)
                (walk_tree_lasts fuel) tree.entries (mark_tree h a)
                (universe.trees_known h tree k loaded)
                (omega (arith, missing-insert known h a.trees k n)) e₁
        ]
  ]

  pushed_in :
      (hashes queue : List Hash)
      → AreIn hashes known
      → AreIn queue known
      → AreIn (pushed hashes queue) known
  pushed_in [] queue p q = q
  pushed_in (h ∷ hashes) queue (p, ps) q = pushed_in hashes (h ∷ queue) ps (p, q)

  walk_commits_last :
      (fuel : ℕ) (queue : List Hash) (a : LiveSet)
      → AreIn queue known
      → missing known a.commits ≤ fuel
      → walk_commits r (length known + 1) fuel queue a ≢ err WalkError.out_of_fuel
  unfolding walk_commits
  walk_commits_last fuel [] a _ lt e = cc e
  walk_commits_last zero (h ∷ queue) a (k, ks) lt e = elim (Bool-cases (has h a.commits)) [
    | inl y ↦ walk_commits_last zero queue a ks lt (rw (y, walk_commits) at e)
    | inr n ↦ omega (arith, missing-insert known h a.commits k n)
  ]
  walk_commits_last (suc fuel) (h ∷ queue) a (k, ks) lt e = elim (Bool-cases (has h a.commits)) [
    | inl y ↦ walk_commits_last (suc fuel) queue a ks lt (rw (y, walk_commits) at e)
    | inr n ↦
        elim (>>=-eq-err (map_err WalkError.failed (load_commit r h)) _
          (rw (n, walk_commits) at e)) [
            | inl bad ↦ no_fuel_error (load_commit r h) bad
            | inr (c, (f, e₁)) ↦
                let (t, ps) =
                  universe.commits_known h c k
                    (map_err-eq-ok WalkError.failed (load_commit r h) f) in
                elim (>>=-eq-err (walk_tree r (length known + 1) c.tree (mark_commit h a)) _ e₁) [
                  | inl bad ↦
                      walk_tree_lasts (length known + 1) c.tree (mark_commit h a) t
                        (omega (arith, missing-length known a.trees)) bad
                  | inr (d, (g, e₂)) ↦
                      let (grown, _) =
                        walk_tree-Grows r (length known + 1) c.tree (mark_commit h a) d g in
                      walk_commits_last fuel (pushed c.parents queue) d
                        (pushed_in c.parents queue ps ks)
                        (omega (
                          arith,
                          missing_mono known (insert h a.commits) d.commits grown.within.commits_in,
                          missing-insert known h a.commits k n,
                        ))
                        e₂
                ]
          ]
  ]

  -- In a store whose reachable hashes are among the known ones, the walk from known roots ends: with a
  -- depth of one more than their number and fuel of their number it returns a live set or an error of
  -- the source, and does not run out of fuel.
  pub walk-ends :
      (roots shares : List Hash)
      → AreIn roots known
      → walk r (length known + 1) (length known) roots shares ≢ err WalkError.out_of_fuel
  unfolding walk
  walk-ends roots shares k e =
      elim (>>=-eq-err
        (walk_commits r (length known + 1) (length known) (pushed roots []) nothing_live) _ e) [
          | inl bad ↦
              walk_commits_last (length known) (pushed roots []) nothing_live
                (pushed_in roots [] k tt) (missing-length known []) bad
          | inr (live, (f, e₁)) ↦ cc e₁
        ]
