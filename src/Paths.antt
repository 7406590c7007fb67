-- ===== src/Paths.antt =====
-- crates/omp-core/src/paths.rs: paths through nested trees, over any object store.
pub mod Loading
pub mod Put
pub mod Delete
pub mod Splitting
use open_memory_protocol.Base.{
  ℕ, [], ◌∷◌, ◌++◌, List, Bool, true, false, not, ◌==◌, ◌||◌, ◌&&◌, if◌then◌else◌, Option, none,
  some, Result, ok, err, ◌>>=◌, ◌>>◌, reject_if, ok_or,
}
use open_memory_protocol.Base.Bytes
use open_memory_protocol.Base.Bytes.{Bytes, codes, beq}
use open_memory_protocol.Base.Trim.{trim_end_matches}
use open_memory_protocol.Error.{OmpError}
use open_memory_protocol.Hash.{Hash}
use open_memory_protocol.Object
use open_memory_protocol.Object.{ObjectType}
use open_memory_protocol.Crypto.{Primitives}
use open_memory_protocol.Tree
use open_memory_protocol.Tree.{
  Mode, Entry, Tree, empty, parse_with_path_key, serialize_with_path_key,
}
use open_memory_protocol.Store.{ObjectStore}

-- `trim_matches` of one character.
trim_start_matches : ℕ → Bytes → Bytes
trim_start_matches d [] = []
trim_start_matches d (c ∷ s) = let rest = trim_start_matches d s in if c == d then rest else c ∷ s

unfoldable pub trim_matches : ℕ → Bytes → Bytes
unfolding trim_start_matches trim_end_matches
trim_matches d s = trim_end_matches d (trim_start_matches d s)

unfoldable pub is_bad_part : Bytes → Bool
is_bad_part s = beq s [] || beq s (codes ".") || beq s (codes "..")

unfoldable pub check_parts : List Bytes → Result OmpError Unit
check_parts [] = ok tt
check_parts (s ∷ parts) =
    let rest = check_parts parts in if is_bad_part s then err OmpError.invalid_path else rest

unfoldable pub split : Bytes → Result OmpError (List Bytes)
split path =
    let trimmed = trim_matches b'/' path in
    if beq trimmed []
    then ok []
    else (do let parts = Bytes.split b'/' trimmed; check_parts parts; ok parts)

unfoldable pub is_tree : Mode → Bool
is_tree Mode.tree = true
is_tree _ = false

abbrev pub mode_and_hash : Option Entry → Option (Mode × Hash)
mode_and_hash none = none
mode_and_hash (some entry) = some (entry.mode, entry.hash)

module _ (o : ObjectStore) (p : Primitives) (key : Option Bytes) where
  open o use {State}

  unfoldable pub load_tree_with_key : State → Hash → Result OmpError Tree
  load_tree_with_key s h = do
    found ← o.get s h
    (type, content) ← ok_or found OmpError.not_found
    reject_if (not (beq type (codes "tree"))) OmpError.corrupt
    parse_with_path_key p key content

  unfoldable pub store_tree_with_key : State → Tree → Result OmpError (Hash × State)
  store_tree_with_key s t = do
    bytes ← serialize_with_path_key p key t
    o.put s (Object.as_str ObjectType.tree) bytes

  -- What a step of the loop makes of an entry that is not the last.
  abbrev pub descend :
      State
      → Option Entry
      → (Tree → Result OmpError (Option (Mode × Hash)))
      → Result OmpError (Option (Mode × Hash))
  descend s none rest = ok none
  descend s (some entry) rest =
      if is_tree entry.mode then (load_tree_with_key s entry.hash >>= rest) else ok none

  -- The loop of `get_at_with_key` from the tree in hand. It is entered with at least one part.
  unfoldable pub get_from : State → Tree → List Bytes → Result OmpError (Option (Mode × Hash))
  get_from s current [] = err OmpError.internal
  get_from s current (part ∷ []) = ok (mode_and_hash (Tree.get current part))
  get_from s current (part ∷ next ∷ more) =
      descend s (Tree.get current part) (λ child. get_from s child (next ∷ more))

  unfoldable pub get_parts : State → Hash → List Bytes → Result OmpError (Option (Mode × Hash))
  get_parts s root [] = ok (some (Mode.tree, root))
  get_parts s root (part ∷ parts) = do
    current ← load_tree_with_key s root
    get_from s current (part ∷ parts)

  unfoldable pub get_at_with_key : State → Bytes → Hash → Result OmpError (Option (Mode × Hash))
  get_at_with_key s path root = do parts ← split path; get_parts s root parts

  unfoldable pub open_tree : State → Option Hash → Result OmpError Tree
  open_tree s none = ok empty
  open_tree s (some h) = load_tree_with_key s h

  -- The hash of the child to descend into, if there is one.
  unfoldable pub child_of : Option Entry → Result OmpError (Option Hash)
  child_of none = ok none
  child_of (some e) = if is_tree e.mode then ok (some e.hash) else err OmpError.conflict

  -- The first clause is not reached: the callers have tested that there is a part.
  unfoldable pub put_inner :
      State → Option Hash → List Bytes → Entry → Result OmpError (Hash × State)
  put_inner s current [] entry = err OmpError.internal
  put_inner s current (head ∷ []) entry = do
    tree ← open_tree s current
    tree' ← Tree.insert tree head entry
    store_tree_with_key s tree'
  put_inner s current (head ∷ next ∷ more) entry = do
    tree ← open_tree s current
    child ← child_of (Tree.get tree head)
    (new_child, s') ← put_inner s child (next ∷ more) entry
    tree' ← Tree.insert tree head (record { mode = Mode.tree; hash = new_child })
    store_tree_with_key s' tree'

  unfoldable pub put_parts :
      State → Option Hash → List Bytes → Entry → Result OmpError (Hash × State)
  put_parts s root [] entry = err OmpError.invalid_path
  put_parts s root (head ∷ more) entry = put_inner s root (head ∷ more) entry

  unfoldable pub put_at_with_key :
      State → Option Hash → Bytes → Entry → Result OmpError (Hash × State)
  put_at_with_key s root path entry = do parts ← split path; put_parts s root parts entry

  -- The end of `delete_inner`: an empty tree collapses, any other is stored.
  unfoldable pub store_or_collapse : State → Tree → Result OmpError (Option Hash × State)
  store_or_collapse s t =
      if Tree.is_empty t
      then ok (none, s)
      else (do (h, s') ← store_tree_with_key s t; ok (some h, s'))

  unfoldable pub replace_child : Tree → Bytes → Option Hash → Result OmpError Tree
  replace_child tree head (some new_child) =
      Tree.insert tree head (record { mode = Mode.tree; hash = new_child })
  replace_child tree head none = ok (Tree.remove tree head)

  -- What `delete_inner` makes of the entry of a part that is not the last: nothing is deleted below
  -- a missing entry or a file.
  abbrev pub delete_below :
      State
      → Hash
      → Option Entry
      → (Hash → Result OmpError (Option Hash × State))
      → Result OmpError (Option Hash × State)
  delete_below s current none rest = ok (some current, s)
  delete_below s current (some entry) rest =
      if is_tree entry.mode then rest entry.hash else ok (some current, s)

  unfoldable pub delete_inner : State → Hash → List Bytes → Result OmpError (Option Hash × State)
  delete_inner s current [] = err OmpError.internal
  delete_inner s current (head ∷ []) = do
    tree ← load_tree_with_key s current
    store_or_collapse s (Tree.remove tree head)
  delete_inner s current (head ∷ next ∷ more) = do
    tree ← load_tree_with_key s current
    delete_below s current (Tree.get tree head) (λ child_hash. do
      (child, s') ← delete_inner s child_hash (next ∷ more)
      tree' ← replace_child tree head child
      store_or_collapse s' tree')

  unfoldable pub delete_parts : State → Hash → List Bytes → Result OmpError (Option Hash × State)
  delete_parts s root [] = err OmpError.invalid_path
  delete_parts s root (head ∷ more) = delete_inner s root (head ∷ more)

  unfoldable pub delete_at_with_key : State → Hash → Bytes → Result OmpError (Option Hash × State)
  delete_at_with_key s root path = do parts ← split path; delete_parts s root parts
