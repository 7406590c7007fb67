-- ===== src/Store.antt =====
-- The `ObjectStore` trait of crates/omp-core/src/store/mod.rs, as far as trees and commits use it.

use open_memory_protocol.Base.{Option, some, Result, ok, ◌≡◌, ◌⊎◌}
use open_memory_protocol.Base.Bytes.{Bytes}
use open_memory_protocol.Error.{OmpError}
use open_memory_protocol.Hash.{Hash, IsHash}

-- The methods `put` and `get`, with the state of the store passed on. An object is its type's name
-- and its content.
pub record ObjectStore : Type 1 where
  pub State : Type 0
  pub get : State → Hash → Result OmpError (Option (Bytes × Bytes))
  pub put : State → Bytes → Bytes → Result OmpError (Hash × State)

-- A store in which a `put` that succeeds makes its object readable under the returned hash, keeps every
-- object that was readable, and adds no other. A store whose hashes can collide is none: the disk store
-- leaves the object that it has. `Disk.Careful` has the one that refuses a `put` there.
pub record IsContentStore (o : ObjectStore) : Type 0 where
  pub put_hash :
      (s s' : o.State) (type content : Bytes) (h : Hash)
      → o.put s type content ≡ ok (h, s')
      → IsHash h
  pub get-put :
      (s s' : o.State) (type content : Bytes) (h : Hash)
      → o.put s type content ≡ ok (h, s')
      → o.get s' h ≡ ok (some (type, content))
  pub get_keeps :
      (s s' : o.State) (type content : Bytes) (h k : Hash) (x : Bytes × Bytes)
      → o.put s type content ≡ ok (h, s')
      → o.get s k ≡ ok (some x)
      → o.get s' k ≡ ok (some x)
  pub get_only :
      (s s' : o.State) (type content : Bytes) (h k : Hash) (x : Bytes × Bytes)
      → o.put s type content ≡ ok (h, s')
      → o.get s' k ≡ ok (some x)
      → (x ≡ (type, content)) ⊎ (o.get s k ≡ ok (some x))
