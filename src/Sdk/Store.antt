-- ===== src/Sdk/Store.antt =====
-- The SDK's `KVStore`, as the keepers use it: `Get`, `Set`, `Delete` and prefix iteration.
use mathlib.Core.List.{Memᴰ}
use cosmos_swap.Prelude.{
  true, has_prefix, ◌≡◌, Option, none, some, List, Bytes, bytes_eq, ◌==◌, if◌then◌else◌,
}

pub record KvStore : Type 1 where
  pub Store : Type 0
  -- `Get` returns nil, here `none`, on a missing key
  pub get : Store → Bytes → Option Bytes
  pub set : Store → Bytes → Bytes → Store
  pub delete : Store → Bytes → Store
  -- the entries under a prefix, in key order
  pub iterate : Store → Bytes → List (Bytes × Bytes)

-- A write is read back, and touches no other key.
pub record KvLaws (kv : KvStore) : Type 0 where
  pub get-set :
      (s : kv.Store) (k v q : Bytes)
      → kv.get (kv.set s k v) q ≡ (if k == q then some v else kv.get s q)
  -- An iteration over a prefix meets every key that has it.
  pub iterate-get :
      (s : kv.Store) (prefix key v : Bytes)
      → kv.get s key ≡ some v
      → has_prefix key prefix ≡ true
      → Memᴰ (key, v) (kv.iterate s prefix)
  pub get-delete :
      (s : kv.Store) (k q : Bytes)
      → kv.get (kv.delete s k) q ≡ (if k == q then none else kv.get s q)
