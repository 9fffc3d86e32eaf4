-- ===== src/Storage.antt =====
-- crates/core/src/storage/mod.rs: the interface of a key-value store, over its states `S`, and
-- what a store that works promises. Storage/Memory has the store of storage/memory.rs.
pub mod Memory
use Prim.Native.String.{String}
use text.Mathlib.Text.{◌==◌ as str_eq}
use bns_node.Common.{
  ℕ, ◌≡◌, ◌↔◌, Option, none, some, List, [], ◌∷◌, Member, if◌then◌else◌, Result, ok,
}

pub record KvStorage (V S : Type 0) : Type 0 where
  pub get : S → String → Result (Option V)
  pub put : S → String → V → S × Result (Unit {0})
  pub get_all : S → Result (List (String × V))
  pub remove : S → String → S × Result (Unit {0})
  pub clear : S → S × Result (Unit {0})
  pub count : S → Result ℕ

-- On the states that are `Good`, no operation fails, and the store is a map: what was put under a
-- key is found there and nothing else changes, what was removed is not found, and `get_all` lists
-- the entries.
pub record IsStorage {V S : Type 0} (kv : KvStorage V S) (Good : S → Type 0) : Type 0 where
  pub view : S → String → Option V
  pub get-view : (s : S) (k : String) → Good s → kv.get s k ≡ ok (view s k)
  pub put-Good : (s : S) (k : String) (v : V) → Good s → Good (kv.put s k v).0
  pub put-ok : (s : S) (k : String) (v : V) → Good s → (kv.put s k v).1 ≡ ok tt
  pub view-put :
      (s : S) (k j : String) (v : V)
      → Good s
      → view (kv.put s k v).0 j ≡ (if str_eq k j then some v else view s j)
  pub remove-Good : (s : S) (k : String) → Good s → Good (kv.remove s k).0
  pub remove-ok : (s : S) (k : String) → Good s → (kv.remove s k).1 ≡ ok tt
  pub view-remove :
      (s : S) (k j : String)
      → Good s
      → view (kv.remove s k).0 j ≡ (if str_eq k j then none else view s j)
  pub entries : S → List (String × V)
  pub get_all-entries : (s : S) → Good s → kv.get_all s ≡ ok (entries s)
  pub Member-entries :
      (s : S) (k : String) (v : V) → Good s → Member (k, v) (entries s) ↔ (view s k ≡ some v)
