-- ===== src/Examples/Tables.antt =====
-- A table that does what DashMap documents, and a store on it.
use Prim.Native.String.{String}
use text.Mathlib.TextEquality.{eq_iff}
use bns_node.Common.{
  ◌%◌, ◌^◌, ◌≡◌, ◌↔◌, refl, sym, List, [], ◌∷◌, Option, none, some, Member, length, Result, ok,
  arith,
}
use bns_node.VNode.{VirtualNode, data_type}
use bns_node.Storage.{KvStorage, IsStorage}
use bns_node.Storage.Memory
use bns_node.Storage.Memory.{DashMap, IsDashMap, IsKeyed, mem_storage, mem_storage-IsStorage}
use bns_node.Storage.Memory.Written.{Write, write_all, last_written, write_all_last}
use bns_node.Connections.Entries.{
  lookup, without, lookup-without, IsUnique, without-IsUnique, put-IsUnique, lookup-Member,
  Member-lookup,
}
use bns_node.Examples.{Store}

abbrev pub table : DashMap VirtualNode Store
table = record {
  default = [];
  get = λ m k. lookup k m;
  insert = λ m k v. (k, v) ∷ without k m;
  remove = λ m k. without k m;
  into_iter = λ m. m;
  clear = λ m. [];
  len = λ m. length m;
}

unique-IsKeyed : (m : Store) → IsUnique m → IsKeyed m
unique-IsKeyed [] u = tt
unique-IsKeyed ((k, v) ∷ m) u = ((λ w h. absurd (missing w h)), unique-IsKeyed m u.1)
  where
    missing : (w : VirtualNode) → Member (k, w) m → ⊥
    missing w h = let found = Member-lookup k w m u.1 h in cc

pub table-IsDashMap : IsDashMap table IsUnique
unfolding lookup
table-IsDashMap = record {
  default-Good = tt;
  insert-Good = λ m k v u. put-IsUnique k v m u;
  remove-Good = λ m k u. without-IsUnique k m u;
  clear-Good = λ m u. tt;
  get-default = λ k. refl;
  get-insert = λ m k j v u. ground (arith, lookup-without k j m, eq_iff k j);
  get-remove = λ m k j u. lookup-without k j m;
  get-clear = λ m k u. refl;
  Member-into_iter = λ m k v u. (Member-lookup k v m u, lookup-Member k v m);
  into_iter-IsKeyed = unique-IsKeyed;
  len-into_iter = λ m u. refl;
}

abbrev pub memory : KvStorage VirtualNode Store
memory = mem_storage table

abbrev pub memory-IsStorage : IsStorage memory IsUnique
memory-IsStorage = mem_storage-IsStorage table table-IsDashMap

-- What the store shows under a key is what the list has there.
pub view_lem : (m : Store) (k : String) → IsUnique m → memory-IsStorage.view m k ≡ lookup k m
unfolding Memory.get
view_lem m k u = ok-injective (sym (memory-IsStorage.get-view m k u))
  where
    ok-injective : {a b : Option VirtualNode} → Result.ok a ≡ ok b → a ≡ b
    ok-injective e = cc

abbrev one : VirtualNode
one = record { did = 15; entries = "a" ∷ []; kind = data_type }

abbrev writes : List (Write VirtualNode)
writes =
    Write.put_to "a" one
    ∷ Write.cleared
    ∷ Write.put_to "b" one
    ∷ Write.put_to "c" one
    ∷ Write.removed "b"
    ∷ Write.removed "d"
    ∷ []

last_test : (last_written writes "a" ≡ none) × (last_written writes "c" ≡ some one)
last_test = (refl, refl)

write_all_last_example :
    let (m, r) = write_all table writes table.default in
    (r ≡ ok tt)
    × ((k : String) → memory.get m k ≡ ok (last_written writes k))
    × ((l : List (String × VirtualNode)) × (memory.get_all m ≡ ok l)
        × ((k : String) (v : VirtualNode) → Member (k, v) l ↔ (last_written writes k ≡ some v))
        × IsKeyed l
        × (memory.count m ≡ ok (length l % 2 ^ 32)))
write_all_last_example = write_all_last table table-IsDashMap writes
