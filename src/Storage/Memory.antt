-- ===== src/Storage/Memory.antt =====
-- crates/core/src/storage/memory.rs: `MemStorage`, over a table that is DashMap of the library: a
-- record of its operations, with what it documents of them. Storage/Memory/Written says what is
-- stored after any writes.
pub mod Written
use Prim.Native.String.{String}
use text.Mathlib.Text.{◌==◌ as str_eq}
use text.Mathlib.TextEquality.{eq_iff}
use bns_node.Common.{
  arith, Bool-cases, subst, inl, inr, ℕ, ◌%◌, ◌^◌, ◌≡◌, ◌∙◌, refl, sym, ap, ◌↔◌, Option, none, some,
  List, [], ◌∷◌, Member, length, if◌then◌else◌, Result, ok,
}
use bns_node.Storage.{KvStorage, IsStorage}

-- What is used of DashMap with strings for keys; `default` is the empty map.
pub record DashMap (V M : Type 0) : Type 0 where
  pub default : M
  pub get : M → String → Option V
  pub insert : M → String → V → M
  pub remove : M → String → M
  pub into_iter : M → List (String × V)
  pub clear : M → M
  pub len : M → ℕ

-- No key occurs twice.
abbrev pub IsKeyed : {V : Type 0} → List (String × V) → Type 0
IsKeyed [] = Unit
IsKeyed {V} ((k, v) ∷ l) = ((w : V) → ¬ Member (k, w) l) × IsKeyed l

-- What it documents, on the maps `Good` that its operations make.
pub record IsDashMap {V M : Type 0} (d : DashMap V M) (Good : M → Type 0) : Type 0 where
  pub default-Good : Good d.default
  pub insert-Good : (m : M) (k : String) (v : V) → Good m → Good (d.insert m k v)
  pub remove-Good : (m : M) (k : String) → Good m → Good (d.remove m k)
  pub clear-Good : (m : M) → Good m → Good (d.clear m)
  pub get-default : (k : String) → d.get d.default k ≡ none
  pub get-insert :
      (m : M) (k j : String) (v : V)
      → Good m
      → d.get (d.insert m k v) j ≡ (if str_eq k j then some v else d.get m j)
  pub get-remove :
      (m : M) (k j : String)
      → Good m
      → d.get (d.remove m k) j ≡ (if str_eq k j then none else d.get m j)
  pub get-clear : (m : M) (k : String) → Good m → d.get (d.clear m) k ≡ none
  pub Member-into_iter :
      (m : M) (k : String) (v : V) → Good m → Member (k, v) (d.into_iter m) ↔ (d.get m k ≡ some v)
  pub into_iter-IsKeyed : (m : M) → Good m → IsKeyed (d.into_iter m)
  pub len-into_iter : (m : M) → Good m → d.len m ≡ length (d.into_iter m)

module _ {V M : Type 0} (table : DashMap V M) where
  unfoldable pub get : M → String → Result (Option V)
  get m key = ok (table.get m key)

  unfoldable pub put : M → String → V → M × Result (Unit {0})
  put m key value = (table.insert m key value, ok tt)

  unfoldable pub get_all : M → Result (List (String × V))
  get_all m = ok (table.into_iter m)

  -- The table is searched first, and only a key that is there is removed.
  unfoldable pub remove : M → String → M × Result (Unit {0})
  remove m key = elim (table.get m key) [ none ↦ (m, ok tt) | some v ↦ (table.remove m key, ok tt) ]

  unfoldable pub clear : M → M × Result (Unit {0})
  clear m = (table.clear m, ok tt)

  -- `as u32`
  unfoldable pub count : M → Result ℕ
  count m = ok (table.len m % 2 ^ 32)

  abbrev pub mem_storage : KvStorage V M
  mem_storage = record {
    get = get;
    put = put;
    get_all = get_all;
    remove = remove;
    clear = clear;
    count = count;
  }

  module _ {Good : M → Type 0} (good : IsDashMap table Good) where
    -- Removing a key that is not there is removing it all the same.
    remove_lem :
        (m : M) (k : String)
        → Good m
        → Good (remove m k).0
          × ((remove m k).1 ≡ ok tt)
          × ((j : String)
              → table.get (remove m k).0 j ≡ (if str_eq k j then none else table.get m j))
    unfolding remove
    remove_lem m k h = found (table.get m k) refl
      where
        none_else :
            (j : String)
            → table.get m k ≡ none
            → table.get m j ≡ (if str_eq k j then none else table.get m j)
        none_else j e = elim (Bool-cases (str_eq k j)) [
          | inl q ↦
              let same : k ≡ j = ground (arith, eq_iff k j) in
              rw q (subst (λ i. table.get m i ≡ none) same e)
          | inr q ↦ rw q refl
        ]

        found :
            (o : Option V)
            → table.get m k ≡ o
            → Good (remove m k).0
              × ((remove m k).1 ≡ ok tt)
              × ((j : String)
                  → table.get (remove m k).0 j ≡ (if str_eq k j then none else table.get m j))
        found none e = rw (remove, e) (h, refl, λ j. none_else j e)
        found (some v) e =
            rw (remove, e) (good.remove-Good m k h, refl, λ j. good.get-remove m k j h)

    pub mem_storage-IsStorage : IsStorage mem_storage Good
    unfolding get put get_all
    mem_storage-IsStorage = record {
      view = table.get;
      get-view = λ m k h. refl;
      put-Good = λ m k v h. good.insert-Good m k v h;
      put-ok = λ m k v h. refl;
      view-put = λ m k j v h. good.get-insert m k j v h;
      remove-Good = λ m k h. (remove_lem m k h).0;
      remove-ok = λ m k h. let (kept, went, rest) = remove_lem m k h in went;
      view-remove = λ m k j h. let (kept, went, rest) = remove_lem m k h in rest j;
      entries = table.into_iter;
      get_all-entries = λ m h. refl;
      Member-entries = λ m k v h. good.Member-into_iter m k v h;
    }
