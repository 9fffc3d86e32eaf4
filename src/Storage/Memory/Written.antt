-- ===== src/Storage/Memory/Written.antt =====
-- What is in the memory store of crates/core/src/storage/memory.rs after any writes.
use Prim.Native.String.{String}
use text.Mathlib.Text.{◌==◌ as str_eq}
use bns_node.Common.{
  ◌%◌, ◌^◌, ◌≡◌, ◌∙◌, refl, sym, ap, ◌↔◌, Option, none, some, List, [], ◌∷◌, Member, length,
  if◌then◌else◌, Result, ok, Bool, true, false, subst,
}
use bns_node.Effect.{continue, Effect, ◌>>◌, pure}
use bns_node.Storage.Memory.{
  DashMap, IsDashMap, IsKeyed, mem_storage, get, put, remove, clear, get_all, count, remove_lem,
}

-- A call that changes the store.
pub data Write (V : Type 0) : Type 0 where
  put_to : String → V → Write V
  removed : String → Write V
  cleared : Write V

module _ {V : Type 0} where
  -- What a write says is under a key, if it says anything of it.
  abbrev told_by : Write V → String → Option (Option V)
  told_by (Write.put_to k v) j = if str_eq k j then some (some v) else none
  told_by (Write.removed k) j = if str_eq k j then some none else none
  told_by Write.cleared j = some none

  abbrev or_before : Option (Option V) → Option V → Option V
  or_before none before = before
  or_before (some now) before = now

  -- What the last of the writes that speaks of a key says of it.
  abbrev pub last_told : List (Write V) → String → Option (Option V)
  last_told [] j = none
  last_told (w ∷ ws) j = elim (last_told ws j) [ none ↦ told_by w j | some o ↦ some o ]

  -- What is under a key after writes to an empty store.
  abbrev pub last_written : List (Write V) → String → Option V
  last_written ws j = or_before (last_told ws j) none

module _ {V M : Type 0} (table : DashMap V M) where
  unfoldable pub write : Write V → Effect M (Unit {0})
  write (Write.put_to k v) m = put table m k v
  write (Write.removed k) m = remove table m k
  write Write.cleared m = clear table m

  unfoldable pub write_all : List (Write V) → Effect M (Unit {0})
  unfolding write
  write_all [] = pure tt
  write_all (w ∷ ws) = do write w; write_all ws

  module _ {Good : M → Type 0} (good : IsDashMap table Good) where
    told :
        (b : Bool) (before now : Option V)
        → (if b then now else before) ≡ or_before (if b then some now else none) before
    told true before now = refl
    told false before now = refl

    write_lem :
        (w : Write V) (m : M)
        → Good m
        → Good (write w m).0
          × ((write w m).1 ≡ ok tt)
          × ((j : String) → table.get (write w m).0 j ≡ or_before (told_by w j) (table.get m j))
    unfolding write put clear
    write_lem (Write.put_to k v) m h = (
      good.insert-Good m k v h,
      refl,
      λ j. good.get-insert m k j v h ∙ told (str_eq k j) (table.get m j) (some v),
    )
    write_lem (Write.removed k) m h =
        let (kept, went, found) = remove_lem table good m k h in
        (kept, went, λ j. found j ∙ told (str_eq k j) (table.get m j) none)
    write_lem Write.cleared m h = (good.clear-Good m h, refl, λ j. good.get-clear m j h)

    goes_on :
        (p : M × Result (Unit {0})) (next : Effect M (Unit {0}))
        → p.1 ≡ ok tt
        → continue p (λ u. next) ≡ next p.0
    unfolding continue
    goes_on (m, r) next e = rw e refl

    latest :
        (o : Option (Option V)) (first : Option (Option V)) (before : Option V)
        → or_before o (or_before first before)
          ≡ or_before (elim o [ none ↦ first | some a ↦ some a ]) before
    latest none first before = refl
    latest (some a) first before = refl

    -- All writes go well, and under each key is what the last write that speaks of it says.
    abbrev IsWritten : List (Write V) → M → M × Result (Unit {0}) → Type 0
    IsWritten ws m p =
        Good p.0
        × (p.1 ≡ ok tt)
        × ((j : String) → table.get p.0 j ≡ or_before (last_told ws j) (table.get m j))

    write_all_lem : (ws : List (Write V)) (m : M) → Good m → IsWritten ws m (write_all ws m)
    unfolding write_all
    write_all_lem [] m h = (h, refl, λ j. refl)
    write_all_lem (w ∷ ws) m h =
        let (kept, went, told_first) = write_lem w m h in
        let (good_end, well, told_rest) = write_all_lem ws (write w m).0 kept in
        subst (IsWritten (w ∷ ws) m) (sym (goes_on (write w m) (write_all ws) went)) (
          good_end,
          well,
          λ j.
              told_rest j
              ∙ ap (or_before (last_told ws j)) (told_first j)
              ∙ latest (last_told ws j) (told_by w j) (table.get m j),
        )

    -- If the table does what DashMap documents, then whatever is put, removed and cleared, in any
    -- order, no call fails on a new store; a key then has what the last write that speaks of it
    -- put there, or nothing, and `get_all` lists these entries and no others, each key once, and
    -- `count` is their number modulo 2 ^ 32.
    pub write_all_last :
        (ws : List (Write V))
        → let (m, r) = write_all ws table.default in
          let store = mem_storage table in
          (r ≡ ok tt)
          × ((k : String) → store.get m k ≡ ok (last_written ws k))
          × ((l : List (String × V)) × (store.get_all m ≡ ok l)
              × ((k : String) (v : V) → Member (k, v) l ↔ (last_written ws k ≡ some v))
              × IsKeyed l
              × (store.count m ≡ ok (length l % 2 ^ 32)))
    unfolding get get_all count
    write_all_last ws =
        let (kept, well, told_all) = write_all_lem ws table.default good.default-Good in
        let found : (k : String) → table.get (write_all ws table.default).0 k ≡ last_written ws k =
          λ k. told_all k ∙ ap (or_before (last_told ws k)) (good.get-default k) in
        (
          well,
          λ k. ap (λ (o : Option V). ok o) (found k),
          (
            table.into_iter (write_all ws table.default).0,
            refl,
            λ k v.
                subst
                  (λ o.
                    Member (k, v) (table.into_iter (write_all ws table.default).0) ↔ (o ≡ some v))
                  (found k) (good.Member-into_iter (write_all ws table.default).0 k v kept),
            good.into_iter-IsKeyed _ kept,
            ap (λ n. ok (n % 2 ^ 32)) (good.len-into_iter _ kept),
          ),
        )
