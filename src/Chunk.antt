-- ===== src/Chunk.antt =====
-- crates/core/src/chunk.rs: messages cut into chunks, and the pool that puts them together again.
-- Bytes are numbers; the bytes of a chunk are its `payload`. A uuid is a number, and the time of
-- each call is an argument. The sum of a chunk's time and its life stays below 2 ^ 128.
pub mod Rising
pub mod Whole
pub mod Tidy
pub mod Copies
use bns_node.Common.{
  ℕ, zero, suc, ◌+◌, ◌-◌, Bool, true, false, not, ◌&&◌, Option, none, some, List, [], ◌∷◌, ◌++◌,
  length, take, drop, ltb, ◌==◌, if◌then◌else◌, Result, ok, panic, ◌>>=◌,
}
use bns_node.Common.Sort.{sort_by_key}

pub record ChunkMeta : Type 0 where
  pub id : ℕ
  pub ts_ms : ℕ
  pub ttl_ms : ℕ

-- The position of a chunk and how many there are.
pub record Chunk : Type 0 where
  pub position : ℕ
  pub total : ℕ
  pub payload : List ℕ
  pub meta : ChunkMeta

abbrev pub max_ttl_ms : ℕ
max_ttl_ms = 6000000

abbrev pub ts_offset_tolerance_ms : ℕ
ts_offset_tolerance_ms = 3000

unfoldable pub tx_eq : Chunk → Chunk → Bool
tx_eq a b = a.meta.id == b.meta.id && a.total == b.total

-- `dedup_by_key`: a chunk goes if its position is that of the last one kept.
unfoldable pub dedup_after : ℕ → List Chunk → List Chunk
dedup_after last [] = []
dedup_after last (c ∷ cs) = elim (c.position == last) [
  | true ↦ dedup_after last cs
  | false ↦ c ∷ dedup_after c.position cs
]

unfoldable pub dedup : List Chunk → List Chunk
unfolding dedup_after
dedup [] = []
dedup (c ∷ cs) = c ∷ dedup_after c.position cs

unfoldable pub formalize : List Chunk → List Chunk
unfolding dedup sort_by_key
formalize chunks = sort_by_key (λ c. c.position) (dedup chunks)

-- `filter(|e| e.meta.id == id)`
unfoldable pub only : ℕ → List Chunk → List Chunk
only id [] = []
only id (e ∷ es) = let rest = only id es in if e.meta.id == id then e ∷ rest else rest

unfoldable pub search : List Chunk → ℕ → List Chunk
unfolding only formalize
search pool id = formalize (only id pool)

abbrev pub is_full : List Chunk → Bool
is_full [] = false
is_full (c ∷ cs) = length (c ∷ cs) == c.total

unfoldable pub is_completed : List Chunk → Bool
unfolding formalize
is_completed chunks = is_full (formalize chunks)

unfoldable pub joined : List Chunk → List ℕ
joined [] = []
joined (c ∷ cs) = c.payload ++ joined cs

unfoldable pub try_withdraw : List Chunk → Option (List ℕ)
unfolding is_completed joined formalize
try_withdraw chunks = if not (is_completed chunks) then none else some (joined (formalize chunks))

-- `bytes.chunks(MTU)`, on fuel: each piece takes a byte at least.
unfoldable pub pieces_of : ℕ → ℕ → List ℕ → List (List ℕ)
pieces_of mtu fuel [] = []
pieces_of mtu zero (b ∷ bytes) = []
pieces_of mtu (suc fuel) (b ∷ bytes) =
    take mtu (b ∷ bytes) ∷ pieces_of mtu fuel (drop mtu (b ∷ bytes))

unfoldable pub numbered : ChunkMeta → ℕ → ℕ → List (List ℕ) → List Chunk
numbered meta total i [] = []
numbered meta total i (p ∷ ps) =
    record { position = i; total = total; payload = p; meta = meta }
    ∷ numbered meta total (suc i) ps

-- From<&Bytes>, which panics on pieces of no length.
unfoldable pub from_bytes : ℕ → ChunkMeta → List ℕ → Result (List Chunk)
unfolding pieces_of numbered
from_bytes zero meta bytes = panic
from_bytes (suc mtu) meta bytes =
    let chunks = pieces_of (suc mtu) (length bytes) bytes in
    ok (numbered meta (length chunks) 0 chunks)

-- `group_by`, which puts neighbours of one message together.
unfoldable pub join_group : Chunk → List (List Chunk) → List (List Chunk)
unfolding tx_eq
join_group c [] = (c ∷ []) ∷ []
join_group c ([] ∷ gs) = (c ∷ []) ∷ gs
join_group c ((d ∷ g) ∷ gs) = if tx_eq c d then (c ∷ d ∷ g) ∷ gs else (c ∷ []) ∷ (d ∷ g) ∷ gs

unfoldable pub groups : List Chunk → List (List Chunk)
unfolding join_group
groups [] = []
groups (c ∷ cs) = join_group c (groups cs)

-- The ids of the groups that are completed, or of those that are not.
unfoldable pub ids_where : Bool → List (List Chunk) → List ℕ
unfolding is_completed
ids_where done [] = []
ids_where done ([] ∷ gs) = ids_where done gs
ids_where done ((c ∷ g) ∷ gs) =
    let rest = ids_where done gs in
    if (if done then is_completed (c ∷ g) else not (is_completed (c ∷ g)))
    then c.meta.id ∷ rest
    else rest

unfoldable pub list_completed : List Chunk → List ℕ
unfolding groups ids_where
list_completed pool = ids_where true (groups pool)

unfoldable pub list_pending : List Chunk → List ℕ
unfolding groups ids_where
list_pending pool = ids_where false (groups pool)

unfoldable pub get : List Chunk → ℕ → Option (List ℕ)
unfolding search try_withdraw
get pool id = try_withdraw (search pool id)

unfoldable pub remove : List Chunk → ℕ → List Chunk
remove [] id = []
remove (e ∷ es) id = let rest = remove es id in if e.meta.id == id then rest else e ∷ rest

unfoldable pub remove_expired : List Chunk → ℕ → List Chunk
remove_expired [] now = []
remove_expired (e ∷ es) now =
    let rest = remove_expired es now in
    if ltb now (e.meta.ts_ms + e.meta.ttl_ms) then e ∷ rest else rest

abbrev pub settle : List Chunk → ℕ → Option (List ℕ) → List Chunk × Option (List ℕ)
settle pool id none = (pool, none)
settle pool id (some bytes) = (remove pool id, some bytes)

-- A time below the tolerance makes the subtraction overflow.
unfoldable pub handle : List Chunk → ℕ → Chunk → Result (List Chunk × Option (List ℕ))
unfolding get remove_expired
handle pool now chunk =
    if ltb max_ttl_ms chunk.meta.ttl_ms
    then ok (pool, none)
    else if ltb chunk.meta.ts_ms ts_offset_tolerance_ms
    then panic
    else if ltb now (chunk.meta.ts_ms - ts_offset_tolerance_ms)
    then ok (pool, none)
    else let kept = remove_expired (pool ++ chunk ∷ []) now in
      ok (settle kept chunk.meta.id (get kept chunk.meta.id))
