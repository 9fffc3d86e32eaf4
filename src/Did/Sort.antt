-- ===== src/Did/Sort.antt =====
-- `SortRing for Vec<Did>` of crates/core/src/dht/did.rs. `sort_by` is the standard library's
-- stable sort.
use mathlib.Core.List.{Perm}
use bns_node.Common.{ℕ, ◌≡◌, List, All, length}
use bns_node.Common.Sort.{
  sort_by_key, IsSorted, sort_by_key-IsSorted, sort_by_key-perm, length-sort_by_key,
  All-sort_by_key,
}
use bns_node.Did.{sub}

unfoldable pub sort : ℕ → List ℕ → List ℕ
unfolding sort_by_key
sort did = sort_by_key (λ a. sub a did)

-- Sorting from an origin keeps the identifiers, as often as they occur, and puts them in the
-- clockwise order of their distance from the origin.
pub sort_lem : (did : ℕ) (v : List ℕ) → Perm (sort did v) v × IsSorted (λ a. sub a did) (sort did v)
unfolding sort
sort_lem did v = (sort_by_key-perm _ v, sort_by_key-IsSorted _ v)

pub length-sort : (did : ℕ) (v : List ℕ) → length (sort did v) ≡ length v
unfolding sort
length-sort did v = length-sort_by_key _ v

pub All-sort : (P : ℕ → Type 0) (did : ℕ) (v : List ℕ) → All P v → All P (sort did v)
unfolding sort
All-sort P did v h = All-sort_by_key _ P v h
