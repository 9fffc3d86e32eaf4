-- ===== src/Successor.antt =====
-- crates/core/src/dht/successor.rs: the list of the nodes that follow a node on the ring. The
-- lock round the list is not modelled: it fails only after a panic of a thread that holds it.
-- `panic` is an index past the end of the list.
pub mod Ordered
pub mod Update
pub mod Nearest
use bns_node.Common.{
  ℕ, ◌+◌, ◌-◌, ◌%◌, ◌^◌, Bool, true, false, ◌||◌, ◌&&◌, Option, none, some, List, [], ◌∷◌, ◌++◌,
  length, get_elem?, take, contains, without, leb, ◌==◌, if◌then◌else◌, Result, ok, panic, ◌>>=◌,
}
use bns_node.Did.Bias
use bns_node.Did.Bias.{BiasId}
use bns_node.Did.Sort.{sort}

pub record SuccessorSeq : Type 0 where
  pub did : ℕ
  pub max : ℕ
  pub successors : List ℕ

unfoldable pub new : ℕ → ℕ → SuccessorSeq
new did max = record { did = did; max = max; successors = [] }

unfoldable pub bias : SuccessorSeq → ℕ → BiasId
bias s did = Bias.new s.did did

unfoldable pub is_empty : SuccessorSeq → Bool
is_empty s = length s.successors == 0

-- The length is cast to a byte.
unfoldable pub is_full : SuccessorSeq → Bool
is_full s = leb s.max (length s.successors % 2 ^ 8)

unfoldable pub get : SuccessorSeq → ℕ → Result ℕ
get s index = elim (get_elem? s.successors index) [ none ↦ panic | some d ↦ ok d ]

unfoldable pub min_succ : SuccessorSeq → Result ℕ
unfolding is_empty get
min_succ s = if is_empty s then ok s.did else get s 0

unfoldable pub max_succ : SuccessorSeq → Result ℕ
unfolding is_empty get
max_succ s = if is_empty s then ok s.did else get s (length s.successors - 1)

unfoldable pub should_insert : SuccessorSeq → ℕ → Result Bool
unfolding max_succ is_full bias
should_insert s did = if contains s.successors did || did == s.did then ok false else do
  m ← max_succ s
  ok (if Bias.ge (bias s did) (bias s m) && is_full s then false else true)

unfoldable pub update_dry : SuccessorSeq → List ℕ → Result (List ℕ)
update_dry s [] = ok []
update_dry s (d ∷ ds) = do
  b ← should_insert s d
  rest ← update_dry s ds
  ok (if b then d ∷ rest else rest)

-- Push, sort, truncate, and look whether the new one is still there.
unfoldable pub insert : SuccessorSeq → ℕ → SuccessorSeq × Option ℕ
insert s successor =
    let succs = take s.max (sort s.did (s.successors ++ successor ∷ [])) in
    (record s { successors = succs }, if contains succs successor then some successor else none)

unfoldable pub update : SuccessorSeq → ℕ → Result (SuccessorSeq × Option ℕ)
update s successor = do
  b ← should_insert s successor
  ok (if b then insert s successor else (s, none))

abbrev keep_some : Option ℕ → List ℕ → List ℕ
keep_some none ret = ret
keep_some (some r) ret = r ∷ ret

-- The nodes that were taken in are returned in order.
unfoldable pub extend : SuccessorSeq → List ℕ → Result (SuccessorSeq × List ℕ)
extend s [] = ok (s, [])
extend s (d ∷ ds) = do u ← update s d; rest ← extend u.0 ds; ok (rest.0, keep_some u.1 rest.1)

unfoldable pub remove : SuccessorSeq → ℕ → SuccessorSeq
remove s did = record s { successors = without s.successors did }
