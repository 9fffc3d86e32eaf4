-- ===== src/Relay.antt =====
-- crates/core/src/message/protocols/relay.rs: the path that a message has taken, and where it goes.
pub mod Loops
pub mod Paths
use mathlib.Core.List.{reverse}
use bns_node.Common.{
  ℕ, suc, ◌+◌, ◌-◌, Bool, true, false, not, ◌&&◌, ◌||◌, List, [], ◌∷◌, ◌++◌, length, take, drop,
  ltb, ◌==◌, if◌then◌else◌, Result, ok, err, panic, ◌>>=◌, Error,
}

pub record MessageRelay : Type 0 where
  pub path : List ℕ
  pub next_hop : ℕ
  pub destination : ℕ

unfoldable pub new : List ℕ → ℕ → ℕ → MessageRelay
new path next_hop destination = record {
  path = path;
  next_hop = next_hop;
  destination = destination;
}

-- `windows(2).any(|w| w[0] == w[1])`
unfoldable pub has_repeat : List ℕ → Bool
has_repeat [] = false
has_repeat (x ∷ []) = false
has_repeat (x ∷ y ∷ path) = x == y || has_repeat (y ∷ path)

abbrev pub tolerance : ℕ
tolerance = 3

unfoldable pub indexes_of : ℕ → ℕ → List ℕ → List ℕ
indexes_of last i [] = []
indexes_of last i (r ∷ rs) =
    let rest = indexes_of last (suc i) rs in if r == last then i ∷ rest else rest

abbrev pub lesser : ℕ → ℕ → ℕ
lesser a b = if ltb b a then b else a

-- The loop over the three iterators, which ends with the shortest, or when the index is the last
-- one below `min_len`.
unfoldable pub agree : ℕ → ℕ → List ℕ → List ℕ → List ℕ → Bool
agree i min_len [] p2 p3 = true
agree i min_len (x ∷ p1) [] p3 = true
agree i min_len (x ∷ p1) (y ∷ p2) [] = true
agree i min_len (x ∷ p1) (y ∷ p2) (z ∷ p3) =
    let rest = agree (suc i) min_len p1 p2 p3 in
    if not (x == y && y == z) then false else if i == min_len - 1 then true else rest

-- The path backwards, and the first indexes of its last element.
unfoldable pub loops_at : List ℕ → List ℕ → Bool
unfolding agree
loops_at path [] = false
loops_at path (i ∷ []) = false
loops_at path (i ∷ j ∷ []) = false
loops_at path (i ∷ j ∷ k ∷ indexes) =
    let min_len = lesser (lesser (j - i) (k - j)) (length path - k) in
    agree 0 min_len (drop i path) (drop j path) (drop k path) && (j - i == k - j)

unfoldable pub loops_back : List ℕ → Bool
unfolding loops_at indexes_of
loops_back [] = false
loops_back (last ∷ path) = loops_at (last ∷ path) (take tolerance (indexes_of last 0 (last ∷ path)))

unfoldable pub has_infinite_loop : List ℕ → Bool
unfolding loops_back
has_infinite_loop path = loops_back (reverse path)

unfoldable pub validate : MessageRelay → ℕ → Result (Unit {0})
unfolding has_repeat has_infinite_loop
validate self current =
    if not (self.next_hop == current)
    then err Error.invalid_next_hop
    else if has_repeat self.path
    then err Error.invalid_relay_path
    else if has_infinite_loop self.path
    then err Error.infinite_relay_path
    else ok tt

unfoldable pub forward : MessageRelay → ℕ → ℕ → Result MessageRelay
unfolding validate
forward self current next_hop = do
  u ← validate self current
  if not (self.next_hop == current)
      then err Error.invalid_next_hop
      else ok (record self { path = self.path ++ current ∷ []; next_hop = next_hop })

-- An empty path has no first element.
unfoldable pub origin_sender : MessageRelay → Result ℕ
origin_sender self = elim self.path [ [] ↦ panic | x ∷ xs ↦ ok x ]

abbrev pub last_hop : List ℕ → Result ℕ
last_hop [] = err Error.cannot_infer_next_hop
last_hop (x ∷ []) = ok x
last_hop (x ∷ y ∷ path) = last_hop (y ∷ path)

unfoldable pub report : MessageRelay → ℕ → Result MessageRelay
unfolding validate origin_sender
report self current = do
  u ← validate self current
  hop ← last_hop self.path
  origin ← origin_sender self
  ok (record { path = current ∷ []; next_hop = hop; destination = origin })

unfoldable pub reset_destination : MessageRelay → ℕ → MessageRelay
reset_destination self destination = record self { destination = destination }
