-- ===== src/Finger/Join.antt =====
-- What `FingerTable::join` writes, entry by entry.
use mathlib.Core.Option
use native.Mathlib.Nat.{mod-eq_of_lt, one-le-pow, pow-le-pow_right}
use bns_node.Common.{
  ℕ, zero, suc, ◌+◌, ◌^◌, ◌≤◌, ◌<◌, ◌≡◌, refl, ◌∙◌, inl, inr, Option, none, some, List, length,
  get_elem?, set, arith, ltb, ◌==◌, if◌then◌else◌, Bool-cases, length-set, get_elem?-set_self,
  get_elem?-set_ne, set_same, get_elem?-in_range, lt-length_of_get_elem?, Result, ok,
}
use bns_node.Did.{sub, from_biguint}
use bns_node.Did.Bias
use bns_node.Finger.{FingerTable, join_step, join_loop, join}

-- Up to the ring's size, the distance that entry `k` asks for is 2 ^ k.
pub from_biguint-pow : (k : ℕ) → k < 160 → (from_biguint (2 ^ k) ≡ 2 ^ k) × (0 < 2 ^ k)
unfolding from_biguint
from_biguint-pow k h =
    let small : 2 ^ k ≤ 2 ^ 159 =
      pow-le-pow_right {n = 2} (omega arith) {i = k} {j = 159} (omega arith) in
    (mod-eq_of_lt (omega arith), one-le-pow k 2 (omega arith))

-- The entry `k` of the node `self` after `did` has joined: `did` replaces an empty entry and one
-- that is not closer, if it is at least 2 ^ k away.
unfoldable pub joined : ℕ → ℕ → ℕ → Option ℕ → Option ℕ
joined self did k none = if ltb (sub did self) (from_biguint (2 ^ k)) then none else some did
joined self did k (some v) =
    if ltb (sub did self) (from_biguint (2 ^ k))
    then some v
    else if ltb (sub v self) (sub did self)
    then some v
    else some did

-- The list after the rounds from `k` on.
record IsJoined (self did n k : ℕ) (f : List (Option ℕ)) (r : Result (List (Option ℕ)))
    : Type 0 where
  pub out : List (Option ℕ)
  pub returns : r ≡ ok out
  pub same_length : length out ≡ length f
  pub inside :
      (j : ℕ) → k ≤ j → j < k + n → get_elem? out j ≡ Option.map (joined self did j) (get_elem? f j)
  pub below : (j : ℕ) → j < k → get_elem? out j ≡ get_elem? f j
  pub above : (j : ℕ) → k + n ≤ j → get_elem? out j ≡ get_elem? f j

module _ (self did : ℕ) where
  join_step-joined :
      (k : ℕ) (f : List (Option ℕ)) (o : Option ℕ)
      → get_elem? f k ≡ some o
      → join_step self did k f ≡ ok (set f k (joined self did k o))
  unfolding join_step joined Bias.pos Bias.bias
  join_step-joined k f none e = ground (arith, set_same f k none e)
  join_step-joined k f (some v) e = ground (arith, set_same f k (some v) e, Bias.gt-new self did v)

  IsJoined-set :
      (n k : ℕ) (f : List (Option ℕ)) (o : Option ℕ) (r : Result (List (Option ℕ)))
      → get_elem? f k ≡ some o
      → IsJoined self did n (suc k) (set f k (joined self did k o)) r
      → IsJoined self did (suc n) k f r
  IsJoined-set n k f o r e rest =
      let v : Option ℕ = joined self did k o in
      record {
        out = rest.out;
        returns = rest.returns;
        same_length = rest.same_length ∙ length-set f k v;
        inside = λ j p q. elim (Bool-cases (j == k)) [
          | inl here ↦
              ground
                (arith, rest.below j, get_elem?-set_self f k v, lt-length_of_get_elem? f k o e, e)
          | inr other ↦ ground (arith, rest.inside j, get_elem?-set_ne f k j v)
        ];
        below = λ j p. ground (arith, rest.below j, get_elem?-set_ne f k j v);
        above = λ j p. ground (arith, rest.above j, get_elem?-set_ne f k j v);
      }

  join_loop-IsJoined :
      (n k : ℕ) (f : List (Option ℕ))
      → k + n ≤ length f
      → IsJoined self did n k f (join_loop self did n k f)
  unfolding join_loop
  join_loop-IsJoined zero k f h = record {
    out = f;
    returns = refl;
    same_length = refl;
    inside = λ j p q. absurd (omega arith);
    below = λ j p. refl;
    above = λ j p. refl;
  }
  join_loop-IsJoined (suc n) k f h =
      let found = get_elem?-in_range f k (omega arith) in
      let o : Option ℕ = found.0 in
      let v : Option ℕ = joined self did k o in
      let rest = join_loop-IsJoined n (suc k) (set f k v) (omega (arith, length-set {0} f k v)) in
      rw (join_step-joined k f o found.1)
        (IsJoined-set n k f o (join_loop self did n (suc k) (set f k v)) found.1 rest)

-- A table whose vector has the length `size` is joined without a panic, entry by entry.
pub join_lem :
    (t : FingerTable) (did : ℕ)
    → length t.finger ≡ t.size
    → t.size < 2 ^ 32
    → (f : List (Option ℕ)) × (join t did ≡ ok (record t { finger = f }))
      × (length f ≡ t.size)
      × ((j : ℕ)
          → j < t.size
          → get_elem? f j ≡ Option.map (joined t.did did j) (get_elem? t.finger j))
unfolding join
join_lem t did e h =
    let loop = join_loop-IsJoined t.did did t.size 0 t.finger (omega arith) in
    (
      loop.out,
      rw (mod-eq_of_lt h, loop.returns),
      loop.same_length ∙ e,
      λ j p. loop.inside j (omega arith) (omega arith),
    )
