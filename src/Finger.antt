-- ===== src/Finger.antt =====
-- crates/core/src/dht/finger.rs: the finger table of a node. `panic` is an index past the end of
-- the vector; Finger/Table shows that the operations keep its length at `size`, so that it never
-- happens.
pub mod Join
pub mod Table
pub mod Closest
pub mod Remove
pub mod Nearest
use mathlib.Core.Option
use bns_node.Common.{
  ℕ, zero, suc, ◌+◌, ◌-◌, ◌%◌, ◌^◌, Bool, true, false, ◌||◌, Option, none, some, List, [], ◌∷◌,
  length, get_elem?, set, replicate, ltb, leb, ◌==◌, if◌then◌else◌, Result, ok, panic, ◌>>=◌,
}
use bns_node.Did.{from_biguint}
use bns_node.Did.Bias

pub record FingerTable : Type 0 where
  pub did : ℕ
  pub size : ℕ
  pub finger : List (Option ℕ)
  pub fix_finger_index : ℕ

unfoldable pub new : ℕ → ℕ → FingerTable
new did size = record { did = did; size = size; finger = replicate size none; fix_finger_index = 0 }

-- The entries that are set, counted.
count_some : List (Option ℕ) → ℕ
count_some [] = 0
count_some (none ∷ xs) = count_some xs
count_some (some v ∷ xs) = suc (count_some xs)

unfoldable pub len : FingerTable → ℕ
unfolding count_some
len t = count_some t.finger

unfoldable pub is_empty : FingerTable → Bool
unfolding len
is_empty t = len t == 0

first_some : List (Option ℕ) → Option ℕ
first_some [] = none
first_some (none ∷ xs) = first_some xs
first_some (some v ∷ xs) = some v

unfoldable pub first : FingerTable → Option ℕ
unfolding first_some
first t = first_some t.finger

-- `finger[index]` of an index that is known to be in range.
abbrev pub slot : List (Option ℕ) → ℕ → Option ℕ
slot f i = Option.get_or (get_elem? f i) none

unfoldable pub get : FingerTable → ℕ → Option ℕ
get t index = if leb (length t.finger) index then none else slot t.finger index

unfoldable pub set_at : FingerTable → ℕ → ℕ → FingerTable
set_at t index did =
    if leb (length t.finger) index
    then t
    else if did == t.did
    then t
    else record t { finger = set t.finger index (some did) }

unfoldable pub set_fix : FingerTable → ℕ → FingerTable
unfolding set_at
set_fix t did = set_at t t.fix_finger_index did

abbrev pub slot_eq : Option ℕ → Option ℕ → Bool
slot_eq none none = true
slot_eq none (some b) = false
slot_eq (some a) none = false
slot_eq (some a) (some b) = a == b

contains_slot : List (Option ℕ) → Option ℕ → Bool
contains_slot [] v = false
contains_slot (x ∷ xs) v = slot_eq x v || contains_slot xs v

unfoldable pub contains : FingerTable → Option ℕ → Bool
unfolding contains_slot
contains t v = contains_slot t.finger v

-- The indices, counted from `k`, of the entries that hold `did`.
unfoldable pub positions : ℕ → ℕ → List (Option ℕ) → List ℕ
positions did k [] = []
positions did k (x ∷ xs) =
    let rest = positions did (suc k) xs in if slot_eq x (some did) then k ∷ rest else rest

abbrev pub last_or : ℕ → List ℕ → ℕ
last_or x [] = x
last_or x (y ∷ ys) = last_or y ys

-- `for idx in start..start + count { self.finger[idx] = fix_id }`
unfoldable pub fill : List (Option ℕ) → Option ℕ → ℕ → ℕ → List (Option ℕ)
fill f fix_id start zero = f
fill f fix_id start (suc count) = fill (set f start fix_id) fix_id (suc start) count

remove_at : FingerTable → List ℕ → FingerTable
unfolding fill
remove_at t [] = t
remove_at t (first_idx ∷ rest) =
    let end_idx = last_or first_idx rest + 1 in
    record t { finger = fill t.finger (slot t.finger end_idx) first_idx (end_idx - first_idx) }

unfoldable pub remove : FingerTable → ℕ → FingerTable
unfolding remove_at positions
remove t did = remove_at t (positions did 0 t.finger)

-- One round of the loop of `join`.
unfoldable pub join_entry : ℕ → ℕ → List (Option ℕ) → ℕ → Option ℕ → List (Option ℕ)
join_entry self did f k none = set f k (some did)
join_entry self did f k (some v) =
    if Bias.gt (Bias.bias did self) (Bias.bias v self) then f else set f k (some did)

unfoldable pub join_step : ℕ → ℕ → ℕ → List (Option ℕ) → Result (List (Option ℕ))
unfolding join_entry
join_step self did k f =
    if ltb (Bias.pos (Bias.bias did self)) (from_biguint (2 ^ k))
    then ok f
    else elim (get_elem? f k) [ none ↦ panic | some o ↦ ok (join_entry self did f k o) ]

unfoldable pub join_loop : ℕ → ℕ → ℕ → ℕ → List (Option ℕ) → Result (List (Option ℕ))
unfolding join_step
join_loop self did zero k f = ok f
join_loop self did (suc n) k f = join_step self did k f >>= λ g. join_loop self did n (suc k) g

unfoldable pub join : FingerTable → ℕ → Result FingerTable
unfolding join_loop
join t did = do f ← join_loop t.did did (t.size % 2 ^ 32) 0 t.finger; ok (record t { finger = f })

-- `for i in (0..count).rev()`
unfoldable pub closest_loop : ℕ → ℕ → List (Option ℕ) → ℕ → Result ℕ
closest_loop self did f zero = ok self
closest_loop self did f (suc i) =
    let rest = closest_loop self did f i in
    elim (get_elem? f i) [
      | none ↦ panic
      | some none ↦ rest
      | some (some v) ↦ if Bias.lt (Bias.bias v self) (Bias.bias did self) then ok v else rest
    ]

unfoldable pub closest_predecessor : FingerTable → ℕ → Result ℕ
unfolding closest_loop
closest_predecessor t did = closest_loop t.did did t.finger t.size
