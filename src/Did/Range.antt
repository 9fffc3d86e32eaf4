-- ===== src/Did/Range.antt =====
-- `Did::in_range` decides the open clockwise arc, and only the position on the ring counts.
use bns_node.Common.{ℕ, ◌<◌, ◌≡◌, ◌↔◌, ◌⊎◌, true, false, arith}
use bns_node.Did.{IsDid, add, sub, in_range}

-- Seen from `a` itself, `x` is in range exactly if it lies strictly inside the clockwise arc from
-- `a` to `b`: between them if `a < b`, outside of them if the arc wraps round 0, and never if
-- `a` is `b`.
pub in_range_arc :
    (x a b : ℕ)
    → IsDid x
    → IsDid a
    → IsDid b
    → (a < b → (in_range x a a b ≡ true) ↔ ((a < x) × (x < b)))
      × (b < a → (in_range x a a b ≡ true) ↔ ((a < x) ⊎ (x < b)))
      × (a ≡ b → in_range x a a b ≡ false)
unfolding in_range sub
in_range_arc x a b hx ha hb = ground arith

shift_distance : (x y t : ℕ) → IsDid x → IsDid y → IsDid t → sub (add x t) (add y t) ≡ sub x y
unfolding sub
shift_distance x y t hx hy ht = omega arith

-- Turning the whole ring by `t` does not change the answer.
pub in_range-add :
    (x base_id a b t : ℕ)
    → IsDid x
    → IsDid base_id
    → IsDid a
    → IsDid b
    → IsDid t
    → in_range (add x t) (add base_id t) (add a t) (add b t) ≡ in_range x base_id a b
unfolding in_range
in_range-add x base_id a b t hx hz ha hb ht = rw (
  shift_distance x base_id t hx hz ht,
  shift_distance a base_id t ha hz ht,
  shift_distance b base_id t hb hz ht,
)
