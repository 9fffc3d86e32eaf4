-- ===== src/Did.antt =====
-- crates/core/src/dht/did.rs: identifiers on the ring of 2 ^ 160 points and their arithmetic.
-- A `Did` is the number that its H160 holds. The order seen from a chosen origin is in Did/Bias,
-- rotation in Did/Rotate, sorting in Did/Sort; Did/Ring has the laws of the arithmetic.
pub mod Ring
pub mod Bias
pub mod Range
pub mod Rotate
pub mod Sort
use bns_node.Common.{ℕ, ◌+◌, ◌-◌, ◌%◌, ◌^◌, ◌<◌, Bool, ◌&&◌, ltb}

-- The H160 holds 20 bytes.
abbrev pub IsDid : ℕ → Type 0
IsDid d = d < 2 ^ 160

-- From<BigUint>
unfoldable pub from_biguint : ℕ → ℕ
from_biguint a = a % 2 ^ 160

unfoldable pub neg : ℕ → ℕ
unfolding from_biguint
neg d = from_biguint (2 ^ 160 - d)

unfoldable pub add : ℕ → ℕ → ℕ
unfolding from_biguint
add a b = from_biguint ((a + b) % 2 ^ 160)

unfoldable pub sub : ℕ → ℕ → ℕ
unfolding add neg
sub a b = add a (neg b)

-- Whether `x` lies strictly between `a` and `b` as `base_id` sees them.
unfoldable pub in_range : ℕ → ℕ → ℕ → ℕ → Bool
in_range x base_id a b = ltb (sub a base_id) (sub x base_id) && ltb (sub x base_id) (sub b base_id)
