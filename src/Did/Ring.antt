-- ===== src/Did/Ring.antt =====
-- The laws of the arithmetic of did.rs: a cyclic group of 2 ^ 160 elements.
use bns_node.Common.{ℕ, ◌+◌, ◌-◌, ◌^◌, ◌≤◌, ◌<◌, ◌≡◌, arith}
use bns_node.Did.{IsDid, neg, add, sub}

pub sub-lt : (a b : ℕ) → IsDid (sub a b)
unfolding sub
sub-lt a b = omega arith

pub add-lt : (a b : ℕ) → IsDid (add a b)
unfolding add
add-lt a b = omega arith

-- `sub` written without the detour over `neg`.
pub sub-cases :
    (a b : ℕ) → IsDid a → IsDid b → (b ≤ a → sub a b ≡ a - b) × (a < b → sub a b ≡ a + 2 ^ 160 - b)
unfolding sub
sub-cases a b ha hb = (λ h. omega arith, λ h. omega arith)

-- The clockwise distance from a point to itself is 0.
pub sub_self : (a : ℕ) → IsDid a → sub a a ≡ 0
unfolding sub
sub_self a h = omega arith

pub add-sub : (a b : ℕ) → IsDid a → IsDid b → add (sub a b) b ≡ a
unfolding sub
add-sub a b ha hb = omega arith

pub sub-injective : (a b c : ℕ) → IsDid a → IsDid b → IsDid c → sub a c ≡ sub b c → a ≡ b
unfolding sub
sub-injective a b c ha hb hc e = omega arith

pub sub-eq-zero : (a b : ℕ) → IsDid a → IsDid b → sub a b ≡ 0 → a ≡ b
unfolding sub
sub-eq-zero a b ha hb e = omega arith

-- Identifiers with `add`, `neg` and 0 form a commutative group: addition is commutative and
-- associative, 0 is neutral, `neg` gives the inverse and is its own inverse, and all results
-- stay below 2 ^ 160.
pub group_laws :
    (a b c : ℕ)
    → IsDid a
    → IsDid b
    → IsDid c
    → (add a b ≡ add b a)
      × (add (add a b) c ≡ add a (add b c))
      × (add a 0 ≡ a)
      × (add (neg a) a ≡ 0)
      × (neg (neg a) ≡ a)
      × IsDid (add a b)
      × IsDid (neg a)
unfolding add neg
group_laws a b c ha hb hc = omega arith

-- Adding and subtracting the same identifier cancel, in both orders.
pub add-sub_cancel : (a b : ℕ) → IsDid a → IsDid b → (add (sub a b) b ≡ a) × (sub (add a b) b ≡ a)
unfolding sub
add-sub_cancel a b ha hb = omega arith
