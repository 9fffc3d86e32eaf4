-- ===== src/Did/Bias.antt =====
-- `BiasId` of crates/core/src/dht/did.rs: an identifier seen from an origin, and its order.
use Prim.Native.Nat.{compare, Ordering}
use bns_node.Common.{
  ℕ, ◌≡◌, refl, ap, inl, inr, Bool, true, false, arith, ltb, leb, ◌==◌, if◌then◌else◌, Bool-cases,
  ==_iff,
}
use bns_node.Did.{IsDid, add, sub}
use bns_node.Did.Ring.{add-sub}

pub record BiasId : Type 0 where
  pub bias : ℕ
  pub did : ℕ

unfoldable pub new : ℕ → ℕ → BiasId
new bias did = record { bias = bias; did = sub did bias }

-- Did::bias
unfoldable pub bias : ℕ → ℕ → BiasId
unfolding new
bias self did = new did self

unfoldable pub to_did : BiasId → ℕ
to_did b = add b.did b.bias

unfoldable pub pos : BiasId → ℕ
pos b = b.did

-- Ord::cmp: a value of another origin is moved to this one first.
unfoldable pub cmp : BiasId → BiasId → Ordering
unfolding new to_did
cmp self other =
    if other.bias == self.bias
    then compare self.did other.did
    else compare self.did (new self.bias (to_did other)).did

-- PartialEq<Did>
unfoldable pub eq_did : BiasId → ℕ → Bool
unfolding to_did
eq_did self rhs = to_did self == rhs

-- The comparison operators that PartialOrd derives from `cmp`.
unfoldable pub lt : BiasId → BiasId → Bool
unfolding cmp
lt a b = elim (cmp a b) [ Ordering.lt ↦ true | _ ↦ false ]

unfoldable pub gt : BiasId → BiasId → Bool
unfolding cmp
gt a b = elim (cmp a b) [ Ordering.gt ↦ true | _ ↦ false ]

unfoldable pub le : BiasId → BiasId → Bool
unfolding cmp
le a b = elim (cmp a b) [ Ordering.gt ↦ false | _ ↦ true ]

unfoldable pub ge : BiasId → BiasId → Bool
unfolding cmp
ge a b = elim (cmp a b) [ Ordering.lt ↦ false | _ ↦ true ]

-- With one origin, the operators compare clockwise distances.
module _ (b x y : ℕ) where
  pub lt-new : lt (new b x) (new b y) ≡ ltb (sub x b) (sub y b)
  unfolding lt new
  lt-new = ground arith

  pub gt-new : gt (new b x) (new b y) ≡ ltb (sub y b) (sub x b)
  unfolding gt new
  gt-new = ground arith

  pub le-new : le (new b x) (new b y) ≡ leb (sub x b) (sub y b)
  unfolding le new
  le-new = ground arith

  pub ge-new : ge (new b x) (new b y) ≡ leb (sub y b) (sub x b)
  unfolding ge new
  ge-new = ground arith

-- Moving an identifier to an origin and back gives it again, and the position seen from the
-- origin is the clockwise distance from it.
pub to_did-new : (b d : ℕ) → IsDid b → IsDid d → (to_did (new b d) ≡ d) × (pos (new b d) ≡ sub d b)
unfolding to_did new pos
to_did-new b d hb hd = (add-sub d b hd hb, refl)

-- Two biased identifiers compare as the clockwise distances of the identifiers they stand for
-- from the origin of the left one, whatever origin the right one has.
pub cmp-new :
    (b c x y : ℕ)
    → IsDid b
    → IsDid c
    → IsDid x
    → IsDid y
    → cmp (new b x) (new c y) ≡ compare (sub x b) (sub y b)
unfolding cmp
cmp-new b c x y hb hc hx hy = elim (Bool-cases (c == b)) [
  | inl e ↦ rw e (ap (λ (t : ℕ). compare (sub x b) (sub y t)) ((==_iff c b).0 e))
  | inr e ↦ rw e (ap (λ (t : ℕ). compare (sub x b) (sub t b)) (add-sub y c hy hc))
]
