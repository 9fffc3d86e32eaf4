-- ===== src/Common/Members.antt =====
-- `contains` and `retain` on lists of numbers.
use mathlib.Core.Path.{◌≡◌, sym}
use mathlib.Core.Logic.{◌≢◌, inl, inr}
use mathlib.Core.Bool.{Bool, true, false, ◌||◌}
use mathlib.Core.List.{List, [], ◌∷◌}
use Prim.Native.Nat.{ℕ, ◌≤◌}
use native.Mathlib.Omega.{arith}
use bns_node.Common.Tests.{◌==◌, if◌then◌else◌, Bool-cases, ==_iff}
use bns_node.Common.Lists.{length, Member, All}

unfoldable pub contains : List ℕ → ℕ → Bool
contains [] v = false
contains (x ∷ xs) v = x == v || contains xs v

-- `retain(|&v| v != did)`
unfoldable pub without : List ℕ → ℕ → List ℕ
without [] v = []
without (x ∷ xs) v = let rest = without xs v in if x == v then rest else x ∷ rest

pub Member-contains : (xs : List ℕ) (v : ℕ) → contains xs v ≡ true → Member v xs
unfolding contains
Member-contains [] v h = cc
Member-contains (x ∷ xs) v h = elim (Bool-cases (x == v)) [
  | inl e ↦ inl (sym ((==_iff x v).0 e))
  | inr e ↦ inr (Member-contains xs v (ground arith))
]

pub contains-Member : (xs : List ℕ) (v : ℕ) → Member v xs → contains xs v ≡ true
unfolding contains
contains-Member [] v m = absurd m
contains-Member (x ∷ xs) v (inl e) = ground arith
contains-Member (x ∷ xs) v (inr m) = ground (arith, contains-Member xs v m)

pub not-Member : (xs : List ℕ) (v : ℕ) → contains xs v ≡ false → ¬ Member v xs
not-Member xs v h m = cc (contains-Member xs v m)

pub Member-without : (xs : List ℕ) (v d : ℕ) → Member v (without xs d) → Member v xs × (v ≢ d)
unfolding without
Member-without [] v d = λ m. absurd m
Member-without (x ∷ xs) v d = elim (Bool-cases (x == d)) [
  | inl e ↦ rw e λ m. (inr (Member-without xs v d m).0, (Member-without xs v d m).1)
  | inr e ↦ rw e λ m. elim m [
    | inl p ↦ (inl p, ground arith)
    | inr p ↦ (inr (Member-without xs v d p).0, (Member-without xs v d p).1)
  ]
]

pub without-Member : (xs : List ℕ) (v d : ℕ) → Member v xs → v ≢ d → Member v (without xs d)
unfolding without
without-Member [] v d m ne = absurd m
without-Member (x ∷ xs) v d m ne = elim (Bool-cases (x == d)) [
  | inl e ↦ rw e (elim m [ inl p ↦ absurd (ground arith) | inr p ↦ without-Member xs v d p ne ])
  | inr e ↦ rw e (elim m [ inl p ↦ inl p | inr p ↦ inr (without-Member xs v d p ne) ])
]

pub All-without {κ} : (P : ℕ → Type κ) (xs : List ℕ) (d : ℕ) → All P xs → All P (without xs d)
unfolding without
All-without P [] d h = tt
All-without P (x ∷ xs) d h = elim (Bool-cases (x == d)) [
  | inl e ↦ rw e (All-without P xs d h.1)
  | inr e ↦ rw e (h.0, All-without P xs d h.1)
]

pub length-without : (xs : List ℕ) (d : ℕ) → length (without xs d) ≤ length xs
unfolding without
length-without [] d = omega arith
length-without (x ∷ xs) d = elim (Bool-cases (x == d)) [
  | inl e ↦ rw e (omega (arith, length-without xs d))
  | inr e ↦ rw e (omega (arith, length-without xs d))
]
