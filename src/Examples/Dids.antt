-- ===== src/Examples/Dids.antt =====
-- Tests of the identifiers.
use bns_node.Common.{ℕ, ◌≡◌, [], ◌∷◌, some, refl}
use bns_node.Did.{neg, add, sub}
use bns_node.Did.Rotate.{rotate, rotate_affine}

-- The ring wraps round: 5 is 15 steps behind the identifier that lies 10 before 0.
wrap_test : sub 5 (neg 10) ≡ 15
unfolding sub neg add
wrap_test = refl

half_turn_test :
    rotate_affine 10 2 ≡ some (10 ∷ 730750818665451459101842416358141509827966271498 ∷ [])
unfolding rotate_affine rotate add
half_turn_test = refl

abbrev base : ℕ
base = 30

abbrev end : ℕ
end = 20
