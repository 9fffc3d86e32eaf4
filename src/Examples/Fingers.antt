-- ===== src/Examples/Fingers.antt =====
-- Tests of the finger table and of the list of successors.
use bns_node.Common.{
  ℕ, ◌+◌, ◌≤◌, ◌<◌, ◌≡◌, ◌≢◌, refl, inl, inr, ◌⊎◌, List, [], ◌∷◌, Option, none, some, All, Member,
  get_elem?, replicate, ok, arith,
}
use bns_node.Did.{IsDid, sub}
use bns_node.Finger.{FingerTable, new, slot, remove, closest_predecessor}
use bns_node.Did.Bias
use bns_node.Finger.Table
use bns_node.Finger.Remove.{remove_lem}
use bns_node.Finger.Nearest.{join_all, IsNearest, join_all_nearest}
use bns_node.Successor
use bns_node.Successor.{SuccessorSeq, extend}
use bns_node.Successor.Update
use bns_node.Successor.Nearest.{extend_nearest, extend_order, Member-remove}
use bns_node.Successor.Nearest as Succ
use bns_node.Examples.{fingers}

abbrev self : ℕ
self = 10

abbrev gone : ℕ
gone = 20

abbrev target : ℕ
target = 25

abbrev joined : List ℕ
joined = 20 ∷ 30 ∷ 20 ∷ 5 ∷ []

abbrev renamed : List ℕ
renamed = 5 ∷ 30 ∷ 20 ∷ []

joined-IsDid : All IsDid joined
joined-IsDid = (omega arith, (omega arith, (omega arith, (omega arith, tt))))

renamed-IsDid : All IsDid renamed
renamed-IsDid = (omega arith, (omega arith, (omega arith, tt)))

to_renamed : (d : ℕ) → Member d joined → Member d renamed
to_renamed d (inl e) = inr (inr (inl e))
to_renamed d (inr (inl e)) = inr (inl e)
to_renamed d (inr (inr (inl e))) = inr (inr (inl e))
to_renamed d (inr (inr (inr (inl e)))) = inl e
to_renamed d (inr (inr (inr (inr m)))) = absurd m

to_joined : (d : ℕ) → Member d renamed → Member d joined
to_joined d (inl e) = inr (inr (inr (inl e)))
to_joined d (inr (inl e)) = inr (inl e)
to_joined d (inr (inr (inl e))) = inl e
to_joined d (inr (inr (inr m))) = absurd m

closest_test : closest_predecessor fingers 25 ≡ ok 20
unfolding closest_predecessor Bias.lt Bias.bias sub
closest_test = refl

remove_test :
    (remove fingers 20).finger
    ≡ some 30 ∷ some 30 ∷ some 30 ∷ some 30 ∷ some 30 ∷ replicate 155 none
unfolding remove
remove_test = refl

join_all_nearest_example :
    (t : FingerTable) × (join_all (new self 160) joined ≡ ok t)
    × Table.IsValid t
    × ((k : ℕ)
        → k < 160
        → (o : Option ℕ) × (get_elem? t.finger k ≡ some o)
          × IsNearest self k (λ d. Member d joined) o)
join_all_nearest_example = join_all_nearest self 160 joined (omega arith) (omega arith) joined-IsDid

remove_lem_example :
    let f = fingers.finger in
    let out = (remove fingers gone).finger in
    ((i : ℕ) → get_elem? out i ≢ some (some gone))
    × ((i j l : ℕ)
        → get_elem? f j ≡ some (some gone)
        → get_elem? f l ≡ some (some gone)
        → ((m : ℕ) → get_elem? f m ≡ some (some gone) → m ≤ l)
        → j ≤ i
        → i ≤ l
        → get_elem? out i ≡ some (slot f (l + 1)))
    × ((i : ℕ)
        → ((j : ℕ) → get_elem? f j ≡ some (some gone) → i < j)
          ⊎ ((j : ℕ) → get_elem? f j ≡ some (some gone) → j < i)
        → get_elem? out i ≡ get_elem? f i)
remove_lem_example = remove_lem fingers gone

extend_nearest_example :
    (u : SuccessorSeq × List ℕ) × (extend (Successor.new self 2) joined ≡ ok u)
    × Update.IsValid u.0
    × (u.0.did ≡ self)
    × (u.0.max ≡ 2)
    × Succ.IsNearest u.0 (λ d. Member d joined)
extend_nearest_example = extend_nearest self 2 joined (omega arith) (omega arith) joined-IsDid
