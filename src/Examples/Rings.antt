-- ===== src/Examples/Rings.antt =====
-- Tests of one node of the ring.
use bns_node.Common.{
  ℕ, ◌<◌, ◌≡◌, ◌≢◌, refl, true, List, [], ◌∷◌, some, All, Member, get_elem?, ok, panic, arith,
}
use bns_node.Did.{sub}
use bns_node.Successor
use bns_node.Successor.{SuccessorSeq}
use bns_node.Successor.Update.{IsOther}
use bns_node.Chord.{PeerRing, new_with_storage, remove, fix_fingers}
use bns_node.Chord.Ring.{IsValid}
use bns_node.Chord.Remove.{IsGone, remove-IsGone}
use bns_node.Chord.Synced.{IsLinked, join_all, join_all-IsLinked}
use bns_node.Chord.Notify.{IsLast, notify_all, notify_all_latest}
use bns_node.Chord.Fix.{next_index, fix_fingers_absolute}
use bns_node.Chord.Correct.{LiveDid, stabilize, topo_info}
use bns_node.Chord.Correct.Stabilize.{stabilize-topo_info}
use bns_node.Examples.{Store, node, node-IsValid}

abbrev other : ℕ
other = 40

abbrev gone : ℕ
gone = 20

abbrev nearest : ℕ
nearest = 20

abbrev empty : Store
empty = []

abbrev alone : PeerRing Store
alone = new_with_storage 10 3 empty empty

abbrev joined : List ℕ
joined = 20 ∷ 30 ∷ 5 ∷ []

joined-IsOther : All (IsOther 10) joined
joined-IsOther =
    ((omega arith, omega arith), ((omega arith, omega arith), ((omega arith, omega arith), tt)))

abbrev rest : List ℕ
rest = 40 ∷ []

abbrev live : LiveDid
live = record { did = 25; live = true }

remove-IsGone_example :
    (t : PeerRing Store) × (remove node gone ≡ ok t)
    × IsValid t
    × IsGone gone t
    × (0 < node.successor_seq.max
        → (i x : ℕ) → get_elem? t.finger.finger i ≡ some (some x)
        → t.successor_seq.successors ≢ [])
remove-IsGone_example = remove-IsGone node gone node-IsValid

join_all-IsLinked_example :
    (t : PeerRing Store) × (join_all (new_with_storage 10 3 empty empty) joined ≡ ok t)
    × IsValid t
    × (t.did ≡ 10)
    × IsLinked t
join_all-IsLinked_example =
    join_all-IsLinked 10 3 empty empty joined (omega arith) (omega arith) joined-IsOther

notify_all_latest_example :
    IsLast alone.did (λ d. Member d joined) (notify_all alone joined).predecessor
notify_all_latest_example = notify_all_latest alone joined (unfold new_with_storage in refl)

fix_fingers_absolute_example :
    get_elem? (fix_fingers node).0.finger.finger (next_index node.finger.fix_finger_index)
    ≡ some (some nearest)
fix_fingers_absolute_example =
    fix_fingers_absolute node nearest node-IsValid refl (omega arith) (unfold sub in omega arith)
      (unfold sub in omega arith)

stabilize-topo_info_example : stabilize node (topo_info alone) ≡ panic
stabilize-topo_info_example =
    stabilize-topo_info node alone (unfold new_with_storage Successor.new in refl)
