-- ===== src/Chord/Lookup.antt =====
-- `PeerRing::find_successor`, on every branch.
use bns_node.Common.{
  ℕ, ◌≤◌, ◌<◌, ◌≡◌, refl, ap, true, false, Option, none, some, List, [], ◌∷◌, get_elem?, arith,
  lt→not-leb, le→leb, ok, subst,
}
use bns_node.Did.{sub}
use bns_node.Did.Bias
use bns_node.Finger.Closest.{IsClosest, closest_predecessor_lem}
use bns_node.Successor
use bns_node.Successor.{SuccessorSeq}
use bns_node.Action.{some_did, remote_action, RemoteAction}
use bns_node.Chord.{PeerRing, find_successor, bias}
use bns_node.Chord.Ring.{IsValid}

-- The first successor, if there is one.
abbrev pub head : SuccessorSeq → Option ℕ
head s = get_elem? s.successors 0

pub min_succ_nil :
    (s : SuccessorSeq)
    → head s ≡ none
    → (Successor.min_succ s ≡ ok s.did) × (Successor.is_empty s ≡ true)
unfolding Successor.min_succ Successor.is_empty
min_succ_nil s e = go s.successors refl e
  where
    go :
        (l : List ℕ)
        → s.successors ≡ l
        → get_elem? l 0 ≡ none
        → (Successor.min_succ s ≡ ok s.did) × (Successor.is_empty s ≡ true)
    go [] q e = (rw q, rw q)
    go (x ∷ l) q e = absurd (cc)

pub min_succ-head :
    (s : SuccessorSeq) (h : ℕ)
    → head s ≡ some h
    → (Successor.min_succ s ≡ ok h) × (Successor.is_empty s ≡ false)
unfolding Successor.min_succ Successor.is_empty
min_succ-head s h e = go s.successors refl e
  where
    go :
        (l : List ℕ)
        → s.successors ≡ l
        → get_elem? l 0 ≡ some h
        → (Successor.min_succ s ≡ ok h) × (Successor.is_empty s ≡ false)
    go [] q e = absurd (cc)
    go (x ∷ l) q e = (rw q (ground arith), rw q (ground arith))

module _ {S : Type 0} where
  -- A lookup never fails: without successors the node answers with itself; a target up to the
  -- first successor gets that one; any other is passed on to the node that the finger table
  -- picks, which is the node itself or lies strictly between the node and the target.
  pub find_successor_lem :
      (r : PeerRing S) (d : ℕ)
      → IsValid r
      → (head r.successor_seq ≡ none → find_successor r d ≡ ok (some_did r.did))
        × ((h : ℕ)
            → head r.successor_seq ≡ some h
            → sub d r.did ≤ sub h r.did
            → find_successor r d ≡ ok (some_did h))
        × ((h : ℕ)
            → head r.successor_seq ≡ some h
            → sub h r.did < sub d r.did
            → (c : ℕ) × (find_successor r d ≡ ok (remote_action c (RemoteAction.find_successor d)))
              × IsClosest r.did d r.finger.finger 160 c)
  unfolding find_successor bias
  find_successor_lem r d v = (alone, near, far)
    where
      alone : head r.successor_seq ≡ none → find_successor r d ≡ ok (some_did r.did)
      alone e =
          let (q, z) = min_succ_nil r.successor_seq e in
          rw (q, z) (ap (λ (x : ℕ). ok (some_did x)) v.succ_own)

      near :
          (h : ℕ)
          → head r.successor_seq ≡ some h
          → sub d r.did ≤ sub h r.did
          → find_successor r d ≡ ok (some_did h)
      near h e le =
          let (q, z) = min_succ-head r.successor_seq h e in
          rw (q, z, Bias.le-new r.did d h, le→leb (sub d r.did) (sub h r.did) le)

      far :
          (h : ℕ)
          → head r.successor_seq ≡ some h
          → sub h r.did < sub d r.did
          → (c : ℕ) × (find_successor r d ≡ ok (remote_action c (RemoteAction.find_successor d)))
            × IsClosest r.did d r.finger.finger 160 c
      far h e lt =
          let (q, z) = min_succ-head r.successor_seq h e in
          let (c, run, pick) = closest_predecessor_lem r.finger d v.finger_valid in
          (
            c,
            rw (q, z, Bias.le-new r.did d h, lt→not-leb (sub d r.did) (sub h r.did) lt, run),
            subst (λ o. IsClosest o d r.finger.finger 160 c) v.finger_own
                (subst (λ n. IsClosest r.finger.did d r.finger.finger n c) v.finger_size pick),
          )
