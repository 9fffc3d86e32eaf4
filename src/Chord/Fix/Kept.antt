-- ===== src/Chord/Fix/Kept.antt =====
-- Fixing fingers keeps a node well-formed: whatever is put into the table is a successor of the node,
-- and a node that is alone puts nothing there.
use bns_node.Common.{
  ℕ, ◌+◌, ◌%◌, ◌^◌, ◌<◌, ◌≡◌, refl, sym, ◌∙◌, subst, inl, inr, some, Option-cases, All-Member,
  arith, leb, leb→le, not-leb→lt, Bool-cases, ok,
}
use bns_node.Did.{IsDid, sub}
use bns_node.Finger
use bns_node.Finger.{FingerTable, set_at}
use bns_node.Finger.Join.{from_biguint-pow}
use bns_node.Finger.Table
use bns_node.Finger.Table.{set_at_same, set_at-IsValid}
use bns_node.Action.{some_did, remote_action, RemoteAction}
use bns_node.Successor.Update.{IsOther}
use bns_node.Chord.{PeerRing, find_successor, fix_fingers, fix_with}
use bns_node.Chord.Ring.{IsValid}
use bns_node.Chord.Lookup.{head, find_successor_lem}
use bns_node.Chord.Synced.{head-Member}

abbrev at_index : FingerTable → ℕ → FingerTable
at_index t k = record t { fix_finger_index = k }

at_index-IsValid : (t : FingerTable) (k : ℕ) → Table.IsValid t → Table.IsValid (at_index t k)
at_index-IsValid t k v = record {
  own = v.own;
  fits = v.fits;
  full_length = v.full_length;
  entries = v.entries;
}

module _ {S : Type 0} where
  with_finger :
      (r : PeerRing S) (t : FingerTable)
      → Table.IsValid t
      → t.did ≡ r.finger.did
      → t.size ≡ r.finger.size
      → t.fix_finger_index < 160
      → IsValid r
      → IsValid (record r { finger = t })
  with_finger r t tv own size index v = record {
    own = v.own;
    finger_own = own ∙ v.finger_own;
    finger_size = size ∙ v.finger_size;
    finger_valid = tv;
    succ_own = v.succ_own;
    succ_valid = v.succ_valid;
    pred_valid = v.pred_valid;
    index_valid = index;
  }

  found-IsValid :
      (r : PeerRing S) (k v : ℕ)
      → k < 160
      → IsDid v
      → IsValid r
      → find_successor r (2 ^ k) ≡ ok (some_did v)
      → IsValid (fix_with r k (find_successor r (2 ^ k))).0
  unfolding fix_with Finger.set_fix
  found-IsValid r k v below h valid e =
      let t = at_index r.finger k in
      let (own, size, index) = set_at_same t k v in
      rw e (
        with_finger r (set_at t k v)
          (set_at-IsValid t k v h (at_index-IsValid r.finger k valid.finger_valid)) own size
          (subst (λ i. i < 160) (sym index) below) valid)

  asked-IsValid :
      (r : PeerRing S) (k c : ℕ)
      → k < 160
      → IsValid r
      → find_successor r (2 ^ k) ≡ ok (remote_action c (RemoteAction.find_successor (2 ^ k)))
      → IsValid (fix_with r k (find_successor r (2 ^ k))).0
  unfolding fix_with
  asked-IsValid r k c below valid e = rw e (
      with_finger r (at_index r.finger k) (at_index-IsValid r.finger k valid.finger_valid) refl refl
        below valid)

  fixed-IsValid :
      (r : PeerRing S) (k : ℕ)
      → k < 160
      → IsValid r
      → IsValid (fix_with r k (find_successor r (2 ^ k))).0
  fixed-IsValid r k below v =
      let lookup = find_successor_lem r (2 ^ k) v in
      elim (Option-cases (head r.successor_seq)) [
        | inl e ↦ found-IsValid r k r.did below v.own v (lookup.0 e)
        | inr (h, e) ↦ elim (Bool-cases (leb (sub (2 ^ k) r.did) (sub h r.did))) [
          | inl near ↦
              found-IsValid r k h below (first h e) v
                (lookup.1 h e (leb→le (sub (2 ^ k) r.did) (sub h r.did) near))
          | inr far ↦
              let (c, run, pick) =
                lookup.2 h e (not-leb→lt (sub (2 ^ k) r.did) (sub h r.did) far) in
              asked-IsValid r k c below v run
        ]
      ]
    where
      first : (h : ℕ) → head r.successor_seq ≡ some h → IsDid h
      first h e =
          (All-Member (IsOther r.successor_seq.did) h r.successor_seq.successors v.succ_valid.others
            (head-Member r.successor_seq.successors h e)).0

  pub fix_fingers-IsValid : (r : PeerRing S) → IsValid r → IsValid (fix_fingers r).0
  unfolding fix_fingers
  fix_fingers-IsValid r v =
      let k = (r.finger.fix_finger_index + 1) % 160 in
      let below : k < 160 = omega arith in
      rw (from_biguint-pow k below).0 (fixed-IsValid r k below v)
