-- ===== src/Chord/Fix.antt =====
-- `PeerRing::fix_fingers`: which finger is fixed, and with what.
pub mod Kept
use bns_node.Common.{
  ℕ, ◌+◌, ◌%◌, ◌^◌, ◌≤◌, ◌<◌, ◌≡◌, ◌≢◌, refl, ◌∙◌, inl, inr, ◌⊎◌, some, get_elem?, Option-cases,
  arith, leb, leb→le, not-leb→lt, Bool-cases, Result, ok,
}
use bns_node.Did.{sub}
use bns_node.Finger
use bns_node.Finger.{FingerTable}
use bns_node.Finger.Join.{from_biguint-pow}
use bns_node.Finger.Closest.{IsClosest}
use bns_node.Finger.Table.{set_at_same, set_at_lem}
use bns_node.Action.{PeerRingAction, none_action, some_did, remote_action, RemoteAction}
use bns_node.Chord.{PeerRing, find_successor, fix_fingers, fix_with}
use bns_node.Chord.Ring.{IsValid}
use bns_node.Chord.Lookup.{head, find_successor_lem}

-- The index that is fixed next.
abbrev pub next_index : ℕ → ℕ
next_index k = (k + 1) % 160

-- What a call for index `k` leaves and returns.
abbrev IsFixed : {S : Type 0} → PeerRing S → ℕ → PeerRing S × Result PeerRingAction → Type 0
IsFixed r k p =
    (p.0.finger.fix_finger_index ≡ k)
    × (p.0.successor_seq ≡ r.successor_seq)
    × (p.0.predecessor ≡ r.predecessor)
    × ((p.1 ≡ ok none_action)
        ⊎ ((c : ℕ) × (p.1 ≡ ok (remote_action c (RemoteAction.find_successor_for_fix (2 ^ k))))
            × IsClosest r.did (2 ^ k) r.finger.finger 160 c))

module _ {S : Type 0} where
  fix_found :
      (r : PeerRing S) (k v : ℕ)
      → find_successor r (2 ^ k) ≡ ok (some_did v)
      → IsFixed r k (fix_with r k (find_successor r (2 ^ k)))
  unfolding fix_with Finger.set_fix
  fix_found r k v e =
      rw e ((set_at_same (record r.finger { fix_finger_index = k }) k v).2, refl, refl, inl refl)

  fix_asked :
      (r : PeerRing S) (k c : ℕ)
      → find_successor r (2 ^ k) ≡ ok (remote_action c (RemoteAction.find_successor (2 ^ k)))
      → IsClosest r.did (2 ^ k) r.finger.finger 160 c
      → IsFixed r k (fix_with r k (find_successor r (2 ^ k)))
  unfolding fix_with
  fix_asked r k c e pick = rw e (refl, refl, refl, inr (c, refl, pick))

  fix_cases :
      (r : PeerRing S) (k : ℕ) → IsValid r → IsFixed r k (fix_with r k (find_successor r (2 ^ k)))
  fix_cases r k v =
      let lookup = find_successor_lem r (2 ^ k) v in
      elim (Option-cases (head r.successor_seq)) [
        | inl e ↦ fix_found r k r.did (lookup.0 e)
        | inr (h, e) ↦ elim (Bool-cases (leb (sub (2 ^ k) r.did) (sub h r.did))) [
          | inl near ↦
              fix_found r k h (lookup.1 h e (leb→le (sub (2 ^ k) r.did) (sub h r.did) near))
          | inr far ↦
              let (c, run, pick) =
                lookup.2 h e (not-leb→lt (sub (2 ^ k) r.did) (sub h r.did) far) in
              fix_asked r k c run pick
        ]
      ]

  -- One finger is fixed at a time, all 160 of them in turn: the index moves on by one modulo 160
  -- whatever happens, the successors and the predecessor are untouched, and the call never fails:
  -- it returns nothing to do, or one request to the node that the finger table picks for the
  -- point 2 ^ k.
  pub fix_fingers_lem :
      (r : PeerRing S)
      → IsValid r
      → let k = next_index r.finger.fix_finger_index in
        let t = (fix_fingers r).0 in
        (k < 160)
        × (t.finger.fix_finger_index ≡ k)
        × (t.successor_seq ≡ r.successor_seq)
        × (t.predecessor ≡ r.predecessor)
        × (((fix_fingers r).1 ≡ ok none_action)
            ⊎ ((c : ℕ) × ((fix_fingers r).1
                  ≡ ok (remote_action c (RemoteAction.find_successor_for_fix (2 ^ k))))
                × IsClosest r.did (2 ^ k) r.finger.finger 160 c))
  unfolding fix_fingers
  fix_fingers_lem r v =
      let k = next_index r.finger.fix_finger_index in
      let below : k < 160 = omega arith in
      let (index, succ, pred, result) = fix_cases r k v in
      (
        below,
        rw (from_biguint-pow k below).0 index,
        rw (from_biguint-pow k below).0 succ,
        rw (from_biguint-pow k below).0 pred,
        rw (from_biguint-pow k below).0 result,
      )

  -- The finger that is fixed is not the one that Chord asks for: the point looked up is 2 ^ k and
  -- not the node's own identifier plus 2 ^ k. If that point lies, seen from the node, up to its
  -- first successor, entry `k` becomes this successor, even where it is nearer than 2 ^ k, so that
  -- joining would never have put it there.
  pub fix_fingers_absolute :
      (r : PeerRing S) (h : ℕ)
      → IsValid r
      → head r.successor_seq ≡ some h
      → h ≢ r.did
      → sub (2 ^ next_index r.finger.fix_finger_index) r.did ≤ sub h r.did
      → sub h r.did < 2 ^ next_index r.finger.fix_finger_index
      → get_elem? (fix_fingers r).0.finger.finger (next_index r.finger.fix_finger_index)
        ≡ some (some h)
  unfolding fix_fingers fix_with Finger.set_fix
  fix_fingers_absolute r h v e ne near short =
      let k = next_index r.finger.fix_finger_index in
      let below : k < 160 = omega arith in
      let found : find_successor r (2 ^ k) ≡ ok (some_did h) =
        (find_successor_lem r (2 ^ k) v).1 h e near in
      rw (from_biguint-pow k below).0 (
        rw found (
          set_at_lem (record r.finger { fix_finger_index = k }) k h
            (omega (arith, v.finger_valid.full_length, v.finger_size))
            λ same. ne (same ∙ v.finger_own)))
