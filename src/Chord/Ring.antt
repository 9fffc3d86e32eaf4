-- ===== src/Chord/Ring.antt =====
-- Well-formed nodes, and that joining, leaving and fixing fingers keep them so.

use bns_node.Common.{ℕ, ◌^◌, ◌<◌, ◌≡◌, ◌≢◌, refl, ◌∙◌, Option, none, some, arith, ok}
use bns_node.Did.{IsDid}
use bns_node.Finger
use bns_node.Finger.{FingerTable}
use bns_node.Finger.Table
use bns_node.Successor
use bns_node.Successor.{SuccessorSeq}
use bns_node.Successor.Update
use bns_node.Successor.Update.{IsUpdate, update-IsUpdate}
use bns_node.Successor.Nearest
use bns_node.Action.{none_action, remote_action, RemoteAction}
use bns_node.Chord.{PeerRing, new_with_storage, join}

abbrev pub IsPredecessor : Option ℕ → Type 0
IsPredecessor none = Unit
IsPredecessor (some d) = IsDid d

-- The finger table and the list of successors are those of the node, and well-formed.
pub record IsValid {S : Type 0} (r : PeerRing S) : Type 0 where
  pub own : IsDid r.did
  pub finger_own : r.finger.did ≡ r.did
  pub finger_size : r.finger.size ≡ 160
  pub finger_valid : Table.IsValid r.finger
  pub succ_own : r.successor_seq.did ≡ r.did
  pub succ_valid : Update.IsValid r.successor_seq
  pub pred_valid : IsPredecessor r.predecessor
  pub index_valid : r.finger.fix_finger_index < 160

module _ {S : Type 0} where
  pub new-IsValid :
      (did succ_max : ℕ) (storage cache : S)
      → IsDid did
      → succ_max < 2 ^ 8
      → IsValid (new_with_storage did succ_max storage cache)
  unfolding new_with_storage Finger.new Successor.new
  new-IsValid did succ_max storage cache h k = record {
    own = h;
    finger_own = refl;
    finger_size = refl;
    finger_valid = Table.new-IsValid did 160 h (omega arith);
    succ_own = refl;
    succ_valid = Update.new-IsValid did succ_max h k;
    pred_valid = tt;
    index_valid = omega arith;
  }

  pub with_successors :
      (r : PeerRing S) (s : SuccessorSeq)
      → IsValid r
      → s.did ≡ r.did
      → Update.IsValid s
      → IsValid (record r { successor_seq = s })
  with_successors r s v own sv = record {
    own = v.own;
    finger_own = v.finger_own;
    finger_size = v.finger_size;
    finger_valid = v.finger_valid;
    succ_own = own;
    succ_valid = sv;
    pred_valid = v.pred_valid;
    index_valid = v.index_valid;
  }

  pub with_storage : (r : PeerRing S) (s : S) → IsValid r → IsValid (record r { storage = s })
  with_storage r s v = record {
    own = v.own;
    finger_own = v.finger_own;
    finger_size = v.finger_size;
    finger_valid = v.finger_valid;
    succ_own = v.succ_own;
    succ_valid = v.succ_valid;
    pred_valid = v.pred_valid;
    index_valid = v.index_valid;
  }

  -- Joining another node never fails, keeps the node well-formed, and asks the joined node for
  -- the successor of this one; joining oneself changes nothing.
  pub join_request :
      (r : PeerRing S) (d : ℕ)
      → IsDid d
      → IsValid r
      → (d ≡ r.did → join r d ≡ ok (r, none_action))
        × (d ≢ r.did
            → (t : PeerRing S) × (join r d
                ≡ ok (t, remote_action d (RemoteAction.find_successor_for_connect r.did)))
              × IsValid t)
  unfolding join
  join_request r d h v = (λ e. ground arith, other)
    where
      other :
          d ≢ r.did
          → (t : PeerRing S) × (join r d
              ≡ ok (t, remote_action d (RemoteAction.find_successor_for_connect r.did)))
            × IsValid t
      other ne =
          let (f, e, fv, entry) = Table.join_entries r.finger d h v.finger_valid in
          let (u, e', up) = update-IsUpdate r.successor_seq d v.succ_valid h in
          let same = Nearest.IsUpdate-same r.successor_seq d v.succ_valid h up in
          (
            record r { finger = record r.finger { finger = f }; successor_seq = u.0 },
            ground (arith, e, e'),
            record {
              own = v.own;
              finger_own = v.finger_own;
              finger_size = v.finger_size;
              finger_valid = fv;
              succ_own = same.0 ∙ v.succ_own;
              succ_valid = Nearest.IsUpdate-IsValid r.successor_seq d v.succ_valid h up;
              pred_valid = v.pred_valid;
              index_valid = v.index_valid;
            },
          )
