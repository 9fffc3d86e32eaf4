-- ===== src/Chord.antt =====
-- crates/core/src/dht/chord.rs: a node of the ring. The mutexes and the lock of the successors
-- fail only after a panic in another thread, which is not modelled; each operation is one step.
-- An operation that writes to the storage returns the node beside its result, since what was
-- written before an error stays written.
pub mod Ring
pub mod Remove
pub mod Lookup
pub mod Route
pub mod Synced
pub mod Notify
pub mod Fix
pub mod Vnodes
pub mod Sync
pub mod Kept
pub mod Correct
use bns_node.Common.{
  ℕ, zero, suc, ◌+◌, ◌%◌, ◌^◌, Bool, true, false, ◌||◌, Option, none, some, ◌==◌, if◌then◌else◌,
  Result, ok, err, panic, ◌>>=◌, Error,
}
use bns_node.Did.{from_biguint}
use bns_node.Did.Bias
use bns_node.Did.Bias.{BiasId}
use bns_node.Finger
use bns_node.Finger.{FingerTable}
use bns_node.Successor
use bns_node.Successor.{SuccessorSeq}
use bns_node.Action.{PeerRingAction, none_action, some_did, remote_action, RemoteAction}

pub record PeerRing (S : Type 0) : Type 0 where
  pub did : ℕ
  pub finger : FingerTable
  pub successor_seq : SuccessorSeq
  pub predecessor : Option ℕ
  pub storage : S
  pub cache : S

abbrev pub drop_predecessor : Option ℕ → ℕ → Option ℕ
drop_predecessor none did = none
drop_predecessor (some pid) did = if pid == did then none else some pid

-- An empty list of successors takes the first finger.
unfoldable pub refill : SuccessorSeq → Option ℕ → Result SuccessorSeq
refill s none = ok s
refill s (some x) = Successor.update s x >>= λ u. ok u.0

module _ {S : Type 0} where
  -- The cache is the caller's empty memory store.
  unfoldable pub new_with_storage : ℕ → ℕ → S → S → PeerRing S
  new_with_storage did succ_max storage cache = record {
    did = did;
    finger = Finger.new did 160;
    successor_seq = Successor.new did succ_max;
    predecessor = none;
    storage = storage;
    cache = cache;
  }

  unfoldable pub bias : PeerRing S → ℕ → BiasId
  bias r did = Bias.new r.did did

  unfoldable pub remove : PeerRing S → ℕ → Result (PeerRing S)
  unfolding refill
  remove r did =
      let finger = Finger.remove r.finger did in
      let succ = Successor.remove r.successor_seq did in
      (if Successor.is_empty succ then refill succ (Finger.first finger) else ok succ) >>= λ s.
      ok (record r {
        finger = finger;
        successor_seq = s;
        predecessor = drop_predecessor r.predecessor did;
      })

  unfoldable pub join : PeerRing S → ℕ → Result (PeerRing S × PeerRingAction)
  join r did = if did == r.did then ok (r, none_action) else do
    finger ← Finger.join r.finger did
    u ← Successor.update r.successor_seq did
    ok (
      record r { finger = finger; successor_seq = u.0 },
      remote_action did (RemoteAction.find_successor_for_connect r.did),
    )

  unfoldable pub ask_closest : PeerRing S → ℕ → Result PeerRingAction
  ask_closest r did = do
    closest ← Finger.closest_predecessor r.finger did
    ok (remote_action closest (RemoteAction.find_successor did))

  unfoldable pub find_successor : PeerRing S → ℕ → Result PeerRingAction
  unfolding ask_closest
  find_successor r did = do
    head ← Successor.min_succ r.successor_seq
    if Successor.is_empty r.successor_seq || Bias.le (bias r did) (bias r head)
        then ok (some_did head)
        else ask_closest r did

  notify_with : PeerRing S → ℕ → Option ℕ → PeerRing S × ℕ
  notify_with r did none = (record r { predecessor = some did }, did)
  notify_with r did (some pre) =
      if Bias.lt (bias r pre) (bias r did)
      then (record r { predecessor = some did }, did)
      else (r, pre)

  -- The predecessor that the node has afterwards is returned.
  unfoldable pub notify : PeerRing S → ℕ → PeerRing S × ℕ
  unfolding notify_with
  notify r did = notify_with r did r.predecessor

  unfoldable pub rectify : PeerRing S → ℕ → PeerRing S
  rectify r pred = (notify r pred).0

  abbrev set_index : PeerRing S → ℕ → PeerRing S
  set_index r k = record r { finger = record r.finger { fix_finger_index = k } }

  fix_with : PeerRing S → ℕ → Result PeerRingAction → PeerRing S × Result PeerRingAction
  fix_with r k (ok (some_did v)) = (
    record r { finger = Finger.set_fix (record r.finger { fix_finger_index = k }) v },
    ok none_action,
  )
  fix_with r k (ok (remote_action n (RemoteAction.find_successor d))) =
      (set_index r k, ok (remote_action n (RemoteAction.find_successor_for_fix d)))
  fix_with r k (ok _) = (r, err Error.peer_ring_invalid_action)
  fix_with r k (err e) = (set_index r k, err Error.peer_ring_find_successor)
  fix_with r k panic = (r, panic)

  -- The index is a byte: at most 255 + 1 is added up, and the remainder fits.
  unfoldable pub fix_fingers : PeerRing S → PeerRing S × Result PeerRingAction
  unfolding fix_with
  fix_fingers r =
      let k = (r.finger.fix_finger_index + 1) % 160 in
      fix_with r k (find_successor r (from_biguint (2 ^ k)))
