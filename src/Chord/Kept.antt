-- ===== src/Chord/Kept.antt =====
-- The operations on the storage, and notifications, keep a node well-formed.
use Prim.Native.String.{String}
use bns_node.Common.{
  ℕ, ◌≡◌, refl, sym, subst, inl, inr, Bool, true, false, Option, none, some, List, [], ◌∷◌, Result,
  ok, err, panic,
}
use bns_node.Did.{IsDid}
use bns_node.Did.Bias
use bns_node.Did.Rotate.{rotate_affine}
use bns_node.Subring.{External}
use bns_node.VNode
use bns_node.VNode.{VirtualNode, VNodeOperation}
use bns_node.Storage.{KvStorage}
use bns_node.Action.{
  PeerRingAction, none_action, some_did, some_vnode, remote_action, multi_actions, Actions, nil,
  RemoteAction,
}
use bns_node.Chord.{PeerRing, bias, notify, find_successor}
use bns_node.Chord.Ring.{IsValid, IsPredecessor, with_storage}
use bns_node.Chord.Notify.{notify_lem}
use bns_node.Chord.Vnodes.{
  collect, write_back, operate_at, proceed, operate_loop, vnode_operate, local_cache_put, sync_loop,
  sync_vnode_with_successor,
}

module _ {S : Type 0} where
  with_cache : (r : PeerRing S) (c : S) → IsValid r → IsValid (record r { cache = c })
  with_cache r c v = record {
    own = v.own;
    finger_own = v.finger_own;
    finger_size = v.finger_size;
    finger_valid = v.finger_valid;
    succ_own = v.succ_own;
    succ_valid = v.succ_valid;
    pred_valid = v.pred_valid;
    index_valid = v.index_valid;
  }

  with_predecessor :
      (r : PeerRing S) (o : Option ℕ)
      → IsPredecessor o
      → IsValid r
      → IsValid (record r { predecessor = o })
  with_predecessor r o h v = record {
    own = v.own;
    finger_own = v.finger_own;
    finger_size = v.finger_size;
    finger_valid = v.finger_valid;
    succ_own = v.succ_own;
    succ_valid = v.succ_valid;
    pred_valid = h;
    index_valid = v.index_valid;
  }

  pub notify-IsValid : (r : PeerRing S) (d : ℕ) → IsDid d → IsValid r → IsValid (notify r d).0
  notify-IsValid r d h v =
      let (same, which, behind, keeps) = notify_lem r d in
      subst IsValid (sym same) (
        with_predecessor r (some (notify r d).1)
          (elim which [
            | inl e ↦ subst IsDid (sym e) h
            | inr e ↦ subst IsPredecessor e v.pred_valid
          ])
          v)

module _ {S : Type 0} (x : External) (kv : KvStorage VirtualNode S) where
  pub cache_put-IsValid :
      (r : PeerRing S) (n : VirtualNode) → IsValid r → IsValid (local_cache_put x kv r n).0
  unfolding local_cache_put
  cache_put-IsValid r n v = with_cache r _ v

  write_back-IsValid :
      (r : PeerRing S) (vid : ℕ) (n : Result VirtualNode)
      → IsValid r
      → IsValid (write_back x kv r vid n).0
  unfolding write_back
  write_back-IsValid r vid (ok n) v = with_storage r _ v
  write_back-IsValid r vid (err e) v = v
  write_back-IsValid r vid panic v = v

  operate_at-IsValid :
      (r : PeerRing S) (op : VNodeOperation) (vid : ℕ) (a : Result PeerRingAction)
      → IsValid r
      → IsValid (operate_at x kv r op vid a).0
  unfolding operate_at
  operate_at-IsValid r op vid (ok (some_did succ)) v = write_back-IsValid r vid _ v
  operate_at-IsValid r op vid (ok none_action) v = v
  operate_at-IsValid r op vid (ok (some_vnode n)) v = v
  operate_at-IsValid r op vid (ok (multi_actions acts)) v = v
  operate_at-IsValid r op vid (ok (remote_action n (RemoteAction.find_successor d))) v = v
  operate_at-IsValid r op vid (ok (remote_action n _)) v = v
  operate_at-IsValid r op vid (err e) v = v
  operate_at-IsValid r op vid panic v = v

  proceed-IsValid :
      (p : PeerRing S × Result (Result PeerRingAction))
      (next : PeerRing S → Result PeerRingAction → PeerRing S × Result PeerRingAction)
      → IsValid p.0
      → ((t : PeerRing S) (a : Result PeerRingAction) → IsValid t → IsValid (next t a).0)
      → IsValid (proceed x kv p next).0
  unfolding proceed
  proceed-IsValid (r, ok a) next v h = h r a v
  proceed-IsValid (r, err e) next v h = v
  proceed-IsValid (r, panic) next v h = v

  operate_loop-IsValid :
      (vids : List ℕ) (r : PeerRing S) (op : VNodeOperation) (acts : Actions)
      → IsValid r
      → IsValid (operate_loop x kv r op acts vids).0
  unfolding operate_loop
  operate_loop-IsValid [] r op acts v = v
  operate_loop-IsValid (vid ∷ vids) r op acts v =
      proceed-IsValid (operate_at x kv r op vid (find_successor r vid))
        (λ t a. operate_loop x kv t op (collect acts a) vids)
        (operate_at-IsValid r op vid (find_successor r vid) v)
        λ t a tv. operate_loop-IsValid vids t op (collect acts a) tv

  pub vnode_operate-IsValid :
      (redundant : ℕ) (r : PeerRing S) (op : VNodeOperation)
      → IsValid r
      → IsValid (vnode_operate x kv redundant r op).0
  unfolding vnode_operate
  vnode_operate-IsValid redundant r op v = by_did (VNode.did x op) refl
    where
      by_copies :
          (vid : ℕ) (o : Option (List ℕ))
          → VNode.did x op ≡ ok vid
          → rotate_affine vid redundant ≡ o
          → IsValid (vnode_operate x kv redundant r op).0
      by_copies vid none e f = rw (vnode_operate, e, f) v
      by_copies vid (some vids) e f =
          rw (vnode_operate, e, f) (operate_loop-IsValid vids r op nil v)

      by_did : (d : Result ℕ) → VNode.did x op ≡ d → IsValid (vnode_operate x kv redundant r op).0
      by_did (ok vid) e = by_copies vid (rotate_affine vid redundant) e refl
      by_did (err w) e = rw (vnode_operate, e) v
      by_did panic e = rw (vnode_operate, e) v

  sync_step-IsValid :
      (key : String) (n : VirtualNode) (items : List (String × VirtualNode)) (r : PeerRing S)
      (succ : ℕ)
      → IsValid r
      → IsValid (sync_loop x kv r succ items).0
      → IsValid (sync_loop x kv (record r { storage = (kv.remove r.storage key).0 }) succ items).0
      → IsValid (sync_loop x kv r succ ((key, n) ∷ items)).0
  unfolding sync_loop
  sync_step-IsValid key n items r succ v near far = parsed (x.did_from_str key) refl
    where
      Goal : Type 0
      Goal = IsValid (sync_loop x kv r succ ((key, n) ∷ items)).0

      removed :
          (vid : ℕ) (o : Result (Unit {0}))
          → x.did_from_str key ≡ some vid
          → Bias.gt (bias r vid) (bias r succ) ≡ true
          → (kv.remove r.storage key).1 ≡ o
          → Goal
      removed vid (ok u) e f g = rw (sync_loop, e, f, g) far
      removed vid (err w) e f g = rw (sync_loop, e, f, g) far
      removed vid panic e f g = rw (sync_loop, e, f, g) (with_storage r _ v)

      beyond :
          (vid : ℕ) (b : Bool)
          → x.did_from_str key ≡ some vid
          → Bias.gt (bias r vid) (bias r succ) ≡ b
          → Goal
      beyond vid false e f = rw (sync_loop, e, f) near
      beyond vid true e f = removed vid (kv.remove r.storage key).1 e f refl

      parsed : (o : Option ℕ) → x.did_from_str key ≡ o → Goal
      parsed none e = rw (sync_loop, e) v
      parsed (some vid) e = beyond vid (Bias.gt (bias r vid) (bias r succ)) e refl

  sync_loop-IsValid :
      (items : List (String × VirtualNode)) (r : PeerRing S) (succ : ℕ)
      → IsValid r
      → IsValid (sync_loop x kv r succ items).0
  sync_loop-IsValid [] r succ v = unfold sync_loop in v
  sync_loop-IsValid ((key, n) ∷ items) r succ v =
      sync_step-IsValid key n items r succ v (sync_loop-IsValid items r succ v) (
        sync_loop-IsValid items (record r { storage = (kv.remove r.storage key).0 }) succ
          (with_storage r _ v))

  pub sync-IsValid :
      (r : PeerRing S) (succ : ℕ) → IsValid r → IsValid (sync_vnode_with_successor x kv r succ).0
  unfolding sync_vnode_with_successor
  sync-IsValid r succ v = listed (kv.get_all r.storage) refl
    where
      listed :
          (o : Result (List (String × VirtualNode)))
          → kv.get_all r.storage ≡ o
          → IsValid (sync_vnode_with_successor x kv r succ).0
      listed (ok items) e = rw (sync_vnode_with_successor, e) (sync_loop-IsValid items r succ v)
      listed (err w) e = rw (sync_vnode_with_successor, e) v
      listed panic e = rw (sync_vnode_with_successor, e) v
