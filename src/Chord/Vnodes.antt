-- ===== src/Chord/Vnodes.antt =====
-- `ChordStorage`, `ChordStorageSync` and `ChordStorageCache` of crates/core/src/dht/chord.rs: what
-- a node stores for the ring, over any key-value store. `redundant` is the constant REDUNDANT.
pub mod Loop
pub mod RoundTrip
use Prim.Native.String.{String}
use bns_node.Common.{
  ℕ, Bool, true, false, Option, none, some, List, [], ◌∷◌, ◌==◌, inl, inr, ◌⊎◌, if◌then◌else◌,
  Result, ok, err, panic, ◌>>=◌, Error,
}
use bns_node.Did.Bias
use bns_node.Did.Rotate.{rotate_affine}
use bns_node.Subring.{External}
use bns_node.VNode
use bns_node.VNode.{VirtualNode, VNodeOperation, gen_default_vnode, operate}
use bns_node.Storage.{KvStorage}
use bns_node.Action.{
  PeerRingAction, none_action, some_did, some_vnode, remote_action, Actions, nil, cons, push,
  from_vec, is_remote, is_some_vnode, RemoteAction,
}
use bns_node.Chord.{PeerRing, find_successor, bias}

-- What a loop has collected after an iteration that may have failed.
abbrev pub collect : Actions → Result PeerRingAction → Actions
collect ret (ok act) = if is_remote act then push ret act else ret
collect ret _ = ret

abbrev pub sync_action : ℕ → List VirtualNode → PeerRingAction
sync_action succ [] = none_action
sync_action succ (v ∷ vs) = remote_action succ (RemoteAction.sync_vnode_with_successor (v ∷ vs))

-- What is stored, or the empty node that the operation starts from.
abbrev pub this_or_default :
    External → VNodeOperation → Result (Option VirtualNode) → Result VirtualNode
this_or_default x op (ok (some this)) = ok this
this_or_default x op (ok none) = gen_default_vnode x op
this_or_default x op (err e) = gen_default_vnode x op
this_or_default x op panic = panic

module _ {S : Type 0} (x : External) (kv : KvStorage VirtualNode S) where
  unfoldable pub found : PeerRing S → ℕ → ℕ → Result (Option VirtualNode) → Result PeerRingAction
  found r vid succ (ok (some v)) = ok (some_vnode v)
  found r vid succ (ok none) =
      if succ == r.did
      then ok none_action
      else ok (remote_action succ (RemoteAction.find_vnode vid))
  found r vid succ (err e) = ok none_action
  found r vid succ panic = panic

  unfoldable pub look_at : PeerRing S → ℕ → Result PeerRingAction → Result PeerRingAction
  unfolding found
  look_at r vid (ok (some_did succ)) = found r vid succ (kv.get r.storage (x.did_to_string vid))
  look_at r vid (ok (remote_action n (RemoteAction.find_successor id))) =
      ok (remote_action n (RemoteAction.find_vnode id))
  look_at r vid (ok _) = err Error.peer_ring_unexpected_action
  look_at r vid (err e) = err e
  look_at r vid panic = panic

  -- Go on with what was collected, or return.
  abbrev pub after : Actions → Result PeerRingAction → Result (Actions ⊎ PeerRingAction)
  after ret panic = panic
  after ret (err e) = ok (inl ret)
  after ret (ok act) =
      if is_remote act
      then ok (inl (push ret act))
      else if is_some_vnode act
      then ok (inr act)
      else ok (inl ret)

  unfoldable pub lookup_loop : PeerRing S → Actions → List ℕ → Result PeerRingAction
  unfolding look_at
  lookup_loop r ret [] = ok (from_vec ret)
  lookup_loop r ret (vid ∷ vids) = after ret (look_at r vid (find_successor r vid)) >>= λ c.
      elim c [ inl acts ↦ lookup_loop r acts vids | inr act ↦ ok act ]

  unfoldable pub vnode_lookup : ℕ → PeerRing S → ℕ → Result PeerRingAction
  unfolding lookup_loop
  vnode_lookup redundant r vid = elim (rotate_affine vid redundant) [
    | none ↦ panic
    | some vids ↦ lookup_loop r nil vids
  ]

  unfoldable pub write_back :
      PeerRing S → ℕ → Result VirtualNode → PeerRing S × Result (Result PeerRingAction)
  write_back r vid (ok v) =
      let p = kv.put r.storage (x.did_to_string vid) v in
      (record r { storage = p.0 }, p.1 >>= λ u. ok (ok none_action))
  write_back r vid (err e) = (r, err e)
  write_back r vid panic = (r, panic)

  -- The inner result is what the iteration yields, the outer one an early return.
  unfoldable pub operate_at :
      PeerRing S
      → VNodeOperation
      → ℕ
      → Result PeerRingAction
      → PeerRing S × Result (Result PeerRingAction)
  unfolding write_back
  operate_at r op vid (ok (some_did succ)) =
      write_back r vid (
        this_or_default x op (kv.get r.storage (x.did_to_string vid)) >>= λ this. operate x this op)
  operate_at r op vid (ok (remote_action n (RemoteAction.find_successor d))) =
      (r, ok (ok (remote_action n (RemoteAction.find_vnode_for_operate op))))
  operate_at r op vid (ok _) = (r, ok (err Error.peer_ring_unexpected_action))
  operate_at r op vid (err e) = (r, ok (err e))
  operate_at r op vid panic = (r, panic)

  unfoldable pub proceed :
      PeerRing S × Result (Result PeerRingAction)
      → (PeerRing S → Result PeerRingAction → PeerRing S × Result PeerRingAction)
      → PeerRing S × Result PeerRingAction
  proceed (r, ok act) next = next r act
  proceed (r, err e) next = (r, err e)
  proceed (r, panic) next = (r, panic)

  unfoldable pub operate_loop :
      PeerRing S → VNodeOperation → Actions → List ℕ → PeerRing S × Result PeerRingAction
  unfolding operate_at proceed
  operate_loop r op ret [] = (r, ok (from_vec ret))
  operate_loop r op ret (vid ∷ vids) =
      proceed (operate_at r op vid (find_successor r vid))
        λ t act. operate_loop t op (collect ret act) vids

  unfoldable pub vnode_operate :
      ℕ → PeerRing S → VNodeOperation → PeerRing S × Result PeerRingAction
  unfolding operate_loop
  vnode_operate redundant r op = elim (VNode.did x op) [
    | ok vid ↦ elim (rotate_affine vid redundant) [
      | none ↦ (r, panic)
      | some vids ↦ operate_loop r op nil vids
    ]
    | err e ↦ (r, err e)
    | panic ↦ (r, panic)
  ]

  unfoldable pub local_cache_put : PeerRing S → VirtualNode → PeerRing S × Result (Unit {0})
  local_cache_put r v =
      let p = kv.put r.cache (x.did_to_string v.did) v in (record r { cache = p.0 }, p.1)

  unfoldable pub local_cache_get : PeerRing S → ℕ → Result (Option VirtualNode)
  local_cache_get r vid = kv.get r.cache (x.did_to_string vid)

  -- The nodes that were popped, oldest first. A key that does not parse ends the loop.
  unfoldable pub sync_loop :
      PeerRing S → ℕ → List (String × VirtualNode) → PeerRing S × Result (List VirtualNode)
  sync_loop r succ [] = (r, ok [])
  sync_loop r succ ((key, v) ∷ items) = elim (x.did_from_str key) [
    | none ↦ (r, err Error.bad_c_hex_in_cache)
    | some vid ↦ elim (Bias.gt (bias r vid) (bias r succ)) [
      | false ↦ sync_loop r succ items
      | true ↦
          let p = kv.remove r.storage key in
          let rest = sync_loop (record r { storage = p.0 }) succ items in
          elim p.1 [
            | ok u ↦ (rest.0, rest.1 >>= λ vs. ok (v ∷ vs))
            | err e ↦ rest
            | panic ↦ (record r { storage = p.0 }, panic)
          ]
    ]
  ]

  unfoldable pub sync_vnode_with_successor : PeerRing S → ℕ → PeerRing S × Result PeerRingAction
  unfolding sync_loop
  sync_vnode_with_successor r succ = elim (kv.get_all r.storage) [
    | ok items ↦ let p = sync_loop r succ items in (p.0, p.1 >>= λ vs. ok (sync_action succ vs))
    | err e ↦ (r, err e)
    | panic ↦ (r, panic)
  ]
