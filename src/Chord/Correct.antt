-- ===== src/Chord/Correct.antt =====
-- The `CorrectChord` operations of crates/core/src/dht/chord.rs, of a node that keeps a list of
-- successors, and `TopoInfo`. Whether another node is live is answered by the caller (`LiveDid`).
pub mod Stabilize
pub mod Total
use bns_node.Common.{
  ℕ, ◌-◌, Bool, true, false, not, Option, none, some, List, [], ◌∷◌, length, take, if◌then◌else◌,
  Result, ok, panic, ◌>>=◌,
}
use bns_node.Did.Bias
use bns_node.Successor
use bns_node.Action.{
  PeerRingAction, none_action, remote_action, multi_actions, Actions, nil, cons, push, is_remote,
  RemoteAction,
}
use bns_node.Chord.{PeerRing, join, bias}

pub record TopoInfo : Type 0 where
  pub successors : List ℕ
  pub predecessor : Option ℕ

-- A node and whether it is live.
pub record LiveDid : Type 0 where
  pub did : ℕ
  pub live : Bool

-- The slice up to the last element, whose bound underflows on an empty list.
abbrev pub but_last : List ℕ → Result (List ℕ)
but_last [] = panic
but_last (x ∷ xs) = ok (take (length xs) (x ∷ xs))

abbrev pub query : Option ℕ → PeerRingAction
query none = none_action
query (some d) = remote_action d RemoteAction.query_for_successor_list

abbrev pub keep_remote : Actions → PeerRingAction → Actions
keep_remote acts a = if is_remote a then push acts a else acts

module _ {S : Type 0} where
  unfoldable pub update_successor : PeerRing S → LiveDid → Result (PeerRing S × PeerRingAction)
  update_successor r d =
      if not d.live then ok (r, remote_action d.did RemoteAction.try_connect) else do
        u ← Successor.update r.successor_seq d.did
        ok (record r { successor_seq = u.0 }, query u.1)

  extend_from : PeerRing S → Actions → List LiveDid → Result (PeerRing S × PeerRingAction)
  extend_from r ret [] = ok (r, multi_actions ret)
  extend_from r ret (d ∷ ds) =
      update_successor r d >>= λ u. extend_from u.0 (keep_remote ret u.1) ds

  unfoldable pub extend_successor : PeerRing S → List LiveDid → Result (PeerRing S × PeerRingAction)
  unfolding extend_from
  extend_successor r ds = extend_from r nil ds

  unfoldable pub join_then_sync : PeerRing S → LiveDid → Result (PeerRing S × PeerRingAction)
  join_then_sync r d = if not d.live then ok (r, none_action) else do
    u ← update_successor r d
    j ← join u.0 d.did
    ok (j.0, multi_actions (push (keep_remote nil u.1) j.1))

  unfoldable pub pre_stabilize : PeerRing S → Result PeerRingAction
  pre_stabilize r = if Successor.is_empty r.successor_seq then ok none_action else do
    head ← Successor.min_succ r.successor_seq
    ok (remote_action head RemoteAction.query_for_successor_list_and_pred)

  unfoldable pub update_by : PeerRing S → Option ℕ → Result (PeerRing S)
  update_by r none = ok r
  update_by r (some d) = do
    u ← Successor.update r.successor_seq d
    ok (record r { successor_seq = u.0 })

  unfoldable pub tell : PeerRing S → Option ℕ → Result Actions
  tell r none = ok nil
  tell r (some d) = do
    head ← Successor.min_succ r.successor_seq
    let notice = cons (remote_action head (RemoteAction.notify r.did)) nil
    ok (
        if Bias.lt (bias r d) (bias r head)
        then cons (remote_action d RemoteAction.query_for_successor_list) notice
        else notice)

  unfoldable pub stabilize : PeerRing S → TopoInfo → Result (PeerRing S × PeerRingAction)
  unfolding update_by tell
  stabilize r info = do
    known ← but_last info.successors
    s ← update_by r info.predecessor
    e ← Successor.extend s.successor_seq known
    let t = record s { successor_seq = e.0 }
    acts ← tell t info.predecessor
    ok (t, multi_actions acts)

  unfoldable pub topo_info : PeerRing S → TopoInfo
  topo_info r = record { successors = r.successor_seq.successors; predecessor = r.predecessor }
