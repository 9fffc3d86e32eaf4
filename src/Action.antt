-- ===== src/Action.antt =====
-- `PeerRingAction` and `RemoteAction` of crates/core/src/dht/chord.rs: what an operation of a
-- node asks its caller to do.
use bns_node.Common.{ℕ, Bool, true, false, List}
use bns_node.VNode.{VirtualNode, VNodeOperation}

pub data RemoteAction : Type 0 where
  find_successor find_vnode notify : ℕ → RemoteAction
  find_vnode_for_operate : VNodeOperation → RemoteAction
  sync_vnode_with_successor : List VirtualNode → RemoteAction
  find_successor_for_connect find_successor_for_fix : ℕ → RemoteAction
  check_predecessor query_for_successor_list query_for_successor_list_and_pred : RemoteAction
  try_connect : RemoteAction

mutual
  pub data PeerRingAction : Type 0 where
    none_action : PeerRingAction
    some_vnode : VirtualNode → PeerRingAction
    some_did : ℕ → PeerRingAction
    remote_action : ℕ → RemoteAction → PeerRingAction
    multi_actions : Actions → PeerRingAction

  pub data Actions : Type 0 where
    nil : Actions
    cons : PeerRingAction → Actions → Actions

abbrev pub is_remote : PeerRingAction → Bool
is_remote (remote_action n r) = true
is_remote _ = false

abbrev pub is_none : PeerRingAction → Bool
is_none none_action = true
is_none _ = false

abbrev pub is_some : PeerRingAction → Bool
is_some (some_did d) = true
is_some _ = false

abbrev pub is_multi : PeerRingAction → Bool
is_multi (multi_actions acts) = true
is_multi _ = false

abbrev pub is_some_vnode : PeerRingAction → Bool
is_some_vnode (some_vnode v) = true
is_some_vnode _ = false

-- From<Vec<PeerRingAction>>
abbrev pub from_vec : Actions → PeerRingAction
from_vec nil = none_action
from_vec (cons a as') = multi_actions (cons a as')

abbrev pub push : Actions → PeerRingAction → Actions
push nil a = cons a nil
push (cons b bs) a = cons b (push bs a)
