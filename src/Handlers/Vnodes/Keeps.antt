-- ===== src/Handlers/Vnodes/Keeps.antt =====
-- The handlers of messages about virtual nodes keep a node well-formed.
use bns_node.Common.{ℕ, List, [], ◌∷◌, All, none}
use bns_node.Effect.Keeps.{Keeps, test-Keeps, same-Keeps, then-Keeps, attempt-Keeps, for_each-Keeps}
use bns_node.VNode.{VirtualNode, VNodeOperation}
use bns_node.Action.{
  PeerRingAction, none_action, some_vnode, some_did, remote_action, multi_actions, Actions, nil,
  cons, RemoteAction,
}
use bns_node.Chord.Kept.{cache_put-IsValid, vnode_operate-IsValid}
use bns_node.Payload.{MessagePayload}
use bns_node.Swarm.{Env}
use bns_node.Swarm.Keeps.{
  send_message-Keeps, send_report_message-Keeps, forward_payload-Keeps, reset_destination-Keeps,
}
use bns_node.Handlers.Keeps.{IsSound, IsSound-IsApart}
use bns_node.Handlers.Stabilization.Keeps.{in_dht-Keeps}
use bns_node.Handlers.Vnodes.{
  fetch_remote, handle_storage_fetch_act, fetch_each, storage_fetch, store_remote,
  handle_storage_store_act, store_each, handle_storage_operate_act, operate_each,
  handle_storage_search_act, operate_and_store, handle_search_vnode, handle_found_vnode,
  handle_operate_vnode, handle_sync_vnode_with_successor,
}

all_of : (vs : List VirtualNode) → All (λ v. Unit {0}) vs
all_of [] = tt
all_of (v ∷ vs) = (tt, all_of vs)

module _ {S T C : Type 0} (env : Env S T C) where
  store_remote-Keeps : (n : ℕ) (act : RemoteAction) → Keeps IsSound (store_remote env n act)
  unfolding store_remote
  store_remote-Keeps n (RemoteAction.find_vnode_for_operate op) =
      then-Keeps (send_message-Keeps env IsSound-IsApart _ n) λ id. same-Keeps
  store_remote-Keeps n _ = same-Keeps

  mutual
    unfolding handle_storage_store_act

    store_act-Keeps : (act : PeerRingAction) → Keeps IsSound (handle_storage_store_act env act)
    store_act-Keeps none_action = same-Keeps
    store_act-Keeps (remote_action n act) = store_remote-Keeps n act
    store_act-Keeps (multi_actions acts) = store_each-Keeps acts
    store_act-Keeps (some_vnode v) = same-Keeps
    store_act-Keeps (some_did d) = same-Keeps

    store_each-Keeps : (acts : Actions) → Keeps IsSound (store_each env acts)
    store_each-Keeps nil = same-Keeps
    store_each-Keeps (cons act acts) = then-Keeps (store_act-Keeps act) λ u. store_each-Keeps acts

  mutual
    unfolding handle_storage_operate_act

    operate_act-Keeps :
        (ctx : MessagePayload) (act : PeerRingAction)
        → Keeps IsSound (handle_storage_operate_act env ctx act)
    operate_act-Keeps ctx none_action = same-Keeps
    operate_act-Keeps ctx (remote_action n act) = reset_destination-Keeps env IsSound-IsApart ctx n
    operate_act-Keeps ctx (multi_actions acts) = operate_each-Keeps ctx acts
    operate_act-Keeps ctx (some_vnode v) = same-Keeps
    operate_act-Keeps ctx (some_did d) = same-Keeps

    operate_each-Keeps :
        (ctx : MessagePayload) (acts : Actions) → Keeps IsSound (operate_each env ctx acts)
    operate_each-Keeps ctx nil = same-Keeps
    operate_each-Keeps ctx (cons act acts) =
        then-Keeps (attempt-Keeps (operate_act-Keeps ctx act)) λ r. operate_each-Keeps ctx acts

  search_act-Keeps :
      (ctx : MessagePayload) (act : PeerRingAction)
      → Keeps IsSound (handle_storage_search_act env ctx act)
  unfolding handle_storage_search_act
  search_act-Keeps ctx none_action = same-Keeps
  search_act-Keeps ctx (some_vnode v) = send_report_message-Keeps env IsSound-IsApart ctx _
  search_act-Keeps ctx (remote_action n act) = reset_destination-Keeps env IsSound-IsApart ctx n
  search_act-Keeps ctx (multi_actions acts) = operate_each-Keeps ctx acts
  search_act-Keeps ctx (some_did d) = same-Keeps

  pub operate_and_store-Keeps :
      (redundant : ℕ) (op : VNodeOperation) → Keeps IsSound (operate_and_store env redundant op)
  unfolding operate_and_store
  operate_and_store-Keeps redundant op =
      then-Keeps (in_dht-Keeps env _ λ r v. vnode_operate-IsValid env.ext env.kv redundant r op v)
        λ act. store_act-Keeps act

  pub search_vnode-Keeps :
      (ctx : MessagePayload) (vid : ℕ) → Keeps IsSound (handle_search_vnode env ctx vid)
  unfolding handle_search_vnode
  search_vnode-Keeps ctx vid = then-Keeps same-Keeps λ act. search_act-Keeps ctx act

  pub found_vnode-Keeps :
      (ctx : MessagePayload) (vs : List VirtualNode) → Keeps IsSound (handle_found_vnode env ctx vs)
  unfolding handle_found_vnode
  found_vnode-Keeps ctx vs = test-Keeps _ (forward_payload-Keeps env IsSound-IsApart ctx none) (
      for_each-Keeps (λ v. Unit {0}) _ vs
        (λ n u. in_dht-Keeps env _ λ r v. cache_put-IsValid env.ext env.kv r n v) (all_of vs))

  pub operate_vnode-Keeps :
      (ctx : MessagePayload) (op : VNodeOperation) → Keeps IsSound (handle_operate_vnode env ctx op)
  unfolding handle_operate_vnode
  operate_vnode-Keeps ctx op =
      then-Keeps (in_dht-Keeps env _ λ r v. vnode_operate-IsValid env.ext env.kv 1 r op v)
        λ act. operate_act-Keeps ctx act

  pub sync_vnode-Keeps :
      (vs : List VirtualNode) → Keeps IsSound (handle_sync_vnode_with_successor env vs)
  unfolding handle_sync_vnode_with_successor
  sync_vnode-Keeps vs =
      for_each-Keeps (λ v. Unit {0}) _ vs
        (λ v u. operate_and_store-Keeps 1 (VNodeOperation.overwrite v)) (all_of vs)

  fetch_remote-Keeps : (n : ℕ) (act : RemoteAction) → Keeps IsSound (fetch_remote env n act)
  unfolding fetch_remote
  fetch_remote-Keeps n (RemoteAction.find_vnode vid) =
      then-Keeps (send_message-Keeps env IsSound-IsApart _ n) λ id. same-Keeps
  fetch_remote-Keeps n _ = same-Keeps

  mutual
    unfolding handle_storage_fetch_act

    fetch_act-Keeps : (act : PeerRingAction) → Keeps IsSound (handle_storage_fetch_act env act)
    fetch_act-Keeps none_action = same-Keeps
    fetch_act-Keeps (some_vnode n) =
        in_dht-Keeps env _ λ r v. cache_put-IsValid env.ext env.kv r n v
    fetch_act-Keeps (remote_action n act) = fetch_remote-Keeps n act
    fetch_act-Keeps (multi_actions acts) = fetch_each-Keeps acts
    fetch_act-Keeps (some_did d) = same-Keeps

    fetch_each-Keeps : (acts : Actions) → Keeps IsSound (fetch_each env acts)
    fetch_each-Keeps nil = same-Keeps
    fetch_each-Keeps (cons act acts) = then-Keeps (fetch_act-Keeps act) λ u. fetch_each-Keeps acts

  pub storage_fetch-Keeps : (redundant vid : ℕ) → Keeps IsSound (storage_fetch env redundant vid)
  unfolding storage_fetch
  storage_fetch-Keeps redundant vid = then-Keeps same-Keeps λ act. fetch_act-Keeps act
