-- ===== src/Handlers/Vnodes.antt =====
-- crates/core/src/message/handlers/storage.rs and subring.rs: what a node stores and fetches for the
-- application, and the messages by which nodes do it for each other. `redundant` is the constant
-- REDUNDANT.
pub mod Synced
pub mod Stored
pub mod Keeps
use Prim.Native.String.{String}
use bns_node.Common.{
  ℕ, not, Option, none, some, List, [], ◌∷◌, ◌==◌, if◌then◌else◌, Result, ok, err, panic, Error,
}
use bns_node.Effect.{Effect, ◌>>=◌, ◌>>◌, pure, lift, asks, fail, attempt, for_each}
use bns_node.VNode
use bns_node.VNode.{VirtualNode, VNodeOperation}
use bns_node.Message
use bns_node.Message.{Message}
use bns_node.Payload.{MessagePayload}
use bns_node.Action.{
  PeerRingAction, none_action, some_vnode, some_did, remote_action, multi_actions, Actions, nil,
  cons, RemoteAction,
}
use bns_node.Chord.Vnodes.{vnode_lookup, vnode_operate, local_cache_put, local_cache_get}
use bns_node.Swarm.{Env, SwarmTransport, in_dht}
use bns_node.Swarm.Send.{send_message, send_report_message, forward_payload, reset_destination}

module _ {S T C : Type 0} (env : Env S T C) where
  fetch_remote : ℕ → RemoteAction → Effect (SwarmTransport S T) (Unit {0})
  fetch_remote next (RemoteAction.find_vnode vid) = do
    id ← send_message env (Message.search_vnode vid) next
    pure tt
  fetch_remote next _ = pure tt

  unfoldable mutual
    unfolding fetch_remote

    pub handle_storage_fetch_act : PeerRingAction → Effect (SwarmTransport S T) (Unit {0})
    handle_storage_fetch_act none_action = pure tt
    handle_storage_fetch_act (some_vnode v) = in_dht λ r. local_cache_put env.ext env.kv r v
    handle_storage_fetch_act (remote_action next act) = fetch_remote next act
    handle_storage_fetch_act (multi_actions acts) = fetch_each acts
    handle_storage_fetch_act (some_did d) = fail Error.peer_ring_unexpected_action

    pub fetch_each : Actions → Effect (SwarmTransport S T) (Unit {0})
    fetch_each nil = pure tt
    fetch_each (cons act acts) = handle_storage_fetch_act act >> fetch_each acts

  unfoldable pub store_remote : ℕ → RemoteAction → Effect (SwarmTransport S T) (Unit {0})
  store_remote target (RemoteAction.find_vnode_for_operate op) = do
    id ← send_message env (Message.operate_vnode op) target
    pure tt
  store_remote target _ = fail Error.peer_ring_unexpected_action

  unfoldable mutual
    unfolding store_remote

    pub handle_storage_store_act : PeerRingAction → Effect (SwarmTransport S T) (Unit {0})
    handle_storage_store_act none_action = pure tt
    handle_storage_store_act (remote_action target act) = store_remote target act
    handle_storage_store_act (multi_actions acts) = store_each acts
    handle_storage_store_act (some_vnode v) = fail Error.peer_ring_unexpected_action
    handle_storage_store_act (some_did d) = fail Error.peer_ring_unexpected_action

    pub store_each : Actions → Effect (SwarmTransport S T) (Unit {0})
    store_each nil = pure tt
    store_each (cons act acts) = handle_storage_store_act act >> store_each acts

  unfoldable mutual
    pub handle_storage_operate_act :
        MessagePayload → PeerRingAction → Effect (SwarmTransport S T) (Unit {0})
    handle_storage_operate_act ctx none_action = pure tt
    handle_storage_operate_act ctx (remote_action next act) = reset_destination env ctx next
    handle_storage_operate_act ctx (multi_actions acts) = operate_each ctx acts
    handle_storage_operate_act ctx (some_vnode v) = fail Error.peer_ring_unexpected_action
    handle_storage_operate_act ctx (some_did d) = fail Error.peer_ring_unexpected_action

    -- An error of a job is logged.
    pub operate_each : MessagePayload → Actions → Effect (SwarmTransport S T) (Unit {0})
    operate_each ctx nil = pure tt
    operate_each ctx (cons act acts) = do
      logged ← attempt (handle_storage_operate_act ctx act)
      operate_each ctx acts

  unfoldable pub handle_storage_search_act :
      MessagePayload → PeerRingAction → Effect (SwarmTransport S T) (Unit {0})
  unfolding handle_storage_operate_act
  handle_storage_search_act ctx none_action = pure tt
  handle_storage_search_act ctx (some_vnode v) =
      send_report_message env ctx (Message.found_vnode (v ∷ []))
  handle_storage_search_act ctx (remote_action next act) = reset_destination env ctx next
  handle_storage_search_act ctx (multi_actions acts) = operate_each ctx acts
  handle_storage_search_act ctx (some_did d) = fail Error.peer_ring_unexpected_action

  abbrev flattened : Result (Option VirtualNode) → Option VirtualNode
  flattened (ok v) = v
  flattened _ = none

  unfoldable pub storage_check_cache : SwarmTransport S T → ℕ → Option VirtualNode
  storage_check_cache w vid = flattened (local_cache_get env.ext env.kv w.dht vid)

  unfoldable pub storage_fetch : ℕ → ℕ → Effect (SwarmTransport S T) (Unit {0})
  unfolding handle_storage_fetch_act
  storage_fetch redundant vid = do
    act ← asks λ w. vnode_lookup env.ext env.kv redundant w.dht vid
    handle_storage_fetch_act act

  -- What `storage_store` and the others do with their operation.
  unfoldable pub operate_and_store : ℕ → VNodeOperation → Effect (SwarmTransport S T) (Unit {0})
  unfolding handle_storage_store_act
  operate_and_store redundant op = do
    act ← in_dht λ r. vnode_operate env.ext env.kv redundant r op
    handle_storage_store_act act

  unfoldable pub storage_store : ℕ → VirtualNode → Effect (SwarmTransport S T) (Unit {0})
  storage_store redundant vnode = operate_and_store redundant (VNodeOperation.overwrite vnode)

  unfoldable pub storage_append_data : ℕ → String → String → Effect (SwarmTransport S T) (Unit {0})
  storage_append_data redundant topic e = do
    vnode ← lift (VNode.from_topic env.ext topic e)
    operate_and_store redundant (VNodeOperation.extend vnode)

  unfoldable pub storage_touch_data : ℕ → String → String → Effect (SwarmTransport S T) (Unit {0})
  storage_touch_data redundant topic e = do
    vnode ← lift (VNode.from_topic env.ext topic e)
    operate_and_store redundant (VNodeOperation.touch vnode)

  -- SubringInterface
  unfoldable pub subring_join : ℕ → String → Effect (SwarmTransport S T) (Unit {0})
  subring_join redundant name w =
      operate_and_store redundant (VNodeOperation.join_subring name w.dht.did) w

  unfoldable pub handle_search_vnode : MessagePayload → ℕ → Effect (SwarmTransport S T) (Unit {0})
  handle_search_vnode ctx vid = do
    act ← asks λ w. vnode_lookup env.ext env.kv 1 w.dht vid
    handle_storage_search_act ctx act

  unfoldable pub handle_found_vnode :
      MessagePayload → List VirtualNode → Effect (SwarmTransport S T) (Unit {0})
  handle_found_vnode ctx vs w =
      if not (w.dht.did == ctx.relay.destination)
      then forward_payload env ctx none w
      else for_each vs (λ v. in_dht λ r. local_cache_put env.ext env.kv r v) w

  unfoldable pub handle_operate_vnode :
      MessagePayload → VNodeOperation → Effect (SwarmTransport S T) (Unit {0})
  handle_operate_vnode ctx op = do
    act ← in_dht λ r. vnode_operate env.ext env.kv 1 r op
    handle_storage_operate_act ctx act

  unfoldable pub handle_sync_vnode_with_successor :
      List VirtualNode → Effect (SwarmTransport S T) (Unit {0})
  unfolding operate_and_store
  handle_sync_vnode_with_successor vs =
      for_each vs λ v. operate_and_store 1 (VNodeOperation.overwrite v)
