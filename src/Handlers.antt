-- ===== src/Handlers.antt =====
-- crates/core/src/message/handlers/mod.rs: what a node does about the actions that the operations of
-- the ring ask for. The jobs of a `join_all` are run one after the other, in their order.
pub mod Connection
pub mod Stabilization
pub mod Vnodes
pub mod Join
pub mod Notice
pub mod Keeps
use bns_node.Common.{
  ℕ, Bool, true, false, not, Option, none, some, ◌==◌, if◌then◌else◌, Result, ok, err, panic, Error,
}
use bns_node.Effect.{Effect, ◌>>=◌, ◌>>◌, pure, lift, or_fail, attempt, unwrap}
use bns_node.Message
use bns_node.Message.{
  Message, FindSuccessorSend, FindSuccessorThen, FindSuccessorReportHandler, new_for_sync,
}
use bns_node.Action.{
  PeerRingAction, none_action, some_vnode, some_did, remote_action, multi_actions, Actions, nil,
  cons, RemoteAction,
}
use bns_node.Chord
use bns_node.Chord.{PeerRing}
use bns_node.Chord.Correct.{LiveDid, join_then_sync}
use bns_node.Swarm.{
  Env, SwarmTransport, change_dht, without_result, own_did, get_connection,
  get_and_check_connection, is_open,
}
use bns_node.Swarm.Send.{send_message, send_direct_message, connect}

abbrev pub for_connect : ℕ → FindSuccessorSend
for_connect did = record {
  did = did;
  strict = false;
  then_do = FindSuccessorThen.report FindSuccessorReportHandler.connect;
}

module _ {S T C : Type 0} (env : Env S T C) where
  -- Any other action is `unreachable!`.
  unfoldable pub handle_remote : ℕ → RemoteAction → Effect (SwarmTransport S T) (Unit {0})
  handle_remote next (RemoteAction.find_successor_for_connect did) =
      if not (next == did)
      then (do
        id ← send_direct_message env (Message.find_successor_send (for_connect did)) next
        pure tt)
      else pure tt
  handle_remote next RemoteAction.query_for_successor_list = do
    id ← send_direct_message env (Message.query_for_topo_info_send (new_for_sync next)) next
    pure tt
  handle_remote did RemoteAction.try_connect = connect env did
  handle_remote did (RemoteAction.notify target_id) = if did == target_id then pure tt else (do
    own ← own_did
    id ← send_message env (Message.notify_predecessor_send own) target_id
    pure tt)
  handle_remote _ _ = lift panic

  unfoldable mutual
    pub handle_dht_events : PeerRingAction → Effect (SwarmTransport S T) (Unit {0})
    handle_dht_events none_action = pure tt
    handle_dht_events (remote_action next act) = handle_remote next act
    handle_dht_events (multi_actions acts) = handle_jobs acts
    handle_dht_events (some_vnode v) = lift panic
    handle_dht_events (some_did d) = lift panic

    -- An error of a job is logged.
    pub handle_jobs : Actions → Effect (SwarmTransport S T) (Unit {0})
    handle_jobs nil = pure tt
    handle_jobs (cons act acts) = do logged ← attempt (handle_dht_events act); handle_jobs acts

  abbrev pub live_did : SwarmTransport S T → ℕ → C → LiveDid
  live_did w peer conn = record {
    did = peer;
    live = is_open (env.net.connection_state w.transport conn);
  }

  unfoldable pub join_connected : ℕ → Option C → Effect (SwarmTransport S T) (Unit {0})
  unfolding handle_dht_events
  join_connected peer found = do
    conn ← or_fail found Error.swarm_miss_did_in_table
    dht_ev ← λ w. change_dht (λ r. join_then_sync r (live_did w peer conn)) w
    handle_dht_events dht_ev

  unfoldable pub join_dht : ℕ → Effect (SwarmTransport S T) (Unit {0})
  unfolding handle_dht_events join_connected
  join_dht peer w =
      if env.experimental
      then join_connected peer (get_connection env w peer) w
      else (do dht_ev ← change_dht λ r. Chord.join r peer; unwrap (handle_dht_events dht_ev)) w

  leave_if_none : ℕ → Option C → Effect (SwarmTransport S T) (Unit {0})
  leave_if_none peer none = change_dht λ r. without_result (Chord.remove r peer)
  leave_if_none peer (some conn) = pure tt

  unfoldable pub leave_dht : ℕ → Effect (SwarmTransport S T) (Unit {0})
  unfolding leave_if_none
  leave_dht peer = do found ← get_and_check_connection env peer; leave_if_none peer found
