-- ===== src/Stabilizer.antt =====
-- crates/core/src/dht/stabilization.rs: what a node does from time to time to keep the ring up to
-- date. The timers that call it are not modelled.
pub mod Rounds
pub mod Keeps
use bns_node.Common.{
  ℕ, Bool, true, false, not, List, [], ◌∷◌, ◌==◌, if◌then◌else◌, Result, ok, err, panic,
}
use bns_node.Effect.{Effect, ◌>>=◌, ◌>>◌, pure, lift, asks, attempt, for_each}
use bns_node.Successor
use bns_node.Action.{
  PeerRingAction, none_action, some_vnode, some_did, remote_action, multi_actions, RemoteAction,
}
use bns_node.Chord
use bns_node.Chord.Correct.{pre_stabilize}
use bns_node.Message
use bns_node.Message.{
  Message, FindSuccessorSend, FindSuccessorThen, FindSuccessorReportHandler, new_for_stab,
}
use bns_node.Swarm.{Env, SwarmTransport, in_dht, disconnect, get_connections, WebrtcConnectionState}
use bns_node.Swarm.Send.{new_send, send_payload, send_direct_message}

abbrev pub for_fix : ℕ → FindSuccessorSend
for_fix did = record {
  did = did;
  strict = false;
  then_do = FindSuccessorThen.report FindSuccessorReportHandler.fix_finger_table;
}

abbrev pub is_gone : WebrtcConnectionState → Bool
is_gone WebrtcConnectionState.disconnected = true
is_gone WebrtcConnectionState.failed = true
is_gone WebrtcConnectionState.closed = true
is_gone _ = false

module _ {S T C : Type 0} (env : Env S T C) where
  -- A message for a node, sent to that node.
  unfoldable pub send_to : Message → ℕ → Effect (SwarmTransport S T) (Unit {0})
  send_to msg s = do payload ← new_send env msg s s; send_payload env payload

  -- The same message to each node, up to the first error.
  unfoldable pub send_all : Message → List ℕ → Effect (SwarmTransport S T) (Unit {0})
  send_all msg ss = for_each ss λ s. send_to msg s

  notify_from : ℕ → Effect (SwarmTransport S T) (Unit {0})
  unfolding send_all
  notify_from successor_min w =
      if not (w.dht.did == successor_min)
      then send_all (Message.notify_predecessor_send w.dht.did) w.dht.successor_seq.successors w
      else (w, ok tt)

  unfoldable pub notify_predecessor : Effect (SwarmTransport S T) (Unit {0})
  unfolding notify_from
  notify_predecessor = do
    successor_min ← asks λ w. Successor.min_succ w.dht.successor_seq
    notify_from successor_min

  -- Any other action is `unreachable!`.
  unfoldable pub fix_action : PeerRingAction → Effect (SwarmTransport S T) (Unit {0})
  fix_action none_action = pure tt
  fix_action (remote_action closest (RemoteAction.find_successor_for_fix did)) =
      send_to (Message.find_successor_send (for_fix did)) closest
  fix_action _ = lift panic

  unfoldable pub fix_fingers : Effect (SwarmTransport S T) (Unit {0})
  unfolding fix_action
  fix_fingers = do action ← in_dht Chord.fix_fingers; fix_action action

  query_next : PeerRingAction → Effect (SwarmTransport S T) (Unit {0})
  query_next (remote_action next RemoteAction.query_for_successor_list_and_pred) = do
    id ← send_direct_message env (Message.query_for_topo_info_send (new_for_stab next)) next
    pure tt
  query_next _ = pure tt

  unfoldable pub correct_stabilize : Effect (SwarmTransport S T) (Unit {0})
  unfolding query_next
  correct_stabilize = do action ← asks λ w. pre_stabilize w.dht; query_next action

  clean : ℕ × C → Effect (SwarmTransport S T) (Unit {0})
  clean (did, conn) w =
      if is_gone (env.net.connection_state w.transport conn)
      then disconnect env did w
      else (w, ok tt)

  unfoldable pub clean_unavailable_connections : Effect (SwarmTransport S T) (Unit {0})
  unfolding clean
  clean_unavailable_connections w = for_each (get_connections env w) clean w

  -- One round. Errors are logged.
  unfoldable pub stabilize : Effect (SwarmTransport S T) (Unit {0})
  unfolding notify_predecessor fix_fingers clean_unavailable_connections correct_stabilize
  stabilize = do
    notified ← attempt notify_predecessor
    fixed ← attempt fix_fingers
    cleaned ← attempt clean_unavailable_connections
    corrected ← attempt (if env.experimental then correct_stabilize else pure tt)
    pure tt
