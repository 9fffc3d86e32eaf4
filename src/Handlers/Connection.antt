-- ===== src/Handlers/Connection.antt =====
-- crates/core/src/message/handlers/connection.rs and custom.rs: the messages by which nodes find
-- each other and connect.
pub mod Keeps
use bns_node.Common.{
  ℕ, Bool, true, false, not, ◌||◌, some, none, Option, List, [], ◌∷◌, ◌==◌, if◌then◌else◌, Result,
  ok, err, panic, Error,
}
use bns_node.Effect.{Effect, ◌>>=◌, ◌>>◌, pure, lift, fail, for_each}
use bns_node.Message
use bns_node.Message.{
  Message, ConnectNodeSend, ConnectNodeReport, FindSuccessorSend, FindSuccessorReport,
  FindSuccessorThen, FindSuccessorReportHandler, QueryForTopoInfoSend, QueryForTopoInfoReport,
  QueryFor, resp,
}
use bns_node.Payload.{MessagePayload}
use bns_node.Relay.{origin_sender}
use bns_node.Action.{PeerRingAction, some_did, remote_action}
use bns_node.Chord.{find_successor}
use bns_node.Chord.Correct.{TopoInfo, topo_info, stabilize}
use bns_node.Swarm.{
  Env, SwarmTransport, change_dht, answer_remote_connection, accept_remote_connection,
  prepare_connection_offer,
}
use bns_node.Swarm.Send.{
  send_message, send_report_message, forward_payload, reset_destination, connect,
}
use bns_node.Handlers.{join_dht, handle_dht_events}

module _ {S T C : Type 0} (env : Env S T C) where
  unfoldable pub handle_query_for_topo_info_send :
      MessagePayload → QueryForTopoInfoSend → Effect (SwarmTransport S T) (Unit {0})
  handle_query_for_topo_info_send ctx msg w =
      if msg.did == w.dht.did
      then send_report_message env ctx
          (Message.query_for_topo_info_report (resp msg (topo_info w.dht))) w
      else (w, ok tt)

  unfoldable pub answer_topo_info : QueryFor → TopoInfo → Effect (SwarmTransport S T) (Unit {0})
  answer_topo_info QueryFor.sync_successor info = for_each info.successors λ peer. join_dht env peer
  answer_topo_info QueryFor.stabilization info = do
    ev ← change_dht λ r. stabilize r info
    handle_dht_events env ev

  unfoldable pub handle_query_for_topo_info_report :
      QueryForTopoInfoReport → Effect (SwarmTransport S T) (Unit {0})
  unfolding answer_topo_info
  handle_query_for_topo_info_report msg = answer_topo_info msg.then_do msg.info

  unfoldable pub handle_connect_node_send :
      MessagePayload → ConnectNodeSend → Effect (SwarmTransport S T) (Unit {0})
  handle_connect_node_send ctx msg w =
      if not (msg.network_id == w.network_id)
      then (w, ok tt)
      else if not (w.dht.did == ctx.relay.destination)
      then forward_payload env ctx none w
      else (do
        peer ← lift (origin_sender ctx.relay)
        answer ← answer_remote_connection env peer msg
        send_report_message env ctx (Message.connect_node_report answer))
          w

  unfoldable pub handle_connect_node_report :
      MessagePayload → ConnectNodeReport → Effect (SwarmTransport S T) (Unit {0})
  handle_connect_node_report ctx msg w =
      if not (w.dht.did == ctx.relay.destination)
      then forward_payload env ctx none w
      else (do peer ← lift (origin_sender ctx.relay); accept_remote_connection env peer msg) w

  unfoldable pub report_successor :
      MessagePayload → ℕ → FindSuccessorThen → Effect (SwarmTransport S T) (Unit {0})
  report_successor ctx did (FindSuccessorThen.report handler) =
      send_report_message env ctx
        (Message.find_successor_report (record { did = did; handler = handler }))

  unfoldable pub answer_find_successor :
      MessagePayload
      → FindSuccessorSend
      → Result PeerRingAction
      → Effect (SwarmTransport S T) (Unit {0})
  unfolding report_successor
  answer_find_successor ctx msg (ok (some_did did)) w =
      if not msg.strict || w.dht.did == msg.did
      then report_successor ctx did msg.then_do w
      else forward_payload env ctx (some did) w
  answer_find_successor ctx msg (ok (remote_action next act)) w = reset_destination env ctx next w
  answer_find_successor ctx msg (ok _) w = (w, err Error.peer_ring_unexpected_action)
  answer_find_successor ctx msg (err e) w = (w, err e)
  answer_find_successor ctx msg panic w = (w, panic)

  unfoldable pub handle_find_successor_send :
      MessagePayload → FindSuccessorSend → Effect (SwarmTransport S T) (Unit {0})
  unfolding answer_find_successor
  handle_find_successor_send ctx msg w =
      answer_find_successor ctx msg (find_successor w.dht msg.did) w

  unfoldable pub connect_found : ℕ → Effect (SwarmTransport S T) (Unit {0})
  connect_found did w =
      if not (did == w.dht.did)
      then (do
        offer ← prepare_connection_offer env did
        id ← send_message env (Message.connect_node_send offer) did
        pure tt)
          w
      else (w, ok tt)

  unfoldable pub report_found :
      ℕ → FindSuccessorReportHandler → Effect (SwarmTransport S T) (Unit {0})
  unfolding connect_found
  report_found did FindSuccessorReportHandler.fix_finger_table = connect_found did
  report_found did FindSuccessorReportHandler.connect = connect_found did
  report_found did _ = pure tt

  unfoldable pub handle_find_successor_report :
      MessagePayload → FindSuccessorReport → Effect (SwarmTransport S T) (Unit {0})
  unfolding report_found
  handle_find_successor_report ctx msg w =
      if not (w.dht.did == ctx.relay.destination)
      then forward_payload env ctx none w
      else report_found msg.did msg.handler w

  -- CustomMessage
  unfoldable pub handle_custom_message : MessagePayload → Effect (SwarmTransport S T) (Unit {0})
  handle_custom_message ctx w =
      if not (w.dht.did == ctx.relay.destination)
      then forward_payload env ctx none w
      else (w, ok tt)
