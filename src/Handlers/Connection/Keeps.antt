-- ===== src/Handlers/Connection/Keeps.antt =====
-- The handlers of messages for finding and connecting nodes keep a node well-formed.
use bns_node.Common.{ℕ, ◌≡◌, Option, some, none, List, [], ◌∷◌, All, Result, ok, err, panic}
use bns_node.Did.{IsDid}
use bns_node.Effect.Keeps.{Keeps, test-Keeps, same-Keeps, then-Keeps, here-Keeps, for_each-Keeps}
use bns_node.Action.{
  PeerRingAction, none_action, some_vnode, some_did, remote_action, multi_actions,
}
use bns_node.Chord.{PeerRing, find_successor}
use bns_node.Chord.Ring.{IsValid, IsPredecessor}
use bns_node.Chord.Correct.{TopoInfo, stabilize}
use bns_node.Chord.Correct.Total.{ok-IsValid, stabilize_ok}
use bns_node.Message.{
  ConnectNodeSend, ConnectNodeReport, FindSuccessorSend, FindSuccessorReport, FindSuccessorThen,
  FindSuccessorReportHandler, QueryForTopoInfoSend, QueryForTopoInfoReport, QueryFor,
}
use bns_node.Payload.{MessagePayload}
use bns_node.Swarm.{Env}
use bns_node.Swarm.Keeps.{
  prepare_connection_offer-Keeps, answer_remote_connection-Keeps, accept_remote_connection-Keeps,
  send_message-Keeps, send_report_message-Keeps, forward_payload-Keeps, reset_destination-Keeps,
}
use bns_node.Handlers.Keeps.{
  IsSound, IsSound-IsApart, change_dht-Keeps, handle_dht_events-Keeps, join_dht-Keeps,
}
use bns_node.Handlers.Connection.{
  handle_query_for_topo_info_send, answer_topo_info, handle_query_for_topo_info_report,
  handle_connect_node_send, handle_connect_node_report, report_successor, answer_find_successor,
  handle_find_successor_send, connect_found, report_found, handle_find_successor_report,
  handle_custom_message,
}

-- What a node tells of the ring is identifiers.
abbrev pub IsTopoInfo : TopoInfo → Type 0
IsTopoInfo info = All IsDid info.successors × IsPredecessor info.predecessor

module _ {S T C : Type 0} (env : Env S T C) where
  pub topo_info_send-Keeps :
      (ctx : MessagePayload) (msg : QueryForTopoInfoSend)
      → Keeps IsSound (handle_query_for_topo_info_send env ctx msg)
  unfolding handle_query_for_topo_info_send
  topo_info_send-Keeps ctx msg =
      test-Keeps _ (here-Keeps λ w. send_report_message-Keeps env IsSound-IsApart ctx _) same-Keeps

  stabilize-IsValid :
      (info : TopoInfo) (r t : PeerRing S) (a : PeerRingAction)
      → IsTopoInfo info
      → IsValid r
      → stabilize r info ≡ ok (t, a)
      → IsValid t
  unfolding stabilize
  stabilize-IsValid info r t a h v e = told info.successors info.predecessor h.0 h.1 e
    where
      told :
          (l : List ℕ) (o : Option ℕ)
          → All IsDid l
          → IsPredecessor o
          → stabilize r (record { successors = l; predecessor = o }) ≡ ok (t, a)
          → IsValid t
      told [] o hs ho q = absurd (cc)
      told (x ∷ xs) o hs ho q =
          let (s, b, run, sv) = stabilize_ok r x xs o hs ho v in ok-IsValid run sv q

  answer_topo_info-Keeps :
      (why : QueryFor) (info : TopoInfo)
      → IsTopoInfo info
      → Keeps IsSound (answer_topo_info env why info)
  unfolding answer_topo_info
  answer_topo_info-Keeps QueryFor.sync_successor info h =
      for_each-Keeps IsDid _ info.successors (λ d own. join_dht-Keeps env d own) h.0
  answer_topo_info-Keeps QueryFor.stabilization info h =
      then-Keeps
        (change_dht-Keeps env (λ r. stabilize r info)
          λ r t a v e. stabilize-IsValid info r t a h v e)
        λ ev. handle_dht_events-Keeps env ev

  pub topo_info_report-Keeps :
      (msg : QueryForTopoInfoReport)
      → IsTopoInfo msg.info
      → Keeps IsSound (handle_query_for_topo_info_report env msg)
  unfolding handle_query_for_topo_info_report
  topo_info_report-Keeps msg h = answer_topo_info-Keeps msg.then_do msg.info h

  pub connect_node_send-Keeps :
      (ctx : MessagePayload) (msg : ConnectNodeSend)
      → Keeps IsSound (handle_connect_node_send env ctx msg)
  unfolding handle_connect_node_send
  connect_node_send-Keeps ctx msg = test-Keeps _ same-Keeps (
      test-Keeps _ (forward_payload-Keeps env IsSound-IsApart ctx none) (
        then-Keeps same-Keeps λ peer.
          then-Keeps (answer_remote_connection-Keeps env IsSound-IsApart peer msg)
            λ answer. send_report_message-Keeps env IsSound-IsApart ctx _))

  pub connect_node_report-Keeps :
      (ctx : MessagePayload) (msg : ConnectNodeReport)
      → Keeps IsSound (handle_connect_node_report env ctx msg)
  unfolding handle_connect_node_report
  connect_node_report-Keeps ctx msg =
      test-Keeps _ (forward_payload-Keeps env IsSound-IsApart ctx none)
        (then-Keeps same-Keeps λ peer. accept_remote_connection-Keeps env IsSound-IsApart peer msg)

  report_successor-Keeps :
      (ctx : MessagePayload) (did : ℕ) (then_do : FindSuccessorThen)
      → Keeps IsSound (report_successor env ctx did then_do)
  unfolding report_successor
  report_successor-Keeps ctx did (FindSuccessorThen.report handler) =
      send_report_message-Keeps env IsSound-IsApart ctx _

  answer_find_successor-Keeps :
      (ctx : MessagePayload) (msg : FindSuccessorSend) (a : Result PeerRingAction)
      → Keeps IsSound (answer_find_successor env ctx msg a)
  unfolding answer_find_successor
  answer_find_successor-Keeps ctx msg (ok (some_did did)) =
      test-Keeps _ (report_successor-Keeps ctx did msg.then_do)
        (forward_payload-Keeps env IsSound-IsApart ctx (some did))
  answer_find_successor-Keeps ctx msg (ok (remote_action next act)) =
      reset_destination-Keeps env IsSound-IsApart ctx next
  answer_find_successor-Keeps ctx msg (ok none_action) = same-Keeps
  answer_find_successor-Keeps ctx msg (ok (some_vnode v)) = same-Keeps
  answer_find_successor-Keeps ctx msg (ok (multi_actions acts)) = same-Keeps
  answer_find_successor-Keeps ctx msg (err e) = same-Keeps
  answer_find_successor-Keeps ctx msg panic = same-Keeps

  pub find_successor_send-Keeps :
      (ctx : MessagePayload) (msg : FindSuccessorSend)
      → Keeps IsSound (handle_find_successor_send env ctx msg)
  unfolding handle_find_successor_send
  find_successor_send-Keeps ctx msg =
      here-Keeps λ w. answer_find_successor-Keeps ctx msg (find_successor w.dht msg.did)

  connect_found-Keeps : (did : ℕ) → Keeps IsSound (connect_found env did)
  unfolding connect_found
  connect_found-Keeps did =
      test-Keeps _
        (then-Keeps (prepare_connection_offer-Keeps env IsSound-IsApart did)
          λ offer. then-Keeps (send_message-Keeps env IsSound-IsApart _ did) λ id. same-Keeps)
        same-Keeps

  report_found-Keeps :
      (did : ℕ) (handler : FindSuccessorReportHandler)
      → Keeps IsSound (report_found env did handler)
  unfolding report_found
  report_found-Keeps did FindSuccessorReportHandler.fix_finger_table = connect_found-Keeps did
  report_found-Keeps did FindSuccessorReportHandler.connect = connect_found-Keeps did
  report_found-Keeps did _ = same-Keeps

  pub find_successor_report-Keeps :
      (ctx : MessagePayload) (msg : FindSuccessorReport)
      → Keeps IsSound (handle_find_successor_report env ctx msg)
  unfolding handle_find_successor_report
  find_successor_report-Keeps ctx msg =
      test-Keeps _ (forward_payload-Keeps env IsSound-IsApart ctx none)
        (report_found-Keeps msg.did msg.handler)

  pub custom_message-Keeps : (ctx : MessagePayload) → Keeps IsSound (handle_custom_message env ctx)
  unfolding handle_custom_message
  custom_message-Keeps ctx =
      test-Keeps _ (forward_payload-Keeps env IsSound-IsApart ctx none) same-Keeps
