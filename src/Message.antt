-- ===== src/Message.antt =====
-- crates/core/src/message/types.rs: the messages between nodes.
use Prim.Native.String.{String}
use bns_node.Common.{ℕ, Bool, List, Result, ok}
use bns_node.VNode.{VirtualNode, VNodeOperation}
use bns_node.Chord.Correct.{TopoInfo}
use bns_node.Chunk.{Chunk}

pub record ConnectNodeSend : Type 0 where
  pub sdp : String
  pub network_id : ℕ

pub record ConnectNodeReport : Type 0 where
  pub sdp : String

pub data FindSuccessorReportHandler : Type 0 where
  none_handler connect fix_finger_table : FindSuccessorReportHandler
  custom_callback : ℕ → FindSuccessorReportHandler

pub data FindSuccessorThen : Type 0 where
  report : FindSuccessorReportHandler → FindSuccessorThen

pub record FindSuccessorSend : Type 0 where
  pub did : ℕ
  pub strict : Bool
  pub then_do : FindSuccessorThen

pub record FindSuccessorReport : Type 0 where
  pub did : ℕ
  pub handler : FindSuccessorReportHandler

pub data QueryFor : Type 0 where
  sync_successor stabilization : QueryFor

pub record QueryForTopoInfoSend : Type 0 where
  pub did : ℕ
  pub then_do : QueryFor

pub record QueryForTopoInfoReport : Type 0 where
  pub info : TopoInfo
  pub then_do : QueryFor

-- The structs of one field are that field.
pub data Message : Type 0 where
  connect_node_send : ConnectNodeSend → Message
  connect_node_report : ConnectNodeReport → Message
  find_successor_send : FindSuccessorSend → Message
  find_successor_report : FindSuccessorReport → Message
  notify_predecessor_send notify_predecessor_report search_vnode : ℕ → Message
  found_vnode : List VirtualNode → Message
  operate_vnode : VNodeOperation → Message
  sync_vnode_with_successor : List VirtualNode → Message
  custom_message : List ℕ → Message
  query_for_topo_info_send : QueryForTopoInfoSend → Message
  query_for_topo_info_report : QueryForTopoInfoReport → Message
  chunk : Chunk → Message

abbrev pub new_for_sync : ℕ → QueryForTopoInfoSend
new_for_sync did = record { did = did; then_do = QueryFor.sync_successor }

abbrev pub new_for_stab : ℕ → QueryForTopoInfoSend
new_for_stab did = record { did = did; then_do = QueryFor.stabilization }

abbrev pub resp : QueryForTopoInfoSend → TopoInfo → QueryForTopoInfoReport
resp q info = record { info = info; then_do = q.then_do }

abbrev pub custom : List ℕ → Result Message
custom msg = ok (custom_message msg)
