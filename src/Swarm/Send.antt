-- ===== src/Swarm/Send.antt =====
-- `PayloadSender` of crates/core/src/message/payload.rs and its implementation in
-- crates/core/src/swarm/transport.rs: where a message goes next, and how it is sent.
use bns_node.Common.{
  ℕ, Option, none, some, List, ltb, length, if◌then◌else◌, Result, ok, err, panic, Error,
}
use bns_node.Effect.{Effect, ◌>>=◌, ◌>>◌, pure, lift, asks, or_fail, for_each}
use bns_node.Chunk
use bns_node.Chunk.{Chunk, ChunkMeta}
use bns_node.Verification.{default_ttl_ms}
use bns_node.Message.{Message}
use bns_node.Payload
use bns_node.Payload.{MessagePayload}
use bns_node.Relay
use bns_node.Relay.{MessageRelay}
use bns_node.Action.{PeerRingAction, some_did, remote_action}
use bns_node.Chord.{find_successor}
use bns_node.Swarm.{
  Env, SwarmTransport, in_transport, get_and_check_connection, prepare_connection_offer,
  is_connected,
}

abbrev pub transport_mtu : ℕ
transport_mtu = 60000

abbrev pub transport_max_size : ℕ
transport_max_size = 60000000

-- The node that an answer of `find_successor` names.
abbrev pub hop_of : Result PeerRingAction → Result ℕ
hop_of (ok (some_did did)) = ok did
hop_of (ok (remote_action did act)) = ok did
hop_of (ok _) = err Error.no_next_hop
hop_of (err e) = err e
hop_of panic = panic

module _ {S T C : Type 0} (env : Env S T C) where
  unfoldable pub infer_next_hop : SwarmTransport S T → ℕ → Option ℕ → Result ℕ
  infer_next_hop w destination next_hop =
      if is_connected env w destination
      then ok destination
      else elim next_hop [ some hop ↦ ok hop | none ↦ hop_of (find_successor w.dht destination) ]

  abbrev now : Effect (SwarmTransport S T) ℕ
  now w = (w, ok (env.net.get_epoch_ms w.transport))

  -- ChunkMeta::default
  unfoldable pub new_meta : Effect (SwarmTransport S T) ChunkMeta
  new_meta = do
    id ← in_transport λ t. env.net.new_uuid t
    ts_ms ← now
    pure (record { id = id; ts_ms = ts_ms; ttl_ms = default_ttl_ms })

  unfoldable pub send_data : C → List ℕ → Effect (SwarmTransport S T) (Unit {0})
  send_data conn bytes = in_transport λ t. env.net.send_message t conn bytes

  -- MessagePayload::new_send, with the node's session, a new uuid and the clock.
  unfoldable pub new_send : Message → ℕ → ℕ → Effect (SwarmTransport S T) MessagePayload
  new_send msg next_hop destination = do
    id ← in_transport λ t. env.net.new_uuid t
    ts_ms ← now
    asks λ w. Payload.new_send env.signers env.codec msg w.session_sk next_hop destination id ts_ms

  unfoldable pub send_chunk : C → ℕ → Chunk → Effect (SwarmTransport S T) (Unit {0})
  unfolding new_send send_data
  send_chunk conn did chunk = do
    payload ← new_send (Message.chunk chunk) did did
    bytes ← lift (Payload.to_bincode env.signers env.codec payload)
    send_data conn bytes

  unfoldable pub send_bytes : C → ℕ → List ℕ → Effect (SwarmTransport S T) (Unit {0})
  unfolding new_meta send_chunk send_data
  send_bytes conn did bytes =
      if ltb transport_max_size (length bytes)
      then lift (err Error.message_too_large)
      else if ltb transport_mtu (length bytes)
      then (do
        meta ← new_meta
        chunks ← lift (Chunk.from_bytes transport_mtu meta bytes)
        for_each chunks (send_chunk conn did))
      else send_data conn bytes

  unfoldable pub do_send_payload : ℕ → MessagePayload → Effect (SwarmTransport S T) (Unit {0})
  unfolding send_bytes
  do_send_payload did payload = do
    found ← get_and_check_connection env did
    conn ← or_fail found Error.swarm_miss_did_in_table
    bytes ← lift (Payload.to_bincode env.signers env.codec payload)
    send_bytes conn did bytes

  unfoldable pub send_payload : MessagePayload → Effect (SwarmTransport S T) (Unit {0})
  send_payload payload = do_send_payload payload.relay.next_hop payload

  -- The uuid is returned.
  unfoldable pub send_message_by_hop : Message → ℕ → ℕ → Effect (SwarmTransport S T) ℕ
  unfolding new_send send_payload
  send_message_by_hop msg destination next_hop = do
    payload ← new_send msg next_hop destination
    send_payload payload
    pure payload.transaction.tx_id

  unfoldable pub send_message : Message → ℕ → Effect (SwarmTransport S T) ℕ
  unfolding infer_next_hop
  send_message msg destination = do
    next_hop ← asks λ w. infer_next_hop w destination none
    send_message_by_hop msg destination next_hop

  unfoldable pub send_direct_message : Message → ℕ → Effect (SwarmTransport S T) ℕ
  send_direct_message msg destination = send_message_by_hop msg destination destination

  unfoldable pub send_report_message :
      MessagePayload → Message → Effect (SwarmTransport S T) (Unit {0})
  send_report_message ctx msg = do
    relay ← asks λ w. Relay.report ctx.relay w.dht.did
    ts_ms ← now
    transaction ← asks λ w.
        Payload.new_transaction env.signers env.codec relay.destination ctx.transaction.tx_id msg
          w.session_sk ts_ms
    payload ← λ w. (w, ok (Payload.new env.signers env.codec transaction w.session_sk relay ts_ms))
    send_payload payload

  unfoldable pub forward_by_relay :
      MessagePayload → MessageRelay → Effect (SwarmTransport S T) (Unit {0})
  forward_by_relay ctx relay = do
    ts_ms ← now
    payload ←
        λ w. (w, ok (Payload.new env.signers env.codec ctx.transaction w.session_sk relay ts_ms))
    send_payload payload

  unfoldable pub forward_payload :
      MessagePayload → Option ℕ → Effect (SwarmTransport S T) (Unit {0})
  unfolding infer_next_hop
  forward_payload ctx next_hop = do
    hop ← asks λ w. infer_next_hop w ctx.relay.destination next_hop
    relay ← asks λ w. Relay.forward ctx.relay w.dht.did hop
    forward_by_relay ctx relay

  unfoldable pub reset_destination : MessagePayload → ℕ → Effect (SwarmTransport S T) (Unit {0})
  reset_destination ctx next_hop = do
    relay ← asks λ w. Relay.forward (Relay.reset_destination ctx.relay next_hop) w.dht.did next_hop
    forward_by_relay ctx relay

  -- SwarmTransport::connect
  unfoldable pub connect : ℕ → Effect (SwarmTransport S T) (Unit {0})
  connect peer = do
    offer ← prepare_connection_offer env peer
    id ← send_message (Message.connect_node_send offer) peer
    pure tt
