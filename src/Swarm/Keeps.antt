-- ===== src/Swarm/Keeps.antt =====
-- What the transport never does to a node: connecting, disconnecting and sending keep whatever a
-- change of the transport alone, and the removal of a peer, keep.
use Prim.Native.String.{String}
use bns_node.Common.{ℕ, ◌≡◌, refl, Option, none, some, List, [], ◌∷◌, All, Result, ok, err, panic}
use bns_node.Effect.Keeps.{
  Keeps, test-Keeps, if-Keeps, same-Keeps, or_fail-Keeps, then-Keeps, attempt-Keeps, for_each-Keeps,
  here-Keeps,
}
use bns_node.Chord
use bns_node.Chord.{PeerRing}
use bns_node.Chunk.{Chunk}
use bns_node.Message.{Message, ConnectNodeSend, ConnectNodeReport}
use bns_node.Payload.{MessagePayload}
use bns_node.Relay.{MessageRelay}
use bns_node.Swarm.{
  Env, SwarmTransport, put_transport, put_changed, in_transport, change_dht, without_result,
  new_connection, disconnect, checked, check_connection, get_and_check_connection, refuse_connected,
  existing, prepare_connection_offer, settle_offers, answer_anew, answer_remote_connection,
  accept_remote_connection,
}
use bns_node.Swarm.Send.{
  new_meta, new_send, send_data, send_chunk, send_bytes, do_send_payload, send_payload,
  send_message_by_hop, send_message, send_direct_message, send_report_message, forward_by_relay,
  forward_payload, reset_destination, connect,
}

pub record IsApart {S T : Type 0} (Inv : SwarmTransport S T → Type 0) : Type 0 where
  pub moved : (w : SwarmTransport S T) (t : T) → Inv w → Inv (record w { transport = t })
  pub dropped :
      (w : SwarmTransport S T) (d : ℕ) (r : PeerRing S)
      → Inv w
      → Chord.remove w.dht d ≡ ok r
      → Inv (record w { dht = r })

module _ {S T C : Type 0} (env : Env S T C) {Inv : SwarmTransport S T → Type 0}
    (apart : IsApart Inv) where
  in_transport-Keeps : {A : Type 0} (f : T → T × Result A) → Keeps Inv (in_transport f)
  unfolding put_transport
  in_transport-Keeps f = record { keeps = λ w i. apart.moved w (f w.transport).0 i }

  pub removed-Keeps : (peer : ℕ) → Keeps Inv (change_dht λ r. without_result (Chord.remove r peer))
  unfolding put_changed
  removed-Keeps peer = record { keeps = λ w i. at w i (Chord.remove w.dht peer) refl }
    where
      at :
          (w : SwarmTransport S T)
          → Inv w
          → (r : Result (PeerRing S)) → Chord.remove w.dht peer ≡ r
          → Inv (put_changed w (without_result r)).0
      at w i (ok r) e = apart.dropped w peer r i e
      at w i (err x) e = i
      at w i panic e = i

  new_connection-Keeps : (peer : ℕ) → Keeps Inv (new_connection env peer)
  unfolding new_connection
  new_connection-Keeps peer =
      then-Keeps same-Keeps λ did. if-Keeps _ same-Keeps (in_transport-Keeps _)

  pub disconnect-Keeps : (peer : ℕ) → Keeps Inv (disconnect env peer)
  unfolding disconnect
  disconnect-Keeps peer = then-Keeps (removed-Keeps peer) λ u. in_transport-Keeps _

  checked-Keeps :
      (peer : ℕ) (conn : C) (r : Result (Unit {0})) → Keeps Inv (checked env peer conn r)
  unfolding checked
  checked-Keeps peer conn (ok u) = same-Keeps
  checked-Keeps peer conn (err e) =
      then-Keeps (attempt-Keeps (disconnect-Keeps peer)) λ r. same-Keeps
  checked-Keeps peer conn panic = same-Keeps

  check_connection-Keeps : (peer : ℕ) (o : Option C) → Keeps Inv (check_connection env peer o)
  unfolding check_connection
  check_connection-Keeps peer none = same-Keeps
  check_connection-Keeps peer (some conn) =
      then-Keeps (attempt-Keeps (in_transport-Keeps _)) λ r. checked-Keeps peer conn r

  pub get_and_check_connection-Keeps : (peer : ℕ) → Keeps Inv (get_and_check_connection env peer)
  unfolding get_and_check_connection
  get_and_check_connection-Keeps peer = here-Keeps λ w. check_connection-Keeps peer _

  refuse_connected-Keeps : (o : Option C) → Keeps Inv (refuse_connected env o)
  refuse_connected-Keeps none = same-Keeps
  refuse_connected-Keeps (some c) = same-Keeps

  existing-Keeps : (peer : ℕ) → Keeps Inv (existing env peer)
  unfolding existing
  existing-Keeps peer = here-Keeps λ w. or_fail-Keeps _ _

  pub prepare_connection_offer-Keeps : (peer : ℕ) → Keeps Inv (prepare_connection_offer env peer)
  unfolding prepare_connection_offer
  prepare_connection_offer-Keeps peer = then-Keeps (get_and_check_connection-Keeps peer) λ o.
      then-Keeps (refuse_connected-Keeps o) λ u. then-Keeps (new_connection-Keeps peer) λ v.
        then-Keeps (existing-Keeps peer) λ conn.
          then-Keeps (in_transport-Keeps _)
            λ offer. then-Keeps (or_fail-Keeps _ _) λ text. same-Keeps

  settle_offers-Keeps : (peer : ℕ) (o : Option C) → Keeps Inv (settle_offers env peer o)
  unfolding settle_offers
  settle_offers-Keeps peer none = same-Keeps
  settle_offers-Keeps peer (some conn) =
      test-Keeps _ (test-Keeps _ (disconnect-Keeps peer) same-Keeps)
        (then-Keeps (get_and_check_connection-Keeps peer) λ o. refuse_connected-Keeps o)

  answer_anew-Keeps : (peer : ℕ) (offer : String) → Keeps Inv (answer_anew env peer offer)
  unfolding answer_anew
  answer_anew-Keeps peer offer = then-Keeps (new_connection-Keeps peer) λ v.
      then-Keeps (existing-Keeps peer) λ conn.
        then-Keeps (in_transport-Keeps _)
          λ answer. then-Keeps (or_fail-Keeps _ _) λ text. same-Keeps

  pub answer_remote_connection-Keeps :
      (peer : ℕ) (msg : ConnectNodeSend) → Keeps Inv (answer_remote_connection env peer msg)
  unfolding answer_remote_connection
  answer_remote_connection-Keeps peer msg = then-Keeps (or_fail-Keeps _ _) λ offer.
      then-Keeps same-Keeps
        λ known. then-Keeps (settle_offers-Keeps peer known) λ u. answer_anew-Keeps peer offer

  pub accept_remote_connection-Keeps :
      (peer : ℕ) (msg : ConnectNodeReport) → Keeps Inv (accept_remote_connection env peer msg)
  unfolding accept_remote_connection
  accept_remote_connection-Keeps peer msg =
      then-Keeps (or_fail-Keeps _ _)
        λ answer. then-Keeps (existing-Keeps peer) λ conn. in_transport-Keeps _

  new_meta-Keeps : Keeps Inv (new_meta env)
  unfolding new_meta
  new_meta-Keeps = then-Keeps (in_transport-Keeps _) λ id. then-Keeps same-Keeps λ ts. same-Keeps

  pub new_send-Keeps :
      (msg : Message) (hop destination : ℕ) → Keeps Inv (new_send env msg hop destination)
  unfolding new_send
  new_send-Keeps msg hop destination =
      then-Keeps (in_transport-Keeps _) λ id. then-Keeps same-Keeps λ ts. same-Keeps

  send_chunk-Keeps :
      (conn : C) (did : ℕ) (chunk : Chunk) → Keeps Inv (send_chunk env conn did chunk)
  unfolding send_chunk send_data
  send_chunk-Keeps conn did chunk =
      then-Keeps (new_send-Keeps _ did did) λ p. then-Keeps same-Keeps λ bytes. in_transport-Keeps _

  send_bytes-Keeps :
      (conn : C) (did : ℕ) (bytes : List ℕ) → Keeps Inv (send_bytes env conn did bytes)
  unfolding send_bytes send_data
  send_bytes-Keeps conn did bytes = if-Keeps _ same-Keeps (
      if-Keeps _
        (then-Keeps new_meta-Keeps λ meta. then-Keeps same-Keeps λ chunks.
          for_each-Keeps (λ c. Unit {0}) _ chunks (λ c u. send_chunk-Keeps conn did c)
            (each chunks))
        (in_transport-Keeps _))
    where
      each : (chunks : List Chunk) → All (λ c. Unit {0}) chunks
      each [] = tt
      each (c ∷ cs) = (tt, each cs)

  pub send_payload-Keeps : (p : MessagePayload) → Keeps Inv (send_payload env p)
  unfolding send_payload do_send_payload
  send_payload-Keeps p = then-Keeps (get_and_check_connection-Keeps p.relay.next_hop) λ found.
      then-Keeps (or_fail-Keeps found _)
        λ conn. then-Keeps same-Keeps λ bytes. send_bytes-Keeps conn p.relay.next_hop bytes

  pub send_message_by_hop-Keeps :
      (msg : Message) (destination hop : ℕ)
      → Keeps Inv (send_message_by_hop env msg destination hop)
  unfolding send_message_by_hop
  send_message_by_hop-Keeps msg destination hop =
      then-Keeps (new_send-Keeps msg hop destination)
        λ p. then-Keeps (send_payload-Keeps p) λ u. same-Keeps

  pub send_message-Keeps :
      (msg : Message) (destination : ℕ) → Keeps Inv (send_message env msg destination)
  unfolding send_message
  send_message-Keeps msg destination =
      then-Keeps same-Keeps λ hop. send_message_by_hop-Keeps msg destination hop

  pub send_direct_message-Keeps :
      (msg : Message) (destination : ℕ) → Keeps Inv (send_direct_message env msg destination)
  unfolding send_direct_message
  send_direct_message-Keeps msg destination = send_message_by_hop-Keeps msg destination destination

  pub send_report_message-Keeps :
      (ctx : MessagePayload) (msg : Message) → Keeps Inv (send_report_message env ctx msg)
  unfolding send_report_message
  send_report_message-Keeps ctx msg = then-Keeps same-Keeps λ relay.
      then-Keeps same-Keeps
        λ ts. then-Keeps same-Keeps λ t. then-Keeps same-Keeps λ p. send_payload-Keeps p

  forward_by_relay-Keeps :
      (ctx : MessagePayload) (relay : MessageRelay) → Keeps Inv (forward_by_relay env ctx relay)
  unfolding forward_by_relay
  forward_by_relay-Keeps ctx relay =
      then-Keeps same-Keeps λ ts. then-Keeps same-Keeps λ p. send_payload-Keeps p

  pub forward_payload-Keeps :
      (ctx : MessagePayload) (hop : Option ℕ) → Keeps Inv (forward_payload env ctx hop)
  unfolding forward_payload
  forward_payload-Keeps ctx hop =
      then-Keeps same-Keeps λ h. then-Keeps same-Keeps λ relay. forward_by_relay-Keeps ctx relay

  pub reset_destination-Keeps :
      (ctx : MessagePayload) (hop : ℕ) → Keeps Inv (reset_destination env ctx hop)
  unfolding reset_destination
  reset_destination-Keeps ctx hop = then-Keeps same-Keeps λ relay. forward_by_relay-Keeps ctx relay

  pub connect-Keeps : (peer : ℕ) → Keeps Inv (connect env peer)
  unfolding connect
  connect-Keeps peer =
      then-Keeps (prepare_connection_offer-Keeps peer)
        λ offer. then-Keeps (send_message-Keeps _ peer) λ id. same-Keeps
