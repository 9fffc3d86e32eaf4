-- ===== src/Facade/Request.antt =====
-- What an application and the timers ask of a node: the operations of crates/core/src/swarm/mod.rs,
-- those on virtual nodes of crates/core/src/message/handlers, and a round of
-- crates/core/src/dht/stabilization.rs.
use Prim.Native.String.{String}
use bns_node.Common.{ℕ}
use bns_node.Effect.{Effect, discard}
use bns_node.Effect.Keeps.{Keeps, if-Keeps, same-Keeps, then-Keeps, here-Keeps}
use bns_node.VNode.{VirtualNode}
use bns_node.Message.{Message}
use bns_node.Payload.{MessagePayload}
use bns_node.Swarm.{Env, SwarmTransport}
use bns_node.Swarm.Send.{send_message}
use bns_node.Swarm.Keeps.{
  disconnect-Keeps, connect-Keeps, prepare_connection_offer-Keeps, answer_remote_connection-Keeps,
  accept_remote_connection-Keeps, new_send-Keeps, send_message-Keeps,
}
use bns_node.Handlers.Keeps.{IsSound, IsSound-IsApart}
use bns_node.Handlers.Vnodes.{
  storage_fetch, storage_store, storage_append_data, storage_touch_data, subring_join,
}
use bns_node.Handlers.Vnodes.Keeps.{operate_and_store-Keeps, storage_fetch-Keeps}
use bns_node.Stabilizer.{stabilize}
use bns_node.Stabilizer.Keeps.{stabilize-Keeps}
use bns_node.Facade.{connect, disconnect, create_offer, answer_offer, accept_answer, check_signed}

pub data Request : Type 0 where
  fetching : ℕ → ℕ → Request
  storing : ℕ → VirtualNode → Request
  appending touching : ℕ → String → String → Request
  joining_subring : ℕ → String → Request
  connecting disconnecting offering : ℕ → Request
  sending : Message → ℕ → Request
  answering accepting : MessagePayload → Request
  stabilizing : Request

module _ {S T C : Type 0} (env : Env S T C) where
  -- What the caller is given back is left out.
  unfoldable pub perform : Request → Effect (SwarmTransport S T) (Unit {0})
  perform (Request.fetching redundant vid) = storage_fetch env redundant vid
  perform (Request.storing redundant v) = storage_store env redundant v
  perform (Request.appending redundant topic e) = storage_append_data env redundant topic e
  perform (Request.touching redundant topic e) = storage_touch_data env redundant topic e
  perform (Request.joining_subring redundant name) = subring_join env redundant name
  perform (Request.connecting peer) = connect env peer
  perform (Request.disconnecting peer) = disconnect env peer
  perform (Request.offering peer) = discard (create_offer env peer)
  perform (Request.sending msg did) = discard (send_message env msg did)
  perform (Request.answering p) = discard (answer_offer env p)
  perform (Request.accepting p) = accept_answer env p
  perform Request.stabilizing = stabilize env

  check_signed-Keeps : (p : MessagePayload) → Keeps IsSound (check_signed env p)
  check_signed-Keeps p = then-Keeps same-Keeps λ good. if-Keeps _ same-Keeps same-Keeps

  answer_offer-Keeps : (p : MessagePayload) → Keeps IsSound (answer_offer env p)
  unfolding answer_offer
  answer_offer-Keeps p = then-Keeps (check_signed-Keeps p) λ u. then-Keeps same-Keeps λ m.
      then-Keeps same-Keeps λ msg.
        then-Keeps (answer_remote_connection-Keeps env IsSound-IsApart _ msg)
          λ answer. then-Keeps same-Keeps λ did. new_send-Keeps env IsSound-IsApart _ did did

  pub perform-Keeps : (q : Request) → Keeps IsSound (perform q)
  unfolding perform storage_store storage_append_data storage_touch_data subring_join connect
      disconnect create_offer accept_answer
  perform-Keeps (Request.fetching redundant vid) = storage_fetch-Keeps env redundant vid
  perform-Keeps (Request.storing redundant v) = operate_and_store-Keeps env redundant _
  perform-Keeps (Request.appending redundant topic e) =
      then-Keeps same-Keeps λ v. operate_and_store-Keeps env redundant _
  perform-Keeps (Request.touching redundant topic e) =
      then-Keeps same-Keeps λ v. operate_and_store-Keeps env redundant _
  perform-Keeps (Request.joining_subring redundant name) =
      here-Keeps λ w. operate_and_store-Keeps env redundant _
  perform-Keeps (Request.connecting peer) =
      then-Keeps same-Keeps λ did. if-Keeps _ same-Keeps (connect-Keeps env IsSound-IsApart peer)
  perform-Keeps (Request.disconnecting peer) = disconnect-Keeps env IsSound-IsApart peer
  perform-Keeps (Request.offering peer) =
      then-Keeps
        (then-Keeps (prepare_connection_offer-Keeps env IsSound-IsApart peer)
          λ offer. then-Keeps same-Keeps λ did. new_send-Keeps env IsSound-IsApart _ did peer)
        λ p. same-Keeps
  perform-Keeps (Request.sending msg did) =
      then-Keeps (send_message-Keeps env IsSound-IsApart msg did) λ id. same-Keeps
  perform-Keeps (Request.answering p) = then-Keeps (answer_offer-Keeps p) λ q. same-Keeps
  perform-Keeps (Request.accepting p) = then-Keeps (check_signed-Keeps p) λ u.
      then-Keeps same-Keeps
        λ m. then-Keeps same-Keeps λ msg. accept_remote_connection-Keeps env IsSound-IsApart _ msg
  perform-Keeps Request.stabilizing = stabilize-Keeps env
