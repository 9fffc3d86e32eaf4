-- ===== src/Facade.antt =====
-- What a node offers to its application, from crates/core/src/swarm/mod.rs.
pub mod Offer
pub mod Request
use bns_node.Common.{
  ℕ, Bool, true, false, not, ◌==◌, if◌then◌else◌, List, [], ◌∷◌, Result, ok, err, panic, Error,
}
use bns_node.Effect.{Effect, continue, ◌>>=◌, ◌>>◌, pure, lift, asks, fail}
use bns_node.Verification
use bns_node.Message
use bns_node.Message.{Message, ConnectNodeSend, ConnectNodeReport}
use bns_node.Payload.{MessagePayload, message_of, verify_payload}
use bns_node.Swarm as Transport
use bns_node.Swarm.{
  Env, SwarmTransport, own_did, prepare_connection_offer, answer_remote_connection,
  accept_remote_connection,
}
use bns_node.Swarm.Send as Send
use bns_node.Swarm.Send.{new_send}

module _ {S T C : Type 0} (env : Env S T C) where
  unfoldable pub connect : ℕ → Effect (SwarmTransport S T) (Unit {0})
  connect peer = do
    did ← own_did
    if peer == did then fail Error.should_not_connect_self else Send.connect env peer

  unfoldable pub disconnect : ℕ → Effect (SwarmTransport S T) (Unit {0})
  disconnect peer = Transport.disconnect env peer

  -- The hop is not a real one: the caller sends the payload by other means.
  unfoldable pub create_offer : ℕ → Effect (SwarmTransport S T) MessagePayload
  create_offer peer = do
    offer ← prepare_connection_offer env peer
    did ← own_did
    new_send env (Message.connect_node_send offer) did peer

  -- `payload.verify()`, by the transport's clock.
  abbrev pub signed : SwarmTransport S T → MessagePayload → Result Bool
  signed w p = verify_payload env.ext env.signers p (env.net.get_epoch_ms w.transport)

  abbrev pub check_signed : MessagePayload → Effect (SwarmTransport S T) (Unit {0})
  check_signed p = do
    good ← asks λ w. signed w p
    if not good then fail Error.verify_signature_failed else pure tt

  abbrev pub offer_of : Message → Result ConnectNodeSend
  offer_of (Message.connect_node_send msg) = ok msg
  offer_of _ = err Error.invalid_message

  abbrev pub answer_of : Message → Result ConnectNodeReport
  answer_of (Message.connect_node_report msg) = ok msg
  answer_of _ = err Error.invalid_message

  -- The one who has signed the transaction.
  abbrev pub peer_of : MessagePayload → ℕ
  peer_of p = Verification.signer env.signers p.transaction.verification

  unfoldable pub answer_offer : MessagePayload → Effect (SwarmTransport S T) MessagePayload
  answer_offer p = do
    check_signed p
    data_message ← lift (message_of env.signers env.codec p.transaction)
    msg ← lift (offer_of data_message)
    answer ← answer_remote_connection env (peer_of p) msg
    did ← own_did
    new_send env (Message.connect_node_report answer) did did

  unfoldable pub accept_answer : MessagePayload → Effect (SwarmTransport S T) (Unit {0})
  accept_answer p = do
    check_signed p
    data_message ← lift (message_of env.signers env.codec p.transaction)
    msg ← lift (answer_of data_message)
    accept_remote_connection env (peer_of p) msg
