-- ===== src/Facade/Offer.antt =====
-- How two nodes come to a connection by offers and answers.
use Prim.Native.String.{String}
use bns_node.Common.{
  ℕ, ◌≡◌, ◌≢◌, refl, inl, inr, ◌⊎◌, true, false, some, ltb, Bool-cases, ok, err, Error, arith,
}
use bns_node.Effect.{continue, ◌>>=◌, ◌>>◌}
use bns_node.Verification
use bns_node.Verification.{MessageVerification}
use bns_node.Message.{Message, ConnectNodeSend}
use bns_node.Payload.{MessagePayload, message_of, verify_payload}
use bns_node.Swarm.{
  Env, SwarmTransport, own_did, get_connection, disconnect, settle_offers, answer_anew,
  answer_remote_connection, is_new,
}
use bns_node.Swarm.Send.{new_send}
use bns_node.Facade.{signed, answer_offer}

-- A payload whose transaction carries another verification.
abbrev pub forged : MessagePayload → MessageVerification → MessagePayload
forged p v = record p { transaction = record p.transaction { verification = v } }

module _ {S T C : Type 0} (env : Env S T C) where
  -- If a payload with an offer verifies, then so it does with any verification at all in its
  -- transaction, signed or not: the offer is answered on a connection to the peer that this
  -- verification names.
  pub answer_offer-forged :
      (p : MessagePayload) (msg : ConnectNodeSend) (v : MessageVerification)
      (w : SwarmTransport S T)
      → signed env w p ≡ ok true
      → message_of env.signers env.codec p.transaction ≡ ok (Message.connect_node_send msg)
      → answer_offer env (forged p v) w
        ≡ (do
          answer ← answer_remote_connection env (Verification.signer env.signers v) msg
          did ← own_did
          new_send env (Message.connect_node_report answer) did did)
            w
  unfolding answer_offer verify_payload message_of continue
  answer_offer-forged p msg v w good read = rw (good, read) refl

  gives_way :
      (w : SwarmTransport S T) (peer : ℕ) (c : C) (msg : ConnectNodeSend) (offer : String)
      → get_connection env w peer ≡ some c
      → is_new (env.net.connection_state w.transport c) ≡ true
      → env.codec.sdp_from_json msg.sdp ≡ some offer
      → ltb peer w.dht.did ≡ true
      → answer_remote_connection env peer msg w
        ≡ (disconnect env peer >> answer_anew env peer offer) w
  unfolding answer_remote_connection settle_offers continue
  gives_way w peer c msg offer known fresh read less = rw (read, known, fresh, less) refl

  stands :
      (w : SwarmTransport S T) (peer : ℕ) (c : C) (msg : ConnectNodeSend) (offer : String)
      → get_connection env w peer ≡ some c
      → is_new (env.net.connection_state w.transport c) ≡ true
      → env.codec.sdp_from_json msg.sdp ≡ some offer
      → ltb peer w.dht.did ≡ false
      → answer_remote_connection env peer msg w ≡ (w, err Error.already_connected)
  unfolding answer_remote_connection settle_offers continue
  stands w peer c msg offer known fresh read more = rw (read, known, fresh, more) refl

  -- When two different nodes have each made the other an offer that can be read, on connections that
  -- are still new, one of them refuses the other's offer and changes nothing, and the other one gives
  -- up its own offer and answers on a new connection: never both, and never neither.
  pub answer_remote_connection_once :
      (v w : SwarmTransport S T) (c d : C) (m n : ConnectNodeSend) (a b : String)
      → v.dht.did ≢ w.dht.did
      → get_connection env v w.dht.did ≡ some c
      → get_connection env w v.dht.did ≡ some d
      → is_new (env.net.connection_state v.transport c) ≡ true
      → is_new (env.net.connection_state w.transport d) ≡ true
      → env.codec.sdp_from_json m.sdp ≡ some a
      → env.codec.sdp_from_json n.sdp ≡ some b
      → ((answer_remote_connection env w.dht.did m v ≡ (v, err Error.already_connected))
          × (answer_remote_connection env v.dht.did n w
              ≡ (disconnect env v.dht.did >> answer_anew env v.dht.did b) w))
        ⊎ ((answer_remote_connection env w.dht.did m v
              ≡ (disconnect env w.dht.did >> answer_anew env w.dht.did a) v)
            × (answer_remote_connection env v.dht.did n w ≡ (w, err Error.already_connected)))
  answer_remote_connection_once v w c d m n a b ne kv kw fv fw rm rn =
      elim (Bool-cases (ltb v.dht.did w.dht.did)) [
        | inl less ↦ inl (
          stands v w.dht.did c m a kv fv rm (ground arith),
          gives_way w v.dht.did d n b kw fw rn less,
        )
        | inr more ↦ inr (
          gives_way v w.dht.did c m a kv fv rm (ground arith),
          stands w v.dht.did d n b kw fw rn more,
        )
      ]
