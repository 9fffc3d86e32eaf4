-- ===== src/Examples/Offers.antt =====
-- Tests of offers and answers.
use Prim.Native.String.{String}
use bns_node.Common.{◌≡◌, refl, ◌⊎◌, true, some, ok, err, Error, [], ◌∷◌, arith}
use bns_node.Effect.{◌>>=◌, ◌>>◌}
use bns_node.Session
use bns_node.Verification
use bns_node.Verification.{MessageVerification}
use bns_node.Message.{Message, ConnectNodeSend}
use bns_node.Payload.{MessagePayload, message_of, verify_payload}
use bns_node.Swarm.{
  Env, SwarmTransport, own_did, get_connection, disconnect, answer_anew, answer_remote_connection,
  WebrtcConnectionState,
}
use bns_node.Swarm.Send.{new_send}
use bns_node.Facade.{signed, answer_offer}
use bns_node.Facade.Offer.{forged, answer_offer-forged, answer_remote_connection_once}
use bns_node.Examples.Texts.{spell}
use bns_node.Examples.{Store, node}
use bns_node.Examples.World.{Outbox, codec, env, net, payload, seal, swarm}

abbrev offer : ConnectNodeSend
offer = record { sdp = "offer"; network_id = 1 }

-- Whatever is read is an offer.
abbrev offering : Env Store Outbox String
offering = record env {
  codec = record codec { deserialize = λ bytes. some (Message.connect_node_send offer) };
}

abbrev offered : MessagePayload
offered = payload (1 ∷ [])

-- Without a signature.
abbrev unsigned : MessageVerification
unsigned = record seal { sig = [] }

offered_signed : signed offering swarm offered ≡ ok true
unfolding verify_payload Verification.verify_ext Verification.is_expired Verification.verify
    Session.verify Session.verify_self Session.is_expired Session.add_u128 Session.signed_by
offered_signed = refl

answer_offer-forged_example :
    answer_offer offering (forged offered unsigned) swarm
    ≡ (do
      answer ←
          answer_remote_connection offering (Verification.signer offering.signers unsigned) offer
      did ← own_did
      new_send offering (Message.connect_node_report answer) did did)
        swarm
answer_offer-forged_example =
    answer_offer-forged offering offered offer unsigned swarm offered_signed
      (unfold message_of in refl)

-- Every connection is a new one.
abbrev fresh : Env Store Outbox String
fresh = record env {
  net = record net {
    connection = λ t cid. some cid;
    connection_state = λ t conn. WebrtcConnectionState.new;
  };
}

abbrev peer : SwarmTransport Store Outbox
peer = record swarm { dht = record node { did = 20 } }

answer_remote_connection_once_example :
    ((answer_remote_connection fresh peer.dht.did offer swarm
        ≡ (swarm, err Error.already_connected))
      × (answer_remote_connection fresh swarm.dht.did offer peer
          ≡ (disconnect fresh swarm.dht.did >> answer_anew fresh swarm.dht.did "offer") peer))
    ⊎ ((answer_remote_connection fresh peer.dht.did offer swarm
          ≡ (disconnect fresh peer.dht.did >> answer_anew fresh peer.dht.did "offer") swarm)
        × (answer_remote_connection fresh swarm.dht.did offer peer
            ≡ (peer, err Error.already_connected)))
answer_remote_connection_once_example =
    answer_remote_connection_once fresh swarm peer (spell 160 20) (spell 160 10) offer offer "offer"
      "offer" (omega arith) (unfold get_connection in refl) (unfold get_connection in refl) refl
      refl refl refl
