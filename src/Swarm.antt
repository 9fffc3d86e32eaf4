-- ===== src/Swarm.antt =====
-- crates/core/src/swarm/transport.rs: the connections of a node, beside its part of the ring. The
-- transport (crates/transport) is a parameter over its states `T` and its connections `C`, with the
-- clock and the uuids; the callbacks that are handed to it are not modelled. Its errors, of whatever
-- cause, are `transport_failed`.
pub mod Send
pub mod Hops
pub mod Keeps
use Prim.Native.String.{String}
use bns_node.Common.{
  ℕ, Bool, true, false, Option, none, some, List, [], ◌∷◌, ltb, ◌==◌, if◌then◌else◌, Result, ok,
  err, panic, Error,
}
use bns_node.Effect.{Effect, ◌>>=◌, ◌>>◌, pure, asks, fail, or_fail, attempt}
use bns_node.Subring.{External}
use bns_node.VNode.{VirtualNode}
use bns_node.Storage.{KvStorage}
use bns_node.Session.{SessionSk, Signers}
use bns_node.Message.{ConnectNodeSend, ConnectNodeReport}
use bns_node.Payload.{Codec}
use bns_node.Chord
use bns_node.Chord.{PeerRing}

pub data WebrtcConnectionState : Type 0 where
  unspecified new connecting connected disconnected failed closed : WebrtcConnectionState

abbrev pub is_new : WebrtcConnectionState → Bool
is_new new = true
is_new _ = false

abbrev pub is_open : WebrtcConnectionState → Bool
is_open connected = true
is_open _ = false

pub record TransportInterface (T C : Type 0) : Type 0 where
  pub new_connection : T → String → T × Result (Unit {0})
  pub connection : T → String → Option C
  pub connections : T → List (String × C)
  pub close_connection : T → String → T × Result (Unit {0})
  pub wait_for_data_channel_open : T → C → T × Result (Unit {0})
  pub connection_state : T → C → WebrtcConnectionState
  pub create_offer : T → C → T × Result String
  pub answer_offer : T → C → String → T × Result String
  pub accept_answer : T → C → String → T × Result (Unit {0})
  pub send_message : T → C → List ℕ → T × Result (Unit {0})
  pub get_epoch_ms : T → ℕ
  pub new_uuid : T → T × Result ℕ

-- All that the node takes from elsewhere, and whether the feature `experimental` is on.
pub record Env (S T C : Type 0) : Type 0 where
  pub ext : External
  pub signers : Signers
  pub codec : Codec
  pub net : TransportInterface T C
  pub kv : KvStorage VirtualNode S
  pub experimental : Bool

pub record SwarmTransport (S T : Type 0) : Type 0 where
  pub network_id : ℕ
  pub transport : T
  pub session_sk : SessionSk
  pub dht : PeerRing S

module _ {S T : Type 0} where
  unfoldable pub put_transport :
      {A : Type 0} → SwarmTransport S T → T × Result A → SwarmTransport S T × Result A
  put_transport w (t, a) = (record w { transport = t }, a)

  unfoldable pub put_dht :
      {A : Type 0} → SwarmTransport S T → PeerRing S × Result A → SwarmTransport S T × Result A
  put_dht w (r, a) = (record w { dht = r }, a)

  unfoldable pub put_changed :
      {A : Type 0} → SwarmTransport S T → Result (PeerRing S × A) → SwarmTransport S T × Result A
  put_changed w (ok (r, a)) = (record w { dht = r }, ok a)
  put_changed w (err e) = (w, err e)
  put_changed w panic = (w, panic)

  abbrev pub in_transport : {A : Type 0} → (T → T × Result A) → Effect (SwarmTransport S T) A
  in_transport f w = put_transport w (f w.transport)

  -- An operation of the node that returns the node beside its result.
  abbrev pub in_dht :
      {A : Type 0} → (PeerRing S → PeerRing S × Result A) → Effect (SwarmTransport S T) A
  in_dht f w = put_dht w (f w.dht)

  -- An operation of the node that leaves it alone when it fails.
  abbrev pub change_dht :
      {A : Type 0} → (PeerRing S → Result (PeerRing S × A)) → Effect (SwarmTransport S T) A
  change_dht f w = put_changed w (f w.dht)

  abbrev pub own_did : Effect (SwarmTransport S T) ℕ
  own_did w = (w, ok w.dht.did)

abbrev pub without_result : {S : Type 0} → Result (PeerRing S) → Result (PeerRing S × Unit {0})
without_result (ok r) = ok (r, tt)
without_result (err e) = err e
without_result panic = panic

module _ {S T C : Type 0} (env : Env S T C) where
  unfoldable pub new_connection : ℕ → Effect (SwarmTransport S T) (Unit {0})
  new_connection peer = do
    did ← own_did
    if peer == did
        then pure tt
        else in_transport λ t. env.net.new_connection t (env.ext.did_to_string peer)

  unfoldable pub get_connection : SwarmTransport S T → ℕ → Option C
  get_connection w peer = env.net.connection w.transport (env.ext.did_to_string peer)

  -- The connections whose ids are identifiers.
  by_did : List (String × C) → List (ℕ × C)
  by_did [] = []
  by_did ((cid, conn) ∷ cs) =
      let rest = by_did cs in
      elim (env.ext.did_from_str cid) [ none ↦ rest | some did ↦ (did, conn) ∷ rest ]

  unfoldable pub get_connections : SwarmTransport S T → List (ℕ × C)
  unfolding by_did
  get_connections w = by_did (env.net.connections w.transport)

  unfoldable pub disconnect : ℕ → Effect (SwarmTransport S T) (Unit {0})
  disconnect peer = do
    change_dht λ r. without_result (Chord.remove r peer)
    in_transport λ t. env.net.close_connection t (env.ext.did_to_string peer)

  -- A connection whose channel does not open is dropped, and an error of that is logged.
  checked : ℕ → C → Result (Unit {0}) → Effect (SwarmTransport S T) (Option C)
  unfolding disconnect
  checked peer conn (ok u) = pure (some conn)
  checked peer conn (err e) = do dropped ← attempt (disconnect peer); pure none
  checked peer conn panic = λ w. (w, panic)

  unfoldable pub check_connection : ℕ → Option C → Effect (SwarmTransport S T) (Option C)
  unfolding checked
  check_connection peer none = pure none
  check_connection peer (some conn) = do
    opened ← attempt (in_transport λ t. env.net.wait_for_data_channel_open t conn)
    checked peer conn opened

  unfoldable pub get_and_check_connection : ℕ → Effect (SwarmTransport S T) (Option C)
  unfolding get_connection check_connection
  get_and_check_connection peer w = check_connection peer (get_connection w peer) w

  abbrev pub refuse_connected : Option C → Effect (SwarmTransport S T) (Unit {0})
  refuse_connected none = pure tt
  refuse_connected (some conn) = fail Error.already_connected

  -- `connection(&cid)`, an error if there is none.
  unfoldable pub existing : ℕ → Effect (SwarmTransport S T) C
  unfolding get_connection
  existing peer w = or_fail (get_connection w peer) Error.transport_failed w

  unfoldable pub prepare_connection_offer : ℕ → Effect (SwarmTransport S T) ConnectNodeSend
  unfolding get_and_check_connection new_connection existing
  prepare_connection_offer peer = do
    open_conn ← get_and_check_connection peer
    refuse_connected open_conn
    new_connection peer
    conn ← existing peer
    offer ← in_transport λ t. env.net.create_offer t conn
    text ← or_fail (env.codec.sdp_to_json offer) Error.serialize_to_string
    λ w. (w, ok (record { sdp = text; network_id = w.network_id }))

  -- When both sides have made an offer, the one with the larger Did gives up its own.
  unfoldable pub settle_offers : ℕ → Option C → Effect (SwarmTransport S T) (Unit {0})
  unfolding get_and_check_connection disconnect
  settle_offers peer none w = (w, ok tt)
  settle_offers peer (some conn) w =
      if is_new (env.net.connection_state w.transport conn)
      then (if ltb peer w.dht.did then disconnect peer w else (w, err Error.already_connected))
      else (get_and_check_connection peer >>= refuse_connected) w

  -- A new connection, and the answer to an offer on it.
  unfoldable pub answer_anew : ℕ → String → Effect (SwarmTransport S T) ConnectNodeReport
  unfolding new_connection existing
  answer_anew peer offer = do
    new_connection peer
    conn ← existing peer
    answer ← in_transport λ t. env.net.answer_offer t conn offer
    text ← or_fail (env.codec.sdp_to_json answer) Error.serialize_to_string
    pure (record { sdp = text })

  unfoldable pub answer_remote_connection :
      ℕ → ConnectNodeSend → Effect (SwarmTransport S T) ConnectNodeReport
  unfolding settle_offers get_connection answer_anew
  answer_remote_connection peer msg = do
    offer ← or_fail (env.codec.sdp_from_json msg.sdp) Error.deserialize
    known ← λ w. (w, ok (get_connection w peer))
    settle_offers peer known
    answer_anew peer offer

  unfoldable pub accept_remote_connection :
      ℕ → ConnectNodeReport → Effect (SwarmTransport S T) (Unit {0})
  unfolding existing
  accept_remote_connection peer msg = do
    answer ← or_fail (env.codec.sdp_from_json msg.sdp) Error.deserialize
    conn ← existing peer
    in_transport λ t. env.net.accept_answer t conn answer

  unfoldable pub is_connected : SwarmTransport S T → ℕ → Bool
  unfolding get_connection
  is_connected w did = elim (get_connection w did) [
    | none ↦ false
    | some conn ↦ is_open (env.net.connection_state w.transport conn)
  ]
