-- ===== src/Handlers/Join.antt =====
-- `join_dht` of crates/core/src/message/handlers/mod.rs, without the feature `experimental`.
use bns_node.Common.{ℕ, ◌≡◌, ◌≢◌, refl, false, ==_ne, ◌∙◌, ok, err, panic, Error}
use bns_node.Did.{IsDid}
use bns_node.Effect.{continue, unwrapped, unwrap, discard}
use bns_node.Action.{PeerRingAction, remote_action, RemoteAction}
use bns_node.Chord
use bns_node.Chord.{PeerRing}
use bns_node.Chord.Ring.{IsValid, join_request}
use bns_node.Message.{Message}
use bns_node.Swarm.{Env, SwarmTransport, put_changed}
use bns_node.Swarm.Send.{send_direct_message}
use bns_node.Handlers.{join_dht, handle_dht_events, handle_remote, for_connect}

-- Ask a peer for the successor of a node, to connect to it.
abbrev pub connect_by : ℕ → ℕ → PeerRingAction
connect_by peer did = remote_action peer (RemoteAction.find_successor_for_connect did)

module _ {S T C : Type 0} (env : Env S T C) where
  -- Without the feature `experimental`, a well-formed node that joins a peer stays well-formed and
  -- never comes to an action that it does not expect. For itself it does nothing. For another one it sends one request, for its own
  -- successor, to that peer, and it panics if that cannot be sent.
  pub join_dht-send :
      (w : SwarmTransport S T) (peer : ℕ)
      → env.experimental ≡ false
      → IsDid peer
      → IsValid w.dht
      → (peer ≡ w.dht.did → join_dht env peer w ≡ (w, ok tt))
        × (peer ≢ w.dht.did
            → (t : PeerRing S) × (Chord.join w.dht peer ≡ ok (t, connect_by peer w.dht.did))
              × IsValid t
              × (join_dht env peer w
                  ≡ unwrap
                      (discard (
                        send_direct_message env
                          (Message.find_successor_send (for_connect w.dht.did))
                          peer))
                      (record w { dht = t }))
              × ((u : SwarmTransport S T) (e : Error)
                  → send_direct_message env
                      (Message.find_successor_send (for_connect w.dht.did))
                      peer
                      (record w { dht = t })
                    ≡ (u, err e)
                  → join_dht env peer w ≡ (u, panic)))
  unfolding join_dht handle_dht_events handle_remote continue put_changed unwrapped
  join_dht-send w peer off d v =
      let (same, other) = join_request w.dht peer d v in
      (
        λ e. rw (off, same e) refl,
        λ ne.
            let (t, run, tv) = other ne in
            let eq = joined t run ne in (t, run, tv, eq, λ u e failed. eq ∙ rw failed refl),
      )
    where
      joined :
          (t : PeerRing S)
          → Chord.join w.dht peer ≡ ok (t, connect_by peer w.dht.did)
          → peer ≢ w.dht.did
          → join_dht env peer w
            ≡ unwrap
                (discard (
                  send_direct_message env
                    (Message.find_successor_send (for_connect w.dht.did))
                    peer))
                (record w { dht = t })
      joined t run ne = rw (off, run, ==_ne peer w.dht.did ne) refl
