-- ===== src/Handlers/Stabilization/Told.antt =====
-- What a node does that is told of a predecessor.
use bns_node.Common.{ℕ, ◌≤◌, ◌≡◌, refl, ◌⊎◌, some, List, [], ◌∷◌, ◌==◌, false, ==_self, ok, panic}
use bns_node.Did.{sub}
use bns_node.Effect.{continue}
use bns_node.Chord
use bns_node.Chord.{PeerRing}
use bns_node.Chord.Notify.{notify_lem}
use bns_node.Message.{Message}
use bns_node.Payload.{MessagePayload}
use bns_node.Relay.{origin_sender}
use bns_node.Swarm.{Env, SwarmTransport, put_dht}
use bns_node.Swarm.Send.{send_report_message}
use bns_node.Handlers.Stabilization.{handle_notify_predecessor_send}

module _ {S T C : Type 0} (env : Env S T C) where
  -- A node that is told of a predecessor keeps that one or the one it has, never one that lies
  -- farther behind than the one it is told of. It changes nothing else of itself, and then says
  -- nothing if the one it keeps is where the message comes from, or else reports it there. A message
  -- that comes from nowhere makes it panic.
  pub handle_notify_predecessor_send_lem :
      (ctx : MessagePayload) (d : ℕ) (w : SwarmTransport S T)
      → (n : ℕ) × ((n ≡ d) ⊎ (w.dht.predecessor ≡ some n))
        × (sub d w.dht.did ≤ sub n w.dht.did)
        × (let t : SwarmTransport S T = record w { dht = record w.dht { predecessor = some n } } in
            ((origin : ℕ) (path : List ℕ)
              → ctx.relay.path ≡ origin ∷ path
              → (n ≡ origin → handle_notify_predecessor_send env ctx d w ≡ (t, ok tt))
                × ((n == origin) ≡ false
                    → handle_notify_predecessor_send env ctx d w
                      ≡ send_report_message env ctx (Message.notify_predecessor_report n) t))
            × (ctx.relay.path ≡ [] → handle_notify_predecessor_send env ctx d w ≡ (t, panic)))
  unfolding handle_notify_predecessor_send continue put_dht origin_sender
  handle_notify_predecessor_send_lem ctx d w =
      let (same, which, behind, keeps) = notify_lem w.dht d in
      (
        (Chord.notify w.dht d).1,
        which,
        behind,
        (
          λ origin path e. (λ q. rw (e, same, q, ==_self origin) refl, λ q. rw (e, same, q) refl),
          λ e. rw (e, same) refl,
        ),
      )
