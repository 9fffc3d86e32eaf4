-- ===== src/Handlers/Stabilization.antt =====
-- crates/core/src/message/handlers/stabilization.rs: a node that is told of a predecessor, and one
-- that is told of a better successor.
pub mod Told
pub mod Keeps
use bns_node.Common.{ℕ, not, List, ◌==◌, if◌then◌else◌, Result, ok, err, panic}
use bns_node.Effect.{Effect, ◌>>=◌, ◌>>◌, pure, lift, attempt}
use bns_node.Message
use bns_node.Message.{Message}
use bns_node.Payload.{MessagePayload}
use bns_node.Relay.{origin_sender}
use bns_node.Action.{PeerRingAction, remote_action, RemoteAction}
use bns_node.Chord
use bns_node.Chord.Vnodes.{sync_vnode_with_successor}
use bns_node.Swarm.{Env, SwarmTransport, in_dht}
use bns_node.Swarm.Send.{send_message, send_report_message, connect}

module _ {S T C : Type 0} (env : Env S T C) where
  unfoldable pub handle_notify_predecessor_send :
      MessagePayload → ℕ → Effect (SwarmTransport S T) (Unit {0})
  handle_notify_predecessor_send ctx did = do
    predecessor ← in_dht λ r. let p = Chord.notify r did in (p.0, ok p.1)
    origin ← lift (origin_sender ctx.relay)
    if not (predecessor == origin)
        then send_report_message env ctx (Message.notify_predecessor_report predecessor)
        else pure tt

  -- Whatever else the call yields is dropped.
  unfoldable pub send_synced : Result PeerRingAction → Effect (SwarmTransport S T) (Unit {0})
  send_synced (ok (remote_action next (RemoteAction.sync_vnode_with_successor vs))) = do
    id ← send_message env (Message.sync_vnode_with_successor vs) next
    pure tt
  send_synced (ok _) = pure tt
  send_synced (err e) = pure tt
  send_synced panic = lift panic

  unfoldable pub handle_notify_predecessor_report : ℕ → Effect (SwarmTransport S T) (Unit {0})
  unfolding send_synced
  handle_notify_predecessor_report did = do
    connect env did
    synced ← attempt (in_dht λ r. sync_vnode_with_successor env.ext env.kv r did)
    send_synced synced
