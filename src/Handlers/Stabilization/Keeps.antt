-- ===== src/Handlers/Stabilization/Keeps.antt =====
-- The handlers of notifications keep a node well-formed.
use bns_node.Common.{ℕ, Result, ok, err, panic}
use bns_node.Did.{IsDid}
use bns_node.Effect.Keeps.{Keeps, if-Keeps, same-Keeps, then-Keeps, attempt-Keeps}
use bns_node.Action.{PeerRingAction, remote_action, RemoteAction}
use bns_node.Chord
use bns_node.Chord.{PeerRing}
use bns_node.Chord.Ring.{IsValid}
use bns_node.Chord.Kept.{notify-IsValid, sync-IsValid}
use bns_node.Payload.{MessagePayload}
use bns_node.Swarm.{Env, SwarmTransport, put_dht, in_dht}
use bns_node.Swarm.Keeps.{send_message-Keeps, send_report_message-Keeps, connect-Keeps}
use bns_node.Handlers.Keeps.{IsSound, IsSound-IsApart}
use bns_node.Handlers.Stabilization.{
  handle_notify_predecessor_send, send_synced, handle_notify_predecessor_report,
}

module _ {S T C : Type 0} (env : Env S T C) where
  -- An operation of the ring that keeps a node well-formed however it ends.
  pub in_dht-Keeps :
      {A : Type 0} (f : PeerRing S → PeerRing S × Result A)
      → ((r : PeerRing S) → IsValid r → IsValid (f r).0)
      → Keeps {W = SwarmTransport S T} IsSound (in_dht f)
  unfolding put_dht
  in_dht-Keeps f h = record { keeps = λ w v. h w.dht v }

  pub notify_send-Keeps :
      (ctx : MessagePayload) (d : ℕ)
      → IsDid d
      → Keeps IsSound (handle_notify_predecessor_send env ctx d)
  unfolding handle_notify_predecessor_send
  notify_send-Keeps ctx d h =
      then-Keeps
        (in_dht-Keeps (λ r. let p = Chord.notify r d in (p.0, ok p.1))
          λ r v. notify-IsValid r d h v)
        λ predecessor.
          then-Keeps same-Keeps
            λ origin. if-Keeps _ (send_report_message-Keeps env IsSound-IsApart ctx _) same-Keeps

  send_synced-Keeps : (r : Result PeerRingAction) → Keeps IsSound (send_synced env r)
  unfolding send_synced
  send_synced-Keeps (ok (remote_action next (RemoteAction.sync_vnode_with_successor vs))) =
      then-Keeps (send_message-Keeps env IsSound-IsApart _ next) λ id. same-Keeps
  send_synced-Keeps (ok _) = same-Keeps
  send_synced-Keeps (err e) = same-Keeps
  send_synced-Keeps panic = same-Keeps

  pub notify_report-Keeps : (d : ℕ) → Keeps IsSound (handle_notify_predecessor_report env d)
  unfolding handle_notify_predecessor_report
  notify_report-Keeps d = then-Keeps (connect-Keeps env IsSound-IsApart d) λ u.
      then-Keeps (attempt-Keeps (in_dht-Keeps _ λ r v. sync-IsValid env.ext env.kv r d v))
        λ r. send_synced-Keeps r
