-- ===== src/Handlers/Keeps.antt =====
-- The handlers of messages keep a node well-formed.
use bns_node.Common.{ℕ, ◌≡◌, refl, sym, subst, ◌∙◌, Option, none, some, Result, ok, err, panic}
use bns_node.Did.{IsDid}
use bns_node.Effect.Keeps.{
  Keeps, test-Keeps, if-Keeps, same-Keeps, or_fail-Keeps, then-Keeps, attempt-Keeps, unwrap-Keeps,
  here-Keeps,
}
use bns_node.Action.{
  PeerRingAction, none_action, some_vnode, some_did, remote_action, multi_actions, Actions, nil,
  cons, RemoteAction,
}
use bns_node.Chord
use bns_node.Chord.{PeerRing}
use bns_node.Chord.Ring.{IsValid}
use bns_node.Chord.Correct.{join_then_sync}
use bns_node.Chord.Correct.Total.{ok-IsValid, join_ok, join_then_sync_ok}
use bns_node.Chord.Remove.{remove-IsGone}
use bns_node.Swarm.{Env, SwarmTransport, put_changed, change_dht}
use bns_node.Swarm.Keeps.{
  IsApart, removed-Keeps, get_and_check_connection-Keeps, send_message-Keeps,
  send_direct_message-Keeps, connect-Keeps,
}
use bns_node.Handlers.{
  handle_remote, handle_dht_events, handle_jobs, live_did, join_connected, join_dht, leave_if_none,
  leave_dht,
}

-- The part of the ring that the node keeps is well-formed.
abbrev pub IsSound : {S T : Type 0} → SwarmTransport S T → Type 0
IsSound w = IsValid w.dht

module _ {S T : Type 0} where
  removed :
      (w : SwarmTransport S T) (d : ℕ) (r : PeerRing S)
      → IsValid w.dht
      → Chord.remove w.dht d ≡ ok r
      → IsValid r
  removed w d r v e =
      let (t, run, tv, gone, room) = remove-IsGone w.dht d v in
      subst IsValid (ok-injective (sym run ∙ e)) tv
    where
      ok-injective : {a b : PeerRing S} → ok a ≡ ok b → a ≡ b
      ok-injective e = cc

  pub IsSound-IsApart : IsApart {S = S} {T = T} IsSound
  IsSound-IsApart = record { moved = λ w t v. v; dropped = removed }

module _ {S T C : Type 0} (env : Env S T C) where
  handle_remote-Keeps : (next : ℕ) (act : RemoteAction) → Keeps IsSound (handle_remote env next act)
  unfolding handle_remote
  handle_remote-Keeps next (RemoteAction.find_successor_for_connect did) =
      if-Keeps _
        (then-Keeps (send_direct_message-Keeps env IsSound-IsApart _ next) λ id. same-Keeps)
        same-Keeps
  handle_remote-Keeps next RemoteAction.query_for_successor_list =
      then-Keeps (send_direct_message-Keeps env IsSound-IsApart _ next) λ id. same-Keeps
  handle_remote-Keeps did RemoteAction.try_connect = connect-Keeps env IsSound-IsApart did
  handle_remote-Keeps did (RemoteAction.notify target) = if-Keeps _ same-Keeps (
      then-Keeps same-Keeps
        λ own. then-Keeps (send_message-Keeps env IsSound-IsApart _ target) λ id. same-Keeps)
  handle_remote-Keeps _ _ = same-Keeps

  mutual
    unfolding handle_dht_events

    pub handle_dht_events-Keeps : (act : PeerRingAction) → Keeps IsSound (handle_dht_events env act)
    handle_dht_events-Keeps none_action = same-Keeps
    handle_dht_events-Keeps (remote_action next act) = handle_remote-Keeps next act
    handle_dht_events-Keeps (multi_actions acts) = handle_jobs-Keeps acts
    handle_dht_events-Keeps (some_vnode v) = same-Keeps
    handle_dht_events-Keeps (some_did d) = same-Keeps

    handle_jobs-Keeps : (acts : Actions) → Keeps IsSound (handle_jobs env acts)
    handle_jobs-Keeps nil = same-Keeps
    handle_jobs-Keeps (cons act acts) =
        then-Keeps (attempt-Keeps (handle_dht_events-Keeps act)) λ r. handle_jobs-Keeps acts

  -- An operation of the ring that keeps a node well-formed when it succeeds.
  pub change_dht-Keeps :
      {A : Type 0} (f : PeerRing S → Result (PeerRing S × A))
      → ((r t : PeerRing S) (a : A) → IsValid r → f r ≡ ok (t, a) → IsValid t)
      → Keeps {W = SwarmTransport S T} IsSound (change_dht f)
  unfolding put_changed
  change_dht-Keeps {A = A} f h = record { keeps = λ w v. at w v (f w.dht) refl }
    where
      at :
          (w : SwarmTransport S T)
          → IsSound w
          → (r : Result (PeerRing S × A)) → f w.dht ≡ r
          → IsSound (put_changed w r).0
      at w v (ok (t, a)) e = h w.dht t a v e
      at w v (err x) e = v
      at w v panic e = v

  live-Keeps : (peer : ℕ) (o : Option C) → IsDid peer → Keeps IsSound (join_connected env peer o)
  unfolding join_connected
  live-Keeps peer o h = then-Keeps (or_fail-Keeps o _) λ conn.
      then-Keeps
        (here-Keeps λ w.
          change_dht-Keeps (λ r. join_then_sync r (live_did env w peer conn))
            λ r t a v e.
              let (s, b, run, sv) = join_then_sync_ok (live_did env w peer conn) r h v in
              ok-IsValid run sv e)
        λ ev. handle_dht_events-Keeps ev

  pub join_dht-Keeps : (peer : ℕ) → IsDid peer → Keeps IsSound (join_dht env peer)
  unfolding join_dht
  join_dht-Keeps peer h = test-Keeps _ (here-Keeps λ w. live-Keeps peer _ h) (
      then-Keeps
        (change_dht-Keeps (λ r. Chord.join r peer)
          λ r t a v e. let (s, b, run, sv) = join_ok peer r h v in ok-IsValid run sv e)
        λ ev. unwrap-Keeps (handle_dht_events-Keeps ev))

  leave_if_none-Keeps : (peer : ℕ) (o : Option C) → Keeps IsSound (leave_if_none env peer o)
  unfolding leave_if_none
  leave_if_none-Keeps peer none = removed-Keeps env IsSound-IsApart peer
  leave_if_none-Keeps peer (some c) = same-Keeps

  pub leave_dht-Keeps : (peer : ℕ) → Keeps IsSound (leave_dht env peer)
  unfolding leave_dht
  leave_dht-Keeps peer =
      then-Keeps (get_and_check_connection-Keeps env IsSound-IsApart peer)
        λ o. leave_if_none-Keeps peer o
