-- ===== src/Stabilizer/Keeps.antt =====
-- The rounds of stabilization keep a node well-formed.
use bns_node.Common.{ℕ, List, [], ◌∷◌, All}
use bns_node.Effect.Keeps.{
  Keeps, test-Keeps, same-Keeps, then-Keeps, attempt-Keeps, if-Keeps, here-Keeps, for_each-Keeps,
}
use bns_node.Action.{PeerRingAction, none_action, remote_action, RemoteAction}
use bns_node.Chord
use bns_node.Chord.Fix.Kept.{fix_fingers-IsValid}
use bns_node.Message.{Message}
use bns_node.Swarm.{Env, get_connections}
use bns_node.Swarm.Keeps.{
  disconnect-Keeps, new_send-Keeps, send_direct_message-Keeps, send_payload-Keeps,
}
use bns_node.Handlers.Stabilization.Keeps.{in_dht-Keeps}
use bns_node.Handlers.Keeps.{IsSound, IsSound-IsApart}
use bns_node.Stabilizer.{
  send_to, send_all, notify_from, notify_predecessor, query_next, correct_stabilize, clean,
  clean_unavailable_connections, fix_action, fix_fingers, stabilize,
}

every : {A : Type 0} (xs : List A) → All (λ a. Unit {0}) xs
every [] = tt
every (x ∷ xs) = (tt, every xs)

module _ {S T C : Type 0} (env : Env S T C) where
  send_to-Keeps : (msg : Message) (s : ℕ) → Keeps IsSound (send_to env msg s)
  unfolding send_to
  send_to-Keeps msg s =
      then-Keeps (new_send-Keeps env IsSound-IsApart msg s s)
        λ p. send_payload-Keeps env IsSound-IsApart p

  notify_from-Keeps : (least : ℕ) → Keeps IsSound (notify_from env least)
  unfolding notify_from send_all
  notify_from-Keeps least =
      test-Keeps _
        (here-Keeps λ w.
          for_each-Keeps (λ s. Unit {0}) _ w.dht.successor_seq.successors (λ s u. send_to-Keeps _ s)
            (every w.dht.successor_seq.successors))
        same-Keeps

  query_next-Keeps : (act : PeerRingAction) → Keeps IsSound (query_next env act)
  unfolding query_next
  query_next-Keeps (remote_action next RemoteAction.query_for_successor_list_and_pred) =
      then-Keeps (send_direct_message-Keeps env IsSound-IsApart _ next) λ id. same-Keeps
  query_next-Keeps _ = same-Keeps

  clean-Keeps : (x : ℕ × C) → Keeps IsSound (clean env x)
  unfolding clean
  clean-Keeps (did, conn) = test-Keeps _ (disconnect-Keeps env IsSound-IsApart did) same-Keeps

  notify_predecessor-Keeps : Keeps IsSound (notify_predecessor env)
  unfolding notify_predecessor
  notify_predecessor-Keeps = then-Keeps same-Keeps λ least. notify_from-Keeps least

  correct_stabilize-Keeps : Keeps IsSound (correct_stabilize env)
  unfolding correct_stabilize
  correct_stabilize-Keeps = then-Keeps same-Keeps λ act. query_next-Keeps act

  clean_connections-Keeps : Keeps IsSound (clean_unavailable_connections env)
  unfolding clean_unavailable_connections
  clean_connections-Keeps = here-Keeps λ w.
      for_each-Keeps (λ x. Unit {0}) _ (get_connections env w) (λ x u. clean-Keeps x)
        (every (get_connections env w))

  fix_action-Keeps : (act : PeerRingAction) → Keeps IsSound (fix_action env act)
  unfolding fix_action
  fix_action-Keeps none_action = same-Keeps
  fix_action-Keeps (remote_action n (RemoteAction.find_successor_for_fix d)) = send_to-Keeps _ n
  fix_action-Keeps _ = same-Keeps

  fix_fingers-Keeps : Keeps IsSound (fix_fingers env)
  unfolding fix_fingers
  fix_fingers-Keeps =
      then-Keeps (in_dht-Keeps env Chord.fix_fingers fix_fingers-IsValid)
        λ act. fix_action-Keeps act

  pub stabilize-Keeps : Keeps IsSound (stabilize env)
  unfolding stabilize
  stabilize-Keeps = then-Keeps (attempt-Keeps notify_predecessor-Keeps) λ a.
      then-Keeps (attempt-Keeps fix_fingers-Keeps) λ b.
        then-Keeps (attempt-Keeps clean_connections-Keeps) λ c.
          then-Keeps (attempt-Keeps (if-Keeps _ correct_stabilize-Keeps same-Keeps)) λ d. same-Keeps
