-- ===== src/Handlers/Notice.antt =====
-- The second half of a round of stabilization: what a node does with the answer of its first
-- successor.
use bns_node.Common.{
  ℕ, ◌≡◌, ◌≢◌, ◌<◌, refl, sym, ◌∙◌, ap, inl, inr, false, none, some, Option-cases, List, ◌∷◌, All,
  ==_ne, arith, length, take, Member, ◌⊎◌, ok,
}
use bns_node.Did.{IsDid}
use bns_node.Did.Ring.{sub_self}
use bns_node.Effect.{continue, caught, discard, logged}
use bns_node.Successor
use bns_node.Successor.{SuccessorSeq}
use bns_node.Successor.Nearest.{IsNearest}
use bns_node.Chord.{PeerRing}
use bns_node.Chord.Ring.{IsValid}
use bns_node.Chord.Lookup.{head, min_succ_nil, min_succ-head}
use bns_node.Chord.Correct.Stabilize.{stabilize_lem}
use bns_node.Message.{Message, QueryFor}
use bns_node.Swarm.{Env, SwarmTransport, put_changed, is_connected}
use bns_node.Swarm.Hops.{infer_next_hop_lem, send_message-hop}
use bns_node.Swarm.Send.{send_message_by_hop, infer_next_hop}
use bns_node.Handlers.{handle_dht_events, handle_remote}
use bns_node.Handlers.Connection.{handle_query_for_topo_info_report, answer_topo_info}

-- A node without a connection to itself sends to its first successor what it addresses to itself.
own_hop :
    {S T C : Type 0} (env : Env S T C) (w : SwarmTransport S T) (h : ℕ)
    → IsValid w.dht
    → is_connected env w w.dht.did ≡ false
    → Successor.min_succ w.dht.successor_seq ≡ ok h
    → infer_next_hop env w w.dht.did none ≡ ok h
own_hop env w h v alone least =
    let (n, run, a, b, hop) = infer_next_hop_lem env w w.dht.did none v in
    run
    ∙ ap ok (elim (Option-cases (head w.dht.successor_seq)) [
      | inl e ↦
          (hop alone refl).0 e
          ∙ sym v.succ_own
          ∙ ok-injective (sym (min_succ_nil w.dht.successor_seq e).0 ∙ least)
      | inr (f, e) ↦
          (hop alone refl).1 f e (omega (arith, sub_self w.dht.did v.own))
          ∙ ok-injective (sym (min_succ-head w.dht.successor_seq f e).0 ∙ least)
    ])
  where
    ok-injective : {a b : ℕ} → ok a ≡ ok b → a ≡ b
    ok-injective e = cc

module _ {S T C : Type 0} (env : Env S T C) where
  -- A well-formed node with room for a successor is answered with the successors and the
  -- predecessor, another node than itself, of its first successor. It stays well-formed and its
  -- successors are the nearest ones of those it had and all but the last of those it learns. If it
  -- has no connection to itself, its notice, which it addresses to itself, is handed to the node
  -- that is its first successor afterwards, which is another one. The handler does nothing else, and
  -- an error of sending is logged.
  pub stabilized-notice :
      (w : SwarmTransport S T) (x : ℕ) (xs : List ℕ) (p : ℕ)
      → All IsDid (x ∷ xs)
      → IsDid p
      → p ≢ w.dht.did
      → IsValid w.dht
      → 0 < w.dht.successor_seq.max
      → ((t : PeerRing S) → is_connected env (record w { dht = t }) w.dht.did ≡ false)
      → (s : SuccessorSeq) × (h : ℕ) × (handle_query_for_topo_info_report env
            (record {
              info = record { successors = x ∷ xs; predecessor = some p };
              then_do = QueryFor.stabilization;
            })
            w
          ≡ logged
              (discard
                (send_message_by_hop env (Message.notify_predecessor_send w.dht.did) w.dht.did h))
              (record w { dht = record w.dht { successor_seq = s } }))
        × IsValid (record w.dht { successor_seq = s })
        × (Successor.min_succ s ≡ ok h)
        × (h ≢ w.dht.did)
        × IsNearest s (λ e.
          (Member e w.dht.successor_seq.successors ⊎ (e ≡ p))
          ⊎ Member e (take (length xs) (x ∷ xs)))
  unfolding handle_query_for_topo_info_report answer_topo_info continue put_changed
      handle_dht_events handle_remote caught
  stabilized-notice w x xs p hs hp ne v room alone =
      let (s, h, run, tv, least, other, near) = stabilize_lem w.dht x xs p hs hp ne v in
      let t : PeerRing S = record w.dht { successor_seq = s } in
      let hop = own_hop env (record w { dht = t }) h tv (alone t) least in
      (
        s,
        h,
        rw
            (
              run,
              ==_ne h w.dht.did (other room),
              send_message-hop env (record w { dht = t })
                  (Message.notify_predecessor_send w.dht.did) w.dht.did h hop,
            )
            refl,
        tv,
        least,
        other room,
        near,
      )
