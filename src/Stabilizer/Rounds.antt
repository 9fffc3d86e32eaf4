-- ===== src/Stabilizer/Rounds.antt =====
-- What one round of stabilization sends, from crates/core/src/dht/stabilization.rs.
use bns_node.Common.{
  ℕ, ◌^◌, ◌≡◌, refl, sym, ◌∙◌, inl, inr, ◌⊎◌, none, some, Option-cases, List, [], ◌∷◌, get_elem?,
  All-Member, ==_self, ==_ne, ok,
}
use bns_node.Effect.{continue, for_each}
use bns_node.Successor.Update.{IsOther}
use bns_node.Chord
use bns_node.Chord.{PeerRing}
use bns_node.Chord.Ring.{IsValid}
use bns_node.Chord.Lookup.{head, min_succ_nil, min_succ-head}
use bns_node.Chord.Synced.{head-Member}
use bns_node.Chord.Fix.{next_index, fix_fingers_lem}
use bns_node.Message.{Message}
use bns_node.Swarm.{Env, SwarmTransport, put_dht}
use bns_node.Stabilizer.{
  send_to, send_all, notify_from, notify_predecessor, fix_action, fix_fingers, for_fix,
}

none_left : (l : List ℕ) → get_elem? l 0 ≡ none → l ≡ []
none_left [] e = refl
none_left (x ∷ l) e = absurd (cc)

module _ {S T C : Type 0} (env : Env S T C) where
  -- A well-formed node tells all of its successors of itself, in order, and stops at the first
  -- error: the test for a node without successors leaves nobody out.
  pub notify_predecessor-send_all :
      (w : SwarmTransport S T)
      → IsValid w.dht
      → notify_predecessor env w
        ≡ send_all env (Message.notify_predecessor_send w.dht.did) w.dht.successor_seq.successors w
  unfolding notify_predecessor notify_from send_all continue for_each
  notify_predecessor-send_all w v = elim (Option-cases (head w.dht.successor_seq)) [
    | inl e ↦
        rw
          (
            (min_succ_nil w.dht.successor_seq e).0,
            none_left w.dht.successor_seq.successors e,
            v.succ_own,
            ==_self w.dht.did,
          )
          refl
    | inr (h, e) ↦
        rw
          (
            (min_succ-head w.dht.successor_seq h e).0,
            ==_ne w.dht.did h (λ q. (other h e).1 (sym q ∙ sym v.succ_own)),
          )
          refl
  ]
    where
      other : (h : ℕ) → head w.dht.successor_seq ≡ some h → IsOther w.dht.successor_seq.did h
      other h e =
          All-Member (IsOther w.dht.successor_seq.did) h w.dht.successor_seq.successors
            v.succ_valid.others (head-Member w.dht.successor_seq.successors h e)

  -- On a well-formed node the round for the fingers never comes to an action that it does not
  -- expect: it does nothing to the transport and ends well, or what it does is to send one request
  -- for the successor of 2 ^ k.
  pub fix_fingers-send :
      (w : SwarmTransport S T)
      → IsValid w.dht
      → let fixed : SwarmTransport S T = record w { dht = (Chord.fix_fingers w.dht).0 } in
        (fix_fingers env w ≡ (fixed, ok tt))
        ⊎ ((c : ℕ) × (fix_fingers env w
              ≡ send_to env
                  (Message.find_successor_send
                    (for_fix (2 ^ next_index w.dht.finger.fix_finger_index)))
                  c
                  fixed))
  unfolding fix_fingers fix_action continue put_dht
  fix_fingers-send w v = elim (fix_fingers_lem w.dht v).4 [
    | inl e ↦ inl (rw e refl)
    | inr (c, e, pick) ↦ inr (c, rw e refl)
  ]
