-- ===== src/Swarm/Hops.antt =====
-- `infer_next_hop` of crates/core/src/message/payload.rs on a well-formed node.
use bns_node.Common.{
  ℕ, ◌≤◌, ◌<◌, ◌≡◌, refl, inl, inr, true, false, Option, none, some, Option-cases, Bool-cases, leb,
  leb→le, not-leb→lt, ok, ap, arith,
}
use bns_node.Did.{sub}
use bns_node.Effect.{continue}
use bns_node.Finger.Closest.{IsClosest}
use bns_node.Chord.{PeerRing, find_successor}
use bns_node.Chord.Ring.{IsValid}
use bns_node.Chord.Lookup.{head, find_successor_lem}
use bns_node.Message.{Message}
use bns_node.Swarm.{Env, SwarmTransport, is_connected}
use bns_node.Swarm.Send.{infer_next_hop, hop_of, send_message, send_message_by_hop}

-- Where a node sends what is for a node that it has no connection to: to itself if it has no
-- successors, to its first successor if that lies behind the destination, or else to a node that is
-- closer to the destination, as its fingers tell.
abbrev pub IsHop : {S : Type 0} → PeerRing S → ℕ → ℕ → Type 0
IsHop r destination h =
    (head r.successor_seq ≡ none → h ≡ r.did)
    × ((f : ℕ) → head r.successor_seq ≡ some f → sub destination r.did ≤ sub f r.did → h ≡ f)
    × ((f : ℕ)
        → head r.successor_seq ≡ some f
        → sub f r.did < sub destination r.did
        → IsClosest r.did destination r.finger.finger 160 h)

module _ {S T C : Type 0} (env : Env S T C) where
  -- On a well-formed node the next hop is always found: the destination itself if there is an open
  -- connection to it, or else the hop that is given, or else the node itself if it has no
  -- successors, its first successor if that one is not before the destination, and otherwise the
  -- node that the fingers tell to be the closest one before the destination.
  pub infer_next_hop_lem :
      (w : SwarmTransport S T) (destination : ℕ) (given : Option ℕ)
      → IsValid w.dht
      → (h : ℕ) × (infer_next_hop env w destination given ≡ ok h)
        × (is_connected env w destination ≡ true → h ≡ destination)
        × ((g : ℕ) → is_connected env w destination ≡ false → given ≡ some g → h ≡ g)
        × (is_connected env w destination ≡ false → given ≡ none → IsHop w.dht destination h)
  unfolding infer_next_hop
  infer_next_hop_lem w destination given v = elim (Bool-cases (is_connected env w destination)) [
    | inl e ↦ (destination, rw e refl, λ q. refl, λ g q. absurd (cc), λ q. absurd (cc))
    | inr e ↦ open_way e given refl
  ]
    where
      way : (h : ℕ) × (hop_of (find_successor w.dht destination) ≡ ok h) × IsHop w.dht destination h
      way =
          let lookup = find_successor_lem w.dht destination v in
          elim (Option-cases (head w.dht.successor_seq)) [
            | inl e ↦ (
              w.dht.did,
              rw (lookup.0 e) refl,
              (λ q. refl, λ f q. absurd (cc), λ f q. absurd (cc)),
            )
            | inr (f, e) ↦ elim (Bool-cases (leb (sub destination w.dht.did) (sub f w.dht.did))) [
              | inl near ↦
                  let le = leb→le (sub destination w.dht.did) (sub f w.dht.did) near in
                  (
                    f,
                    rw (lookup.1 f e le) refl,
                    (λ q. absurd (cc), λ g q k. cc, λ g q k. absurd (closer f g e q le k)),
                  )
              | inr far ↦
                  let lt = not-leb→lt (sub destination w.dht.did) (sub f w.dht.did) far in
                  let (c, run, pick) = lookup.2 f e lt in
                  (
                    c,
                    rw run refl,
                    (λ q. absurd (cc), λ g q k. absurd (closer g f q e k lt), λ g q k. pick),
                  )
            ]
          ]
        where
          closer :
              (f g : ℕ)
              → head w.dht.successor_seq ≡ some f
              → head w.dht.successor_seq ≡ some g
              → sub destination w.dht.did ≤ sub f w.dht.did
              → sub g w.dht.did < sub destination w.dht.did
              → ⊥
          closer f g p q le lt =
              let same : f ≡ g = cc in omega (arith, le, lt, ap (λ (a : ℕ). sub a w.dht.did) same)

      open_way :
          is_connected env w destination ≡ false
          → (o : Option ℕ) → o ≡ given
          → (h : ℕ) × (infer_next_hop env w destination o ≡ ok h)
            × (is_connected env w destination ≡ true → h ≡ destination)
            × ((g : ℕ) → is_connected env w destination ≡ false → o ≡ some g → h ≡ g)
            × (is_connected env w destination ≡ false → o ≡ none → IsHop w.dht destination h)
      open_way e none q =
          let (h, run, hop) = way in
          (h, rw e run, λ p. absurd (cc), λ g p z. absurd (cc), λ p z. hop)
      open_way e (some g) q = (g, rw e refl, λ p. absurd (cc), λ f p z. cc, λ p z. absurd (cc))

  pub send_message-hop :
      (w : SwarmTransport S T) (msg : Message) (destination h : ℕ)
      → infer_next_hop env w destination none ≡ ok h
      → send_message env msg destination w ≡ send_message_by_hop env msg destination h w
  unfolding send_message continue
  send_message-hop w msg destination h e = rw e refl
