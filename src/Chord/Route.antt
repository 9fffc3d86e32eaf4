-- ===== src/Chord/Route.antt =====
-- A lookup over a whole network: each node that cannot answer passes the question on.
use native.Mathlib.Nat.{le_refl}
use bns_node.Common.{
  ==_iff, ==_false→ne, ◌==◌, ap, ◌≤◌, get_elem?, none, ℕ, zero, suc, ◌<◌, ◌≡◌, ◌≢◌, sym, ◌∙◌, inl,
  inr, some, Option-cases, get_elem?-All, arith, leb, leb→le, not-leb→lt, Bool-cases, Result, ok,
  err, panic, subst,
}
use bns_node.Did.{IsDid, sub}
use bns_node.Finger.Closest.{IsClosest}
use bns_node.Finger.Table.{IsEntry}
use bns_node.Action.{
  PeerRingAction, none_action, some_vnode, some_did, remote_action, multi_actions, RemoteAction,
}
use bns_node.Chord.{PeerRing, find_successor}
use bns_node.Chord.Ring.{IsValid}
use bns_node.Chord.Lookup.{head, find_successor_lem}
use bns_node.Chord.Synced.{IsLinked}

-- Where a lookup ends: with an answer, without one after the hops that were allowed, or in an
-- action that is neither.
pub data Outcome : Type 0 where
  found : ℕ → Outcome
  out_of_hops failed : Outcome

-- What the asking side makes of the answer of a node.
abbrev pub follow : Result PeerRingAction → (ℕ → Outcome) → Outcome
follow (ok (some_did v)) rest = found v
follow (ok (remote_action c r)) rest = rest c
follow (ok none_action) rest = failed
follow (ok (some_vnode v)) rest = failed
follow (ok (multi_actions as')) rest = failed
follow (err e) rest = failed
follow panic rest = failed

-- Going on from a node strictly between brings the target nearer, wherever 0 lies.
closer_hop :
    (n c d : ℕ) → IsDid n → IsDid c → IsDid d → c ≢ n → sub c n < sub d n → sub d c < sub d n
unfolding sub
closer_hop n c d hn hc hd ne h = omega arith

-- The next node after one that lies before the target is also the next one after the target.
next_of_target :
    (n d h x : ℕ)
    → IsDid n
    → IsDid d
    → IsDid h
    → IsDid x
    → d ≢ n
    → sub d n ≤ sub h n
    → (x ≢ n → sub h n ≤ sub x n)
    → sub h d ≤ sub x d
unfolding sub
next_of_target n d h x hn hd hh hx ne le least = elim (Bool-cases (x == n)) [
  | inl e ↦ omega (arith, (==_iff x n).0 e)
  | inr e ↦ omega (arith, least (==_false→ne x n e))
]

module _ {S : Type 0} (net : ℕ → PeerRing S) (Live : ℕ → Type 0) where
  -- The node `n` looks `d` up, and at most `hops` nodes are asked.
  unfoldable pub route : ℕ → ℕ → ℕ → Outcome
  route zero n d = out_of_hops
  route (suc hops) n d = follow (find_successor (net n) d) (λ c. route hops c d)

  -- The live nodes are well-formed, have their first successors in their finger tables, and no
  -- fingers but live nodes.
  pub record IsNetwork : Type 0 where
    pub live_did : (n : ℕ) → Live n → IsDid n
    pub valid : (n : ℕ) → Live n → IsValid (net n)
    pub own : (n : ℕ) → Live n → (net n).did ≡ n
    pub linked : (n : ℕ) → Live n → IsLinked (net n)
    pub closed : (n i v : ℕ) → Live n → get_elem? (net n).finger.finger i ≡ some (some v) → Live v

  -- The first successor of each live node is the next live one, and missing only if there is none.
  pub record IsStable : Type 0 where
    pub alone : (n x : ℕ) → Live n → head (net n).successor_seq ≡ none → Live x → x ≡ n
    pub next_live : (n h : ℕ) → Live n → head (net n).successor_seq ≡ some h → Live h
    pub next_least :
        (n h x : ℕ)
        → Live n
        → head (net n).successor_seq ≡ some h
        → Live x
        → x ≢ n
        → sub h n ≤ sub x n

  -- Who is asked next is another live node, and nearer to the target, but not the target.
  next_hop :
      (n d h c : ℕ)
      → IsNetwork
      → Live n
      → IsDid d
      → head (net n).successor_seq ≡ some h
      → sub h (net n).did < sub d (net n).did
      → IsClosest (net n).did d (net n).finger.finger 160 c
      → Live c × (sub d c < sub d n) × (d ≢ c)
  next_hop n d h c w hn hd e lt (inl pick) =
      let (i, below, at) = w.linked n hn h e in
      absurd (omega (arith, pick.1 i h (omega arith) below at))
  next_hop n d h c w hn hd e lt (inr pick) =
      let valid = w.valid n hn in
      let entry : IsEntry (net n).finger.did (some c) =
        get_elem?-All (IsEntry (net n).finger.did) (net n).finger.finger pick.0 (some c)
          valid.finger_valid.entries pick.2 in
      let other : c ≢ n = λ q. entry.1 (q ∙ sym (w.own n hn) ∙ sym valid.finger_own) in
      (
        w.closed n pick.0 c hn pick.2,
        closer_hop n c d (w.live_did n hn) entry.0 hd other
            (subst (λ o. sub c o < sub d o) (w.own n hn) pick.3),
        λ q. omega (arith, pick.3, ap (λ (o : ℕ). sub o (net n).did) q),
      )

  -- A lookup ends: from any live node, for a target that is another identifier, with more hops
  -- than the clockwise distance to it, which is below 2 ^ 160, it finds an answer, the one that
  -- the last live node asked gives by itself.
  pub route_ends :
      (hops n d : ℕ)
      → IsNetwork
      → Live n
      → IsDid d
      → d ≢ n
      → sub d n < hops
      → (m v : ℕ) × (route hops n d ≡ found v)
        × Live m
        × (d ≢ m)
        × (find_successor (net m) d ≡ ok (some_did v))
  unfolding route
  route_ends zero n d w hn hd ne h = absurd (omega arith)
  route_ends (suc hops) n d w hn hd ne h = elim (Option-cases (head (net n).successor_seq)) [
    | inl e ↦
        let run = (find_successor_lem (net n) d (w.valid n hn)).0 e in
        (n, (net n).did, rw run, hn, ne, run)
    | inr (s, e) ↦ elim (Bool-cases (leb (sub d (net n).did) (sub s (net n).did))) [
      | inl near ↦
          let run =
            (find_successor_lem (net n) d (w.valid n hn)).1 s e
              (leb→le (sub d (net n).did) (sub s (net n).did) near) in
          (n, s, rw run, hn, ne, run)
      | inr far ↦
          let lt = not-leb→lt (sub d (net n).did) (sub s (net n).did) far in
          let (c, run, pick) = (find_successor_lem (net n) d (w.valid n hn)).2 s e lt in
          let (hc, nearer, other) = next_hop n d s c w hn hd e lt pick in
          let (m, v, ends, hm, ne', last) = route_ends hops c d w hc hd other (omega arith) in
          (m, v, rw run ends, hm, ne', last)
    ]
  ]

  -- The answer of a node of a stable network is right.
  answer_right :
      (m d v : ℕ)
      → IsNetwork
      → IsStable
      → Live m
      → IsDid d
      → d ≢ m
      → find_successor (net m) d ≡ ok (some_did v)
      → Live v × ((x : ℕ) → Live x → sub v d ≤ sub x d)
  answer_right m d v w st hm hd ne run =
      let lookup = find_successor_lem (net m) d (w.valid m hm) in
      elim (Option-cases (head (net m).successor_seq)) [
        | inl e ↦
            let self : v ≡ m = did_of run (lookup.0 e) ∙ w.own m hm in
            (
              subst Live (sym self) hm,
              λ x hx. subst (λ o. sub o d ≤ sub x d) (st.alone m x hm e hx ∙ sym self) (le_refl _),
            )
        | inr (h, e) ↦ elim (Bool-cases (leb (sub d (net m).did) (sub h (net m).did))) [
          | inl near ↦
              let le = leb→le (sub d (net m).did) (sub h (net m).did) near in
              let same : v ≡ h = did_of run (lookup.1 h e le) in
              let hh = st.next_live m h hm e in
              (
                subst Live (sym same) hh,
                λ x hx.
                    subst (λ o. sub o d ≤ sub x d) (sym same)
                      (next_of_target m d h x (w.live_did m hm) hd (w.live_did h hh)
                        (w.live_did x hx) ne (subst (λ o. sub d o ≤ sub h o) (w.own m hm) le)
                        (st.next_least m h x hm e hx)),
              )
          | inr far ↦
              let (c, asked, pick) =
                lookup.2 h e (not-leb→lt (sub d (net m).did) (sub h (net m).did) far) in
              absurd (not_asked run asked)
        ]
      ]
    where
      did_of :
          {a b : ℕ}
          → find_successor (net m) d ≡ ok (some_did a)
          → find_successor (net m) d ≡ ok (some_did b)
          → a ≡ b
      did_of p q = cc

      not_asked :
          {a c : ℕ}
          → find_successor (net m) d ≡ ok (some_did a)
          → find_successor (net m) d ≢ ok (remote_action c (RemoteAction.find_successor d))
      not_asked p q = cc

  -- In a stable network a lookup for an identifier other than the node's own, with hops enough,
  -- finds the live node that comes first at or after it, clockwise.
  pub route_finds :
      (hops n d : ℕ)
      → IsNetwork
      → IsStable
      → Live n
      → IsDid d
      → d ≢ n
      → sub d n < hops
      → (v : ℕ) × (route hops n d ≡ found v) × Live v × ((x : ℕ) → Live x → sub v d ≤ sub x d)
  route_finds hops n d w st hn hd ne h =
      let (m, v, run, hm, ne', last) = route_ends hops n d w hn hd ne h in
      let (hv, least) = answer_right m d v w st hm hd ne' last in (v, run, hv, least)
