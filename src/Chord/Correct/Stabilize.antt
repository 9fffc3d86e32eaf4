-- ===== src/Chord/Correct/Stabilize.antt =====
-- `PeerRing::stabilize`: what a node learns from its first successor.
use bns_node.Common.{
  ℕ, ◌≤◌, ◌<◌, ◌≡◌, ◌≢◌, refl, ap, sym, ◌∙◌, inl, inr, ◌⊎◌, Option, none, some, List, [], ◌∷◌, All,
  Member, All-Member, length, take, All-take, get_elem?, Option-cases, arith, Bool-cases, true,
  false, le→not-ltb, ok, panic, subst,
}
use bns_node.Did.{IsDid, sub}
use bns_node.Did.Ring.{sub_self}
use bns_node.Did.Bias
use bns_node.Successor
use bns_node.Successor.{SuccessorSeq}
use bns_node.Successor.Update
use bns_node.Successor.Update.{IsUpdate, IsOther, known, too_far, inserted, update-IsUpdate}
use bns_node.Successor.Nearest as Succ
use bns_node.Successor.Nearest.{IsNearest, extend-IsNearest, Or}
use bns_node.Action.{
  PeerRingAction, none_action, remote_action, multi_actions, nil, cons, RemoteAction,
}
use bns_node.Chord.{PeerRing, bias}
use bns_node.Chord.Ring.{IsValid, with_successors}
use bns_node.Chord.Lookup.{head, min_succ_nil, min_succ-head}
use bns_node.Chord.Synced.{head_first, head-Member}
use bns_node.Chord.Correct.{LiveDid, update_successor, stabilize, topo_info, query, update_by, tell}

-- The answer to `min` is no farther than any other known node, and another node if the list may
-- hold one.
min_succ-IsNearest :
    (s : SuccessorSeq) (Known : ℕ → Type 0) (d : ℕ)
    → Update.IsValid s
    → IsNearest s Known
    → Known d
    → d ≢ s.did
    → (h : ℕ) × (Successor.min_succ s ≡ ok h)
      × (sub h s.did ≤ sub d s.did)
      × (0 < s.max → h ≢ s.did)
min_succ-IsNearest s Known d v n k ne = elim (Option-cases (head s)) [
  | inl e ↦ (
    s.did,
    (min_succ_nil s e).0,
    omega (arith, sub_self s.did v.own),
    λ pos same. elim (n.complete d k ne) [
      | inl m ↦ subst (Member d) (none_left s.successors e) m
      | inr far ↦
          omega (arith, far.0, pos, ap (λ (l : List ℕ). length l) (none_left s.successors e))
    ],
  )
  | inr (h, e) ↦ (
    h,
    (min_succ-head s h e).0,
    elim (n.complete d k ne) [
      | inl m ↦ head_first (Update.distance s) s.successors h d v.rising e m
      | inr far ↦ omega (
        arith,
        All-Member (λ y. sub y s.did < sub d s.did) h s.successors far.1
            (head-Member s.successors h e),
      )
    ],
    λ pos same.
        (All-Member (IsOther s.did) h s.successors v.others (head-Member s.successors h e)).1
          (same),
  )
]
  where
    none_left : (l : List ℕ) → get_elem? l 0 ≡ none → l ≡ []
    none_left [] e = refl
    none_left (x ∷ l) e = absurd (cc)

-- The nodes of a list and of what it is extended by.
abbrev pub Heard : SuccessorSeq → List ℕ → ℕ → Type 0
Heard s ds e = Member e s.successors ⊎ Member e ds

update_answer :
    {s : SuccessorSeq} {d : ℕ} {t : SuccessorSeq} {o : Option ℕ}
    → IsUpdate s d t o
    → ((o ≡ some d) × Member d t.successors) ⊎ ((t ≡ s) × (o ≡ none))
update_answer (known k) = inr (refl, refl)
update_answer (too_far f a) = inr (refl, refl)
update_answer (inserted l e ne fresh there room) = inl (refl, there)

true≢false : true ≢ false
true≢false e = cc

module _ {S : Type 0} where
  -- Without a predecessor to learn, the successors become the nearest ones of those that the node
  -- had and all but the last of those it learns, and nobody is notified.
  pub stabilize-none :
      (r : PeerRing S) (x : ℕ) (xs : List ℕ)
      → All IsDid (x ∷ xs)
      → IsValid r
      → (t : PeerRing S) × (stabilize r (record { successors = x ∷ xs; predecessor = none })
          ≡ ok (t, multi_actions nil))
        × IsValid t
        × IsNearest t.successor_seq (Heard r.successor_seq (take (length xs) (x ∷ xs)))
  unfolding stabilize update_by tell
  stabilize-none r x xs hs v =
      let (u, e, uv, own, mx, n) =
        extend-IsNearest (take (length xs) (x ∷ xs)) r.successor_seq
          (λ d. Member d r.successor_seq.successors) (All-take IsDid (length xs) (x ∷ xs) hs)
          v.succ_valid (Succ.IsNearest-self r.successor_seq) in
      (
        record r { successor_seq = u.0 },
        rw e refl,
        with_successors r u.0 v (own ∙ v.succ_own) uv,
        n,
      )

  -- A node that learns the successors and the predecessor, another node than itself, of its first
  -- successor stays well-formed: its successors are then the nearest ones of those it had, that
  -- predecessor, and all but the last of the successors learnt. It asks for one thing only, that
  -- its first successor, as it is afterwards, is notified of it, which is another node if the list
  -- has room for one. It never asks the predecessor
  -- learnt for its list of successors.
  pub stabilize_lem :
      (r : PeerRing S) (x : ℕ) (xs : List ℕ) (p : ℕ)
      → All IsDid (x ∷ xs)
      → IsDid p
      → p ≢ r.did
      → IsValid r
      → (s : SuccessorSeq) × (h : ℕ) × (stabilize r
            (record { successors = x ∷ xs; predecessor = some p })
          ≡ ok (
            record r { successor_seq = s },
            multi_actions (cons (remote_action h (RemoteAction.notify r.did)) nil),
          ))
        × IsValid (record r { successor_seq = s })
        × (Successor.min_succ s ≡ ok h)
        × (0 < r.successor_seq.max → h ≢ r.did)
        × IsNearest s (λ e.
          (Member e r.successor_seq.successors ⊎ (e ≡ p)) ⊎ Member e (take (length xs) (x ∷ xs)))
  unfolding stabilize update_by tell bias
  stabilize_lem r x xs p hs hp ne v =
      let Known : ℕ → Type 0 = λ d. Member d r.successor_seq.successors in
      let (w, e, up) = update-IsUpdate r.successor_seq p v.succ_valid hp in
      let same = Succ.IsUpdate-same r.successor_seq p v.succ_valid hp up in
      let (u, e', uv, own, mx, n) =
        extend-IsNearest (take (length xs) (x ∷ xs)) w.0 (Or Known p)
          (All-take IsDid (length xs) (x ∷ xs) hs)
          (Succ.IsUpdate-IsValid r.successor_seq p v.succ_valid hp up)
          (Succ.IsUpdate-IsNearest r.successor_seq p v.succ_valid hp Known up
            (Succ.IsNearest-self r.successor_seq)) in
      let same_max : w.0.max ≡ r.successor_seq.max = same.1 in
      let here : u.0.did ≡ r.did = own ∙ same.0 ∙ v.succ_own in
      let (h, m, le, far) =
        min_succ-IsNearest u.0 (λ d. Or Known p d ⊎ Member d (take (length xs) (x ∷ xs))) p uv n
          (inl (inr refl)) (λ q. ne (q ∙ here)) in
      (
        u.0,
        h,
        rw
            (
              e,
              e',
              m,
              Bias.lt-new r.did p h,
              le→not-ltb (sub h r.did) (sub p r.did) (subst (λ o. sub h o ≤ sub p o) here le),
            )
            refl,
        with_successors r u.0 v here uv,
        m,
        λ pos same. far (subst (λ k. 0 < k) (sym (mx ∙ same_max)) pos) (same ∙ sym here),
        n,
      )

  -- Stabilizing with what a node tells that has no successors panics: the bound of the slice of all
  -- successors but the last is one less than none.
  pub stabilize-topo_info :
      (r s : PeerRing S) → s.successor_seq.successors ≡ [] → stabilize r (topo_info s) ≡ panic
  unfolding stabilize topo_info
  stabilize-topo_info r s e = rw e refl

  -- Updating the successors never fails. A node that is not live is connected to, and this one
  -- stays as it is. A live one that is new is taken into the list and asked for its own
  -- successors, or else the list stays as it is and nothing is asked.
  pub update_successor_lem :
      (r : PeerRing S) (d : LiveDid)
      → IsDid d.did
      → IsValid r
      → (t : PeerRing S) × (a : PeerRingAction) × (update_successor r d ≡ ok (t, a))
        × IsValid t
        × (d.live ≡ false → (t ≡ r) × (a ≡ remote_action d.did RemoteAction.try_connect))
        × (d.live ≡ true
            → d.did ≢ r.did
            → ¬ Member d.did r.successor_seq.successors
            → (Member d.did t.successor_seq.successors
                × (a ≡ remote_action d.did RemoteAction.query_for_successor_list))
              ⊎ ((t.successor_seq ≡ r.successor_seq) × (a ≡ none_action)))
  unfolding update_successor
  update_successor_lem r d h v = elim (Bool-cases d.live) [
    | inl e ↦
        let (u, q, up) = update-IsUpdate r.successor_seq d.did v.succ_valid h in
        (
          record r { successor_seq = u.0 },
          query u.1,
          rw (e, q) refl,
          with_successors r u.0 v
              ((Succ.IsUpdate-same r.successor_seq d.did v.succ_valid h up).0 ∙ v.succ_own)
              (Succ.IsUpdate-IsValid r.successor_seq d.did v.succ_valid h up),
          λ dead. absurd (true≢false (sym e ∙ dead)),
          λ live other fresh. elim (update_answer up) [
            | inl (o, m) ↦ inl (m, ap query o)
            | inr (same, o) ↦ inr (same, ap query o)
          ],
        )
    | inr e ↦ (
      r,
      remote_action d.did RemoteAction.try_connect,
      rw e refl,
      v,
      λ dead. (refl, refl),
      λ live. absurd (true≢false (sym live ∙ e)),
    )
  ]
