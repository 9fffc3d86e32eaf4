-- ===== src/Chord/Correct/Total.antt =====
-- Joining and stabilizing never fail on identifiers, and keep a node well-formed.
use bns_node.Common.{
  ℕ, ◌≡◌, ◌≢◌, refl, ap, sym, subst, ◌∙◌, inl, inr, true, false, Option, none, some, List, ◌∷◌, All,
  Member, All-take, take, length, Bool-cases, Option-cases, ◌==◌, ==_iff, if◌then◌else◌, Result, ok,
}
use bns_node.Did.{IsDid}
use bns_node.Did.Bias
use bns_node.Successor
use bns_node.Successor.{SuccessorSeq}
use bns_node.Successor.Update.{update-IsUpdate}
use bns_node.Successor.Nearest as Succ
use bns_node.Successor.Nearest.{extend-IsNearest}
use bns_node.Action.{
  PeerRingAction, none_action, remote_action, multi_actions, Actions, nil, cons, push, RemoteAction,
}
use bns_node.Chord
use bns_node.Chord.{PeerRing, bias}
use bns_node.Chord.Ring.{IsValid, IsPredecessor, with_successors, join_request}
use bns_node.Chord.Lookup.{head, min_succ_nil, min_succ-head}
use bns_node.Chord.Correct.{LiveDid, join_then_sync, stabilize, update_by, tell, keep_remote}
use bns_node.Chord.Correct.Stabilize.{update_successor_lem}

module _ {S : Type 0} where
  -- An operation that succeeds once with a well-formed node does so whenever it succeeds.
  pub ok-IsValid :
      {A : Type 0} {m : Result (PeerRing S × A)} {s t : PeerRing S} {a b : A}
      → m ≡ ok (s, a)
      → IsValid s
      → m ≡ ok (t, b)
      → IsValid t
  ok-IsValid {A = A} run v e =
      subst IsValid (ap (λ (p : PeerRing S × A). p.0) (ok-injective (sym run ∙ e))) v
    where
      ok-injective : {p q : PeerRing S × A} → ok p ≡ ok q → p ≡ q
      ok-injective q = cc

  pub join_ok :
      (d : ℕ) (r : PeerRing S)
      → IsDid d
      → IsValid r
      → (t : PeerRing S) × (a : PeerRingAction) × (Chord.join r d ≡ ok (t, a)) × IsValid t
  join_ok d r h v = elim (Bool-cases (d == r.did)) [
    | inl same ↦ (r, none_action, (join_request r d h v).0 ((==_iff d r.did).0 same), v)
    | inr other ↦
        let (s, run, sv) =
          (join_request r d h v).1 (λ q. true≢false (sym ((==_iff d r.did).1 q) ∙ other)) in
        (s, _, run, sv)
  ]
    where
      true≢false : true ≢ false
      true≢false e = cc

  pub join_then_sync_ok :
      (d : LiveDid) (r : PeerRing S)
      → IsDid d.did
      → IsValid r
      → (t : PeerRing S) × (a : PeerRingAction) × (join_then_sync r d ≡ ok (t, a)) × IsValid t
  unfolding join_then_sync
  join_then_sync_ok d r h v = elim (Bool-cases d.live) [
    | inl on ↦
        let (u, act, run, uv, dead, live) = update_successor_lem r d h v in
        let (s, b, joined, sv) = join_ok d.did u h uv in
        (s, multi_actions (push (keep_remote nil act) b), rw (run, joined, on) refl, sv)
    | inr off ↦ (r, none_action, rw off refl, v)
  ]

  min_succ_ok : (r : PeerRing S) → IsValid r → (h : ℕ) × (Successor.min_succ r.successor_seq ≡ ok h)
  min_succ_ok r v = elim (Option-cases (head r.successor_seq)) [
    | inl e ↦ (_, (min_succ_nil r.successor_seq e).0)
    | inr (h, e) ↦ (h, (min_succ-head r.successor_seq h e).0)
  ]

  tell_ok : (r : PeerRing S) (o : Option ℕ) → IsValid r → (acts : Actions) × (tell r o ≡ ok acts)
  unfolding tell
  tell_ok r none v = (nil, refl)
  tell_ok r (some d) v =
      let (h, e) = min_succ_ok r v in
      let notice = cons (remote_action h (RemoteAction.notify r.did)) nil in
      (
        (if Bias.lt (bias r d) (bias r h)
            then cons (remote_action d RemoteAction.query_for_successor_list) notice
            else notice),
        rw e refl,
      )

  update_by_ok :
      (r : PeerRing S) (o : Option ℕ)
      → IsPredecessor o
      → IsValid r
      → (s : SuccessorSeq) × (update_by r o ≡ ok (record r { successor_seq = s }))
        × IsValid (record r { successor_seq = s })
  unfolding update_by
  update_by_ok r none h v = (r.successor_seq, refl, v)
  update_by_ok r (some d) h v =
      let (u, e, up) = update-IsUpdate r.successor_seq d v.succ_valid h in
      (
        u.0,
        rw e refl,
        with_successors r u.0 v
            ((Succ.IsUpdate-same r.successor_seq d v.succ_valid h up).0 ∙ v.succ_own)
            (Succ.IsUpdate-IsValid r.successor_seq d v.succ_valid h up),
      )

  -- Whatever a peer tells of its successors, if it has any, and of its predecessor.
  pub stabilize_ok :
      (r : PeerRing S) (x : ℕ) (xs : List ℕ) (o : Option ℕ)
      → All IsDid (x ∷ xs)
      → IsPredecessor o
      → IsValid r
      → (t : PeerRing S) × (a : PeerRingAction) × (stabilize r
            (record { successors = x ∷ xs; predecessor = o })
          ≡ ok (t, a))
        × IsValid t
  unfolding stabilize
  stabilize_ok r x xs o hs ho v =
      let (s, e, sv) = update_by_ok r o ho v in
      let (u, e', uv, own, mx, n) =
        extend-IsNearest (take (length xs) (x ∷ xs)) s (λ d. Member d s.successors)
          (All-take IsDid (length xs) (x ∷ xs) hs) sv.succ_valid (Succ.IsNearest-self s) in
      let tv = with_successors r u.0 v (own ∙ sv.succ_own) uv in
      let (acts, told) = tell_ok (record r { successor_seq = u.0 }) o tv in
      (record r { successor_seq = u.0 }, multi_actions acts, rw (e, e', told) refl, tv)
