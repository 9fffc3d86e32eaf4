-- ===== src/Chord/Remove.antt =====
-- `PeerRing::remove`: nothing of the node that left is kept, and an empty list of successors is
-- filled again from the fingers.
use bns_node.Common.{
  ℕ, ◌<◌, ◌≡◌, ◌≢◌, refl, ap, sym, ◌∙◌, inl, inr, true, false, Option, none, some, List, [], ◌∷◌,
  length, get_elem?, Member, Option-cases, arith, ◌==◌, if◌then◌else◌, Bool-cases, ok, subst,
  get_elem?-All,
}
use bns_node.Finger
use bns_node.Finger.{FingerTable}
use bns_node.Finger.Table
use bns_node.Finger.Table.{IsEntry, first_lem, remove-IsValid, remove_same}
use bns_node.Finger.Remove
use bns_node.Successor
use bns_node.Successor.{SuccessorSeq}
use bns_node.Successor.Update
use bns_node.Successor.Update.{IsUpdate, known, too_far, inserted, update-IsUpdate}
use bns_node.Successor.Nearest
use bns_node.Chord.{PeerRing, drop_predecessor, refill, remove}
use bns_node.Chord.Ring.{IsValid, IsPredecessor}

record IsRefilled (d : ℕ) (s : SuccessorSeq) (f : FingerTable) (t : SuccessorSeq) : Type 0 where
  pub same_did : t.did ≡ s.did
  pub valid : Update.IsValid t
  pub gone : ¬ Member d t.successors
  pub not_empty : 0 < s.max → (i x : ℕ) → get_elem? f.finger i ≡ some (some x) → t.successors ≢ []

-- With an empty list, an update by another node fills it.
update-not_empty :
    (s : SuccessorSeq) (x : ℕ) {t : SuccessorSeq} {o : Option ℕ}
    → s.successors ≡ []
    → x ≢ s.did
    → 0 < s.max
    → IsUpdate s x t o
    → t.successors ≢ []
update-not_empty s x empty ne room (known (inl e)) q = ne e
update-not_empty s x empty ne room (known (inr m)) q = subst (λ l. Member x l) empty m
update-not_empty s x empty ne room (too_far full far) q = omega (arith, ap (length {A = ℕ}) empty)
update-not_empty s x empty ne room (inserted l e other fresh there r) q =
    subst (λ k. Member x k) q there

refill_lem :
    (d : ℕ) (s : SuccessorSeq) (f : FingerTable)
    → Update.IsValid s
    → Table.IsValid f
    → s.did ≡ f.did
    → s.successors ≡ []
    → ((i : ℕ) → get_elem? f.finger i ≢ some (some d))
    → (t : SuccessorSeq) × (refill s (Finger.first f) ≡ ok t) × IsRefilled d s f t
unfolding refill
refill_lem d s f v w own empty gone = elim (Option-cases (Finger.first f)) [
  | inl e ↦ (
    s,
    rw e,
    record {
      same_did = refl;
      valid = v;
      gone = λ m. subst (λ l. Member d l) empty m;
      not_empty = λ room i x q. absurd ((first_lem f).1 e i x q);
    },
  )
  | inr (x, e) ↦
      let (i, at) = (first_lem f).0 x e in
      let entry : IsEntry f.did (some x) =
        get_elem?-All (IsEntry f.did) f.finger i (some x) w.entries at in
      let (u, run, up) = update-IsUpdate s x v entry.0 in
      (
        u.0,
        rw (e, run),
        record {
          same_did = (Nearest.IsUpdate-same s x v entry.0 up).0;
          valid = Nearest.IsUpdate-IsValid s x v entry.0 up;
          gone = λ m. elim (Nearest.IsUpdate-Member s x v entry.0 d up m) [
            | inl q ↦ gone i (at ∙ ap (λ (z : ℕ). some (some z)) (sym q))
            | inr q ↦ subst (λ l. Member d l) empty q
          ];
          not_empty = λ room j y q. update-not_empty s x empty (λ q. entry.1 (q ∙ own)) room up;
        },
      )
]

is_empty-nil : (s : SuccessorSeq) → Successor.is_empty s ≡ true → s.successors ≡ []
unfolding Successor.is_empty
is_empty-nil s h = go s.successors h
  where
    go : (l : List ℕ) → (length l == 0) ≡ true → l ≡ []
    go [] h = refl
    go (x ∷ l) h = absurd (ground arith)

not_empty-nil : (s : SuccessorSeq) → Successor.is_empty s ≡ false → s.successors ≢ []
unfolding Successor.is_empty
not_empty-nil s h e = ground (arith, ap (length {A = ℕ}) e)

-- The successors after a removal, filled again where needed.
refilled :
    (d : ℕ) (s : SuccessorSeq) (f : FingerTable)
    → Update.IsValid s
    → Table.IsValid f
    → s.did ≡ f.did
    → ¬ Member d s.successors
    → ((i : ℕ) → get_elem? f.finger i ≢ some (some d))
    → (t : SuccessorSeq) × ((if Successor.is_empty s then refill s (Finger.first f) else ok s)
        ≡ ok t)
      × IsRefilled d s f t
refilled d s f v w own out gone = elim (Bool-cases (Successor.is_empty s)) [
  | inl e ↦ rw e (refill_lem d s f v w own (is_empty-nil s e) gone)
  | inr e ↦ (
    s,
    rw e,
    record { same_did = refl; valid = v; gone = out; not_empty = λ room i x q. not_empty-nil s e },
  )
]

drop_predecessor_lem :
    (o : Option ℕ) (d : ℕ)
    → (drop_predecessor o d ≢ some d) × (IsPredecessor o → IsPredecessor (drop_predecessor o d))
drop_predecessor_lem none d = (λ e. cc, λ h. h)
drop_predecessor_lem (some p) d = elim (Bool-cases (p == d)) [
  | inl e ↦ rw e (λ q. cc, λ h. tt)
  | inr e ↦ rw e (λ q. ground arith, λ h. h)
]

module _ {S : Type 0} where
  -- What is kept of a node that has left: nothing in fingers, successors and predecessor.
  pub record IsGone (d : ℕ) (r : PeerRing S) : Type 0 where
    pub fingers : (i : ℕ) → get_elem? r.finger.finger i ≢ some (some d)
    pub successors : ¬ Member d r.successor_seq.successors
    pub predecessor : r.predecessor ≢ some d

  -- Removing a node never fails, keeps this one well-formed, and leaves no trace of the removed
  -- one. If any finger is left and the list of successors has room for one, it is not empty.
  pub remove-IsGone :
      (r : PeerRing S) (d : ℕ)
      → IsValid r
      → (t : PeerRing S) × (remove r d ≡ ok t)
        × IsValid t
        × IsGone d t
        × (0 < r.successor_seq.max
            → (i x : ℕ) → get_elem? t.finger.finger i ≡ some (some x)
            → t.successor_seq.successors ≢ [])
  unfolding remove
  remove-IsGone r d v =
      let f = Finger.remove r.finger d in
      let s = Successor.remove r.successor_seq d in
      let same = remove_same r.finger d in
      let left = Nearest.Member-remove r.successor_seq d v.succ_valid in
      let gone = (Remove.remove_lem r.finger d).0 in
      let pred = drop_predecessor_lem r.predecessor d in
      let (t, run, ok_t) =
        refilled d s f left.0 (remove-IsValid r.finger d v.finger_valid)
          (unfold Successor.remove in v.succ_own ∙ sym v.finger_own ∙ sym same.0)
          (λ m. ((left.1 d).0 m).1 refl) gone in
      (
        record r { finger = f; successor_seq = t; predecessor = drop_predecessor r.predecessor d },
        rw run,
        record {
          own = v.own;
          finger_own = same.0 ∙ v.finger_own;
          finger_size = same.1 ∙ v.finger_size;
          finger_valid = remove-IsValid r.finger d v.finger_valid;
          succ_own = unfold Successor.remove in ok_t.same_did ∙ v.succ_own;
          succ_valid = ok_t.valid;
          pred_valid = pred.1 v.pred_valid;
          index_valid = rw same.2 v.index_valid;
        },
        record { fingers = gone; successors = ok_t.gone; predecessor = pred.0 },
        unfold Successor.remove in ok_t.not_empty,
      )
