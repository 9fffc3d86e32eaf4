-- ===== src/Chord/Synced.antt =====
-- What a node knows of the nodes that joined it: its fingers and its successors agree.
use bns_node.Common.{
  ℕ, ◌^◌, ◌≤◌, ◌<◌, ◌≡◌, ◌≢◌, refl, ap, sym, ◌∙◌, inl, inr, ◌⊎◌, Option, none, some, List, [], ◌∷◌,
  All, Member, get_elem?, All-Member, arith, Result, ok, ◌>>=◌, subst, get_elem?-replicate,
}
use bns_node.Did.{IsDid, sub}
use bns_node.Did.Ring.{sub-injective, sub-eq-zero}
use bns_node.Finger
use bns_node.Finger.Nearest
use bns_node.Finger.Nearest.{AllNearest}
use bns_node.Successor.Ordered.{IsRising}
use bns_node.Successor.Update
use bns_node.Successor.Update.{IsOther, IsUpdate, update-IsUpdate}
use bns_node.Successor.Nearest as Succ
use bns_node.Action.{remote_action, RemoteAction}
use bns_node.Chord.{PeerRing, new_with_storage, join}
use bns_node.Chord.Ring.{IsValid, new-IsValid}
use bns_node.Chord.Lookup.{head}

-- Fingers and successors are the nearest ones of the same nodes.
pub record IsSynced {S : Type 0} (r : PeerRing S) (Known : ℕ → Type 0) : Type 0 where
  pub fingers : AllNearest r.finger Known
  pub successors : Succ.IsNearest r.successor_seq Known

-- The first successor stands in the finger table.
abbrev pub IsLinked : {S : Type 0} → PeerRing S → Type 0
IsLinked r =
    (h : ℕ)
    → head r.successor_seq ≡ some h
    → (i : ℕ) × (i < 160) × (get_elem? r.finger.finger i ≡ some (some h))

pub head_first :
    (key : ℕ → ℕ) (l : List ℕ) (h v : ℕ)
    → IsRising key l
    → get_elem? l 0 ≡ some h
    → Member v l
    → key h ≤ key v
head_first key [] h v rise e m = absurd m
head_first key (x ∷ l) h v rise e (inl q) = ground (arith, ap key q)
head_first key (x ∷ l) h v rise e (inr m) =
    ground (arith, All-Member (λ y. key x < key y) v l rise.0 m)

pub head-Member : (l : List ℕ) (h : ℕ) → get_elem? l 0 ≡ some h → Member h l
head-Member [] h e = cc
head-Member (x ∷ l) h e = inl (ground arith)

module _ {S : Type 0} where
  -- A node whose fingers and successors are the nearest ones of the same nodes has its first
  -- successor in the finger table.
  pub IsSynced-IsLinked :
      (r : PeerRing S) (Known : ℕ → Type 0)
      → ((d : ℕ) → Known d → IsOther r.did d)
      → IsValid r
      → IsSynced r Known
      → IsLinked r
  unfolding AllNearest
  IsSynced-IsLinked r Known others v s h e =
      let (o, at, near) = s.fingers 0 (omega (arith, v.finger_size)) in
      (0, omega arith, at ∙ ap some (same o near))
    where
      mem : Member h r.successor_seq.successors
      mem = head-Member r.successor_seq.successors h e

      h_known : Known h
      h_known = s.successors.sound h mem

      apart : (d : ℕ) → Known d → 0 < sub d r.did
      apart d k = let (a, b) = others d k in ground (arith, sub-eq-zero d r.did a v.own)

      first : (d : ℕ) → Member d r.successor_seq.successors → sub h r.did ≤ sub d r.did
      first d m =
          subst (λ o. sub h o ≤ sub d o) v.succ_own
            (head_first (Update.distance r.successor_seq) r.successor_seq.successors h d
              v.succ_valid.rising e m)

      same : (o : Option ℕ) → Nearest.IsNearest r.finger.did 0 Known o → o ≡ some h
      same none near =
          absurd
            (omega (arith, subst (λ o. sub h o < 1) v.finger_own (near h h_known), apart h h_known))
      same (some w) near =
          ap some (sub-injective w h r.did (others w near.0).0 (others h h_known).0 v.own equal)
        where
          below : sub w r.did ≤ sub h r.did
          below =
              subst (λ o. sub w o ≤ sub h o) v.finger_own
                (near.2 h h_known (subst (λ o. 1 ≤ sub h o) (sym v.finger_own) (apart h h_known)))

          other : w ≢ r.successor_seq.did
          other q = (others w near.0).1 (q ∙ v.succ_own)

          above : sub h r.did ≤ sub w r.did
          above = elim (s.successors.complete w near.0 other) [
            | inl m ↦ first w m
            | inr far ↦ absurd (
                omega (
                  arith,
                  below,
                  subst (λ o. sub h o < sub w o) v.succ_own
                      (All-Member (λ y. sub y r.successor_seq.did < sub w r.successor_seq.did) h
                        r.successor_seq.successors far.1 mem),
                ))
          ]

          equal : sub w r.did ≡ sub h r.did
          equal = omega (arith, below, above)

  -- The nodes of the list join one after the other; the requests that this makes are dropped.
  unfoldable pub join_all : PeerRing S → List ℕ → Result (PeerRing S)
  join_all r [] = ok r
  join_all r (d ∷ ds) = join r d >>= λ t. join_all t.0 ds

  join-IsSynced :
      (r : PeerRing S) (d : ℕ) (Known : ℕ → Type 0)
      → IsOther r.did d
      → IsValid r
      → IsSynced r Known
      → (t : PeerRing S) × (join r d
          ≡ ok (t, remote_action d (RemoteAction.find_successor_for_connect r.did)))
        × IsValid t
        × (t.did ≡ r.did)
        × IsSynced t (λ e. Known e ⊎ (e ≡ d))
  unfolding join
  join-IsSynced r d Known h v s =
      let (f, e, fv, near) =
        Nearest.join-AllNearest r.finger d Known h.0 v.finger_valid s.fingers in
      let (u, e', up) = update-IsUpdate r.successor_seq d v.succ_valid h.0 in
      let same = Succ.IsUpdate-same r.successor_seq d v.succ_valid h.0 up in
      (
        record r { finger = record r.finger { finger = f }; successor_seq = u.0 },
        ground (arith, e, e', h.1),
        record {
          own = v.own;
          finger_own = v.finger_own;
          finger_size = v.finger_size;
          finger_valid = fv;
          succ_own = same.0 ∙ v.succ_own;
          succ_valid = Succ.IsUpdate-IsValid r.successor_seq d v.succ_valid h.0 up;
          pred_valid = v.pred_valid;
          index_valid = v.index_valid;
        },
        refl,
        record {
          fingers = near;
          successors =
              Succ.IsUpdate-IsNearest r.successor_seq d v.succ_valid h.0 Known up s.successors;
        },
      )

  join_all-IsSynced :
      (ds : List ℕ) (r : PeerRing S) (Known : ℕ → Type 0)
      → ((d : ℕ) → Known d → IsOther r.did d)
      → All (IsOther r.did) ds
      → IsValid r
      → IsSynced r Known
      → (t : PeerRing S) × (join_all r ds ≡ ok t) × IsValid t × (t.did ≡ r.did) × IsLinked t
  unfolding join_all
  join_all-IsSynced [] r Known others hs v s =
      (r, refl, v, refl, IsSynced-IsLinked r Known others v s)
  join_all-IsSynced (d ∷ ds) r Known others hs v s =
      let (t, e, tv, own, ts) = join-IsSynced r d Known hs.0 v s in
      let (w, e', wv, own', linked) =
        join_all-IsSynced ds t (λ x. Known x ⊎ (x ≡ d)) (known t own)
          (subst (λ o. All (IsOther o) ds) (sym own) hs.1) tv ts in
      (w, rw e e', wv, own' ∙ own, linked)
    where
      known : (t : PeerRing S) → t.did ≡ r.did → (x : ℕ) → Known x ⊎ (x ≡ d) → IsOther t.did x
      known t own x (inl k) = subst (λ o. IsOther o x) (sym own) (others x k)
      known t own x (inr e) =
          subst (λ o. IsOther o x) (sym own) (subst (IsOther r.did) (sym e) hs.0)

  -- A new node that any other nodes join, in any order, never fails on the way, stays well-formed,
  -- and has its first successor in its finger table, so that a lookup can go on from it.
  pub join_all-IsLinked :
      (did succ_max : ℕ) (storage cache : S) (ds : List ℕ)
      → IsDid did
      → succ_max < 2 ^ 8
      → All (IsOther did) ds
      → (t : PeerRing S) × (join_all (new_with_storage did succ_max storage cache) ds ≡ ok t)
        × IsValid t
        × (t.did ≡ did)
        × IsLinked t
  unfolding new_with_storage
  join_all-IsLinked did succ_max storage cache ds hd hm hs =
      join_all-IsSynced ds (new_with_storage did succ_max storage cache) (λ d. ⊥) (λ d k. absurd k)
        (unfold new_with_storage in hs) (new-IsValid did succ_max storage cache hd hm) start
    where
      start : IsSynced (new_with_storage did succ_max storage cache) (λ d. ⊥)
      start =
          unfold new_with_storage AllNearest Finger.new in
          record {
            fingers = λ k hk. (none, get_elem?-replicate 160 none k hk, λ d m. absurd m);
            successors = Succ.IsNearest-new did succ_max;
          }
