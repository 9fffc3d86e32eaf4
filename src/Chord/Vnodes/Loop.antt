-- ===== src/Chord/Vnodes/Loop.antt =====
-- The loop of `vnode_operate` over the rotations of an identifier, on a storage that works.

use text.Mathlib.Text.{◌==◌ as str_eq}
use text.Mathlib.TextEquality.{eq_iff}
use text.Mathlib.TextPositions.{eq_refl}
use bns_node.Common.{
  ℕ, ◌≡◌, refl, ◌∙◌, inl, inr, ◌⊎◌, Bool, false, Option, none, some, List, [], ◌∷◌, All,
  Option-cases, Bool-cases, leb, leb→le, not-leb→lt, Result, ok, ◌>>=◌, subst,
}
use bns_node.Did.{sub}
use bns_node.Subring.{External}
use bns_node.VNode.{
  VirtualNode, data_type, VNodeOperation, overwrite, extend, touch, gen_default_vnode, operate,
}
use bns_node.VNode.Laws
use bns_node.VNode.Laws.{operate_lem}
use bns_node.Storage.{KvStorage, IsStorage}
use bns_node.Action.{
  PeerRingAction, none_action, some_did, remote_action, Actions, from_vec, RemoteAction,
}
use bns_node.Chord.{PeerRing, bias, ask_closest, find_successor}
use bns_node.Chord.Ring.{IsValid, with_storage}
use bns_node.Chord.Lookup.{head, find_successor_lem}
use bns_node.Chord.Vnodes.{operate_at, proceed, operate_loop, write_back, this_or_default, collect}

-- The operations that carry a node.
pub data IsOn (v : VirtualNode) : VNodeOperation → Type 0 where
  overwriting : IsOn v (overwrite v)
  extending : IsOn v (extend v)
  touching : IsOn v (touch v)

-- An empty entry, or one of data for the identifier.
abbrev pub IsData : ℕ → Option VirtualNode → Type 0
IsData vid none = Unit
IsData vid (some w) = (w.did ≡ vid) × (w.kind ≡ data_type)

-- What an operation makes of an entry.
abbrev pub makes : External → VNodeOperation → Option VirtualNode → Result VirtualNode
makes x op o = this_or_default x op (ok o) >>= λ this. operate x this op

operate_on :
    (x : External) (v self : VirtualNode) (op : VNodeOperation)
    → IsOn v op
    → v.kind ≡ data_type
    → self.did ≡ v.did
    → self.kind ≡ data_type
    → (w : VirtualNode) × (operate x self op ≡ ok w) × IsData v.did (some w)
operate_on x v self op overwriting kind same own =
    let (e, d, k) = (operate_lem x self (Laws.overwriting v)).3 own kind same in
    (v, e, (refl, kind))
operate_on x v self op extending kind same own =
    let (e, d, k) = (operate_lem x self (Laws.extending v)).3 own kind same in
    (_, e, (d ∙ same, k ∙ own))
operate_on x v self op touching kind same own =
    let (e, d, k) = (operate_lem x self (Laws.touching v)).3 own kind same in
    (_, e, (d ∙ same, k ∙ own))

default :
    (x : External) (v : VirtualNode) (op : VNodeOperation)
    → IsOn v op
    → gen_default_vnode x op ≡ ok (record { did = v.did; entries = []; kind = v.kind })
unfolding gen_default_vnode
default x v op overwriting = refl
default x v op extending = refl
default x v op touching = refl

pub makes_lem :
    (x : External) (v : VirtualNode) (op : VNodeOperation) (o : Option VirtualNode)
    → IsOn v op
    → v.kind ≡ data_type
    → IsData v.did o
    → (w : VirtualNode) × (makes x op o ≡ ok w) × IsData v.did (some w)
makes_lem x v op (some this) on kind h = operate_on x v this op on kind h.0 h.1
makes_lem x v op none on kind h = rw (default x v op on) (operate_on x v _ op on kind refl kind)

-- What a lookup comes to.
find_cases :
    {S : Type 0} (r : PeerRing S) (d : ℕ)
    → IsValid r
    → ((h : ℕ) × (find_successor r d ≡ ok (some_did h)))
      ⊎ ((c : ℕ) × (find_successor r d ≡ ok (remote_action c (RemoteAction.find_successor d))))
find_cases r d v =
    let lookup = find_successor_lem r d v in
    elim (Option-cases (head r.successor_seq)) [
      | inl e ↦ inl (r.did, lookup.0 e)
      | inr (h, e) ↦ elim (Bool-cases (leb (sub d r.did) (sub h r.did))) [
        | inl near ↦ inl (h, lookup.1 h e (leb→le (sub d r.did) (sub h r.did) near))
        | inr far ↦
            let (c, run, pick) = lookup.2 h e (not-leb→lt (sub d r.did) (sub h r.did) far) in
            inr (c, run)
      ]
    ]

module _ {S : Type 0} (x : External) (kv : KvStorage VirtualNode S) {Good : S → Type 0}
    (st : IsStorage kv Good) where
  -- What stands under the key of an identifier.
  abbrev pub entry : S → ℕ → Option VirtualNode
  entry s d = st.view s (x.did_to_string d)

  abbrev pub is_same : ℕ → ℕ → Bool
  is_same k j = str_eq (x.did_to_string k) (x.did_to_string j)

  pub find_successor-storage :
      (r : PeerRing S) (s : S) (d : ℕ)
      → find_successor (record r { storage = s }) d ≡ find_successor r d
  unfolding find_successor bias ask_closest
  find_successor-storage r s d = refl

  -- One iteration of `vnode_operate` for the identifier `k`.
  operate_at_lem :
      (r : PeerRing S) (v : VirtualNode) (op : VNodeOperation) (k : ℕ)
      → IsOn v op
      → v.kind ≡ data_type
      → IsValid r
      → Good r.storage
      → IsData v.did (entry r.storage k)
      → (s : S) × (act : Result PeerRingAction) × (operate_at x kv r op k (find_successor r k)
          ≡ (record r { storage = s }, ok act))
        × Good s
        × ((j : ℕ) → is_same k j ≡ false → entry s j ≡ entry r.storage j)
        × IsData v.did (entry s k)
        × ((h : ℕ)
            → find_successor r k ≡ ok (some_did h)
            → (w : VirtualNode) × (entry s k ≡ some w) × (makes x op (entry r.storage k) ≡ ok w))
  unfolding operate_at write_back
  operate_at_lem r v op k on kind valid good h = elim (find_cases r k valid) [
    | inl (n, e) ↦
        let (w, q, d) = makes_lem x v op (entry r.storage k) on kind h in
        let key = x.did_to_string k in
        let here : entry (kv.put r.storage key w).0 k ≡ some w =
          rw (st.view-put r.storage key key w good, eq_refl key) refl in
        (
          (kv.put r.storage key w).0,
          ok none_action,
          rw (e, st.get-view r.storage key good, q, st.put-ok r.storage key w good) refl,
          st.put-Good r.storage key w good,
          λ j ne. rw (st.view-put r.storage key (x.did_to_string j) w good, ne) refl,
          rw here d,
          λ m f. (w, here, q),
        )
    | inr (c, e) ↦ (
      r.storage,
      ok (remote_action c (RemoteAction.find_vnode_for_operate op)),
      rw e refl,
      good,
      λ j ne. refl,
      h,
      λ m f. absurd (cc),
    )
  ]

  -- Entries stay data across an iteration that keeps the other keys.
  All-IsData :
      (s t : S) (vid k : ℕ) (ks : List ℕ)
      → ((j : ℕ) → is_same k j ≡ false → entry t j ≡ entry s j)
      → IsData vid (entry t k)
      → All (λ j. IsData vid (entry s j)) ks
      → All (λ j. IsData vid (entry t j)) ks
  All-IsData s t vid k [] keep here hs = tt
  All-IsData s t vid k (j ∷ ks) keep here hs = (
    elim (Bool-cases (is_same k j)) [
      | inl e ↦
          subst (λ key. IsData vid (st.view t key))
            ((eq_iff (x.did_to_string k) (x.did_to_string j)).0 e) here
      | inr e ↦ rw (keep j e) hs.0
    ],
    All-IsData s t vid k ks keep here hs.1,
  )

  operate_loop-step :
      (r t : PeerRing S) (op : VNodeOperation) (acts : Actions) (act : Result PeerRingAction)
      (k : ℕ) (ks : List ℕ)
      → operate_at x kv r op k (find_successor r k) ≡ (t, ok act)
      → operate_loop x kv r op acts (k ∷ ks) ≡ operate_loop x kv t op (collect acts act) ks
  unfolding operate_loop
  operate_loop-step r t op acts act k ks e = rw e (unfold proceed in refl)

  -- The loop never stops early, and an identifier whose key is none of the loop's keeps its entry.
  pub operate_loop_lem :
      (r : PeerRing S) (v : VirtualNode) (op : VNodeOperation) (acts : Actions) (ks : List ℕ)
      → IsOn v op
      → v.kind ≡ data_type
      → IsValid r
      → Good r.storage
      → All (λ k. IsData v.did (entry r.storage k)) ks
      → (s : S) × (act : PeerRingAction) × (operate_loop x kv r op acts ks
          ≡ (record r { storage = s }, ok act))
        × Good s
        × ((j : ℕ) → All (λ k. is_same k j ≡ false) ks → entry s j ≡ entry r.storage j)
  operate_loop_lem r v op acts [] on kind valid good hs =
      (r.storage, from_vec acts, (unfold operate_loop in refl), good, λ j h. refl)
  operate_loop_lem r v op acts (k ∷ ks) on kind valid good hs =
      let (s, act, e, good', keep, here, wrote) = operate_at_lem r v op k on kind valid good hs.0 in
      let (t, act', e', good'', keep') =
        operate_loop_lem (record r { storage = s }) v op (collect acts act) ks on kind
          (with_storage r s valid) good' (All-IsData r.storage s v.did k ks keep here hs.1) in
      (
        t,
        act',
        operate_loop-step r (record r { storage = s }) op acts act k ks e ∙ e',
        good'',
        λ j h. keep' j h.1 ∙ keep j h.0,
      )

  -- The entry for the first identifier, if the node answers for it, is what the operation makes.
  pub operate_loop_first :
      (r : PeerRing S) (v : VirtualNode) (op : VNodeOperation) (acts : Actions) (k h : ℕ)
      (ks : List ℕ)
      → IsOn v op
      → v.kind ≡ data_type
      → IsValid r
      → Good r.storage
      → All (λ j. IsData v.did (entry r.storage j)) (k ∷ ks)
      → find_successor r k ≡ ok (some_did h)
      → All (λ j. is_same j k ≡ false) ks
      → (s : S) × (act : PeerRingAction) × (operate_loop x kv r op acts (k ∷ ks)
          ≡ (record r { storage = s }, ok act))
        × Good s
        × ((w : VirtualNode) × (makes x op (entry r.storage k) ≡ ok w) × (entry s k ≡ some w))
  operate_loop_first r v op acts k h ks on kind valid good hs near others =
      let (s, act, e, good', keep, here, wrote) = operate_at_lem r v op k on kind valid good hs.0 in
      let (w, at, made) = wrote h near in
      let (t, act', e', good'', keep') =
        operate_loop_lem (record r { storage = s }) v op (collect acts act) ks on kind
          (with_storage r s valid) good' (All-IsData r.storage s v.did k ks keep here hs.1) in
      (
        t,
        act',
        operate_loop-step r (record r { storage = s }) op acts act k ks e ∙ e',
        good'',
        (w, made, keep' k others ∙ at),
      )
