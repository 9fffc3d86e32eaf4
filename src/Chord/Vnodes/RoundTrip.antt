-- ===== src/Chord/Vnodes/RoundTrip.antt =====
-- Storing and looking up a virtual node on the node that answers for its identifier.

use text.Mathlib.Text.{◌==◌ as str_eq}
use text.Mathlib.TextEquality.{eq_iff}
use bns_node.Common.{
  ℕ, suc, ◌≤◌, ◌<◌, ◌≡◌, ◌≢◌, refl, ap, sym, ◌∙◌, inl, inr, false, some, List, [], ◌∷◌, All, Member,
  All-of_Member, All-Member, get_elem?, length, arith, Bool-cases, ok,
}
use bns_node.Did.{IsDid}
use bns_node.Did.Rotate.{rotate_affine, rotate_affine-cons}
use bns_node.Subring.{External}
use bns_node.VNode
use bns_node.VNode.{VirtualNode, VNodeType, data_type, VNodeOperation, overwrite, extend, touch}
use bns_node.Storage.{KvStorage, IsStorage}
use bns_node.Action.{PeerRingAction, some_did, some_vnode, Actions, nil}
use bns_node.Chord.{PeerRing, find_successor}
use bns_node.Chord.Ring.{IsValid}
use bns_node.Chord.Vnodes.{vnode_operate, vnode_lookup, lookup_loop, look_at, found}
use bns_node.Chord.Vnodes.Loop.{
  IsOn, overwriting, extending, touching, IsData, makes, entry, find_successor-storage,
  operate_loop_first,
}

pub did_of :
    (x : External) (v : VirtualNode) (op : VNodeOperation) → IsOn v op → VNode.did x op ≡ ok v.did
unfolding VNode.did
did_of x v op overwriting = refl
did_of x v op extending = refl
did_of x v op touching = refl

-- The form of an identifier is parsed to it.
abbrev pub IsParsed : External → Type 0
IsParsed x = (d : ℕ) → IsDid d → x.did_from_str (x.did_to_string d) ≡ some d

is_same-ne :
    (x : External) (k j : ℕ)
    → IsParsed x
    → IsDid k
    → IsDid j
    → k ≢ j
    → str_eq (x.did_to_string k) (x.did_to_string j) ≡ false
is_same-ne x k j parse hk hj ne =
    elim (Bool-cases (str_eq (x.did_to_string k) (x.did_to_string j))) [
      | inl e ↦ absurd (
          ne (
            some-injective (
              sym (parse k hk)
              ∙ ap x.did_from_str ((eq_iff (x.did_to_string k) (x.did_to_string j)).0 e)
              ∙ parse j hj)))
      | inr e ↦ e
    ]
  where
    some-injective : {a b : ℕ} → some a ≡ some b → a ≡ b
    some-injective e = cc

Member-get_elem? :
    (d : ℕ) (l : List ℕ) → Member d l → (i : ℕ) × (i < length l) × (get_elem? l i ≡ some d)
Member-get_elem? d [] m = absurd m
Member-get_elem? d (y ∷ l) (inl e) = (0, omega arith, ap some (sym e))
Member-get_elem? d (y ∷ l) (inr m) =
    let (i, lt, e) = Member-get_elem? d l m in (suc i, omega arith, e)

-- The rotations after the first one have other keys.
others_differ :
    (x : External) (d : ℕ) (l : List ℕ)
    → IsParsed x
    → IsDid d
    → All IsDid l
    → ((i : ℕ) → get_elem? l i ≢ some d)
    → All (λ j. str_eq (x.did_to_string j) (x.did_to_string d) ≡ false) l
others_differ x d l parse own ids fresh =
    All-of_Member (λ j. str_eq (x.did_to_string j) (x.did_to_string d) ≡ false) l
      λ j m.
        let (i, lt, e) = Member-get_elem? j l m in
        is_same-ne x j d parse (All-Member IsDid j l ids m) own λ q. fresh i (e ∙ ap some q)

module _ {S : Type 0} (x : External) (kv : KvStorage VirtualNode S) {Good : S → Type 0}
    (st : IsStorage kv Good) where
  lookup_found :
      (r : PeerRing S) (acts : Actions) (k h : ℕ) (ks : List ℕ) (w : VirtualNode)
      → Good r.storage
      → find_successor r k ≡ ok (some_did h)
      → entry x kv st r.storage k ≡ some w
      → lookup_loop x kv r acts (k ∷ ks) ≡ ok (some_vnode w)
  unfolding lookup_loop look_at found
  lookup_found r acts k h ks w good near at =
      rw (near, st.get-view r.storage (x.did_to_string k) good, at) refl

  -- Take between 1 and 360 copies, a well-formed node that answers for the identifier of a virtual
  -- node of data, and a storage that works and holds nothing but data of this identifier under the
  -- keys of its rotations. Then an operation that carries the virtual node does not fail, and what
  -- the node finds for the identifier afterwards is what the operation makes of what was stored
  -- before, or of an empty node.
  pub operate-lookup :
      (r : PeerRing S) (v : VirtualNode) (op : VNodeOperation) (redundant h : ℕ)
      → IsParsed x
      → IsOn v op
      → v.kind ≡ data_type
      → IsDid v.did
      → 0 < redundant
      → redundant ≤ 360
      → IsValid r
      → Good r.storage
      → ((l : List ℕ)
          → rotate_affine v.did redundant ≡ some l
          → All (λ k. IsData v.did (entry x kv st r.storage k)) l)
      → find_successor r v.did ≡ ok (some_did h)
      → (s : S) × (act : PeerRingAction) × (vnode_operate x kv redundant r op
          ≡ (record r { storage = s }, ok act))
        × ((w : VirtualNode) × (makes x op (entry x kv st r.storage v.did) ≡ ok w)
            × (vnode_lookup x kv redundant (record r { storage = s }) v.did ≡ ok (some_vnode w)))
  unfolding vnode_operate vnode_lookup
  operate-lookup r v op redundant h parse on kind own pos most valid good stored near =
      let (l, run, ids, fresh) = rotate_affine-cons v.did redundant own pos most in
      let (s, act, e, good', (w, made, at)) =
        operate_loop_first x kv st r v op nil v.did h l on kind valid good (stored (v.did ∷ l) run)
          near (others_differ x v.did l parse own ids fresh) in
      (
        s,
        act,
        rw (vnode_operate, did_of x v op on, run) e,
        (
          w,
          made,
          rw (vnode_lookup, run)
              (lookup_found (record r { storage = s }) nil v.did h l w good'
                (find_successor-storage x kv st r s v.did ∙ near) at),
        ),
      )
