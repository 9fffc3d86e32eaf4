-- ===== src/Chord/Sync.antt =====
-- `PeerRing::sync_vnode_with_successor`: what leaves the storage and what is sent.
use Prim.Native.String.{String}
use text.Mathlib.Text.{◌==◌ as str_eq}
use text.Mathlib.TextEquality.{eq_iff}
use text.Mathlib.TextPositions.{eq_refl}
use bns_node.Common.{
  ℕ, ◌≤◌, ◌<◌, ◌≡◌, ◌≢◌, refl, ap, sym, ◌∙◌, inl, inr, none, some, List, [], ◌∷◌, All, Member,
  All-of_Member, arith, ltb, ltb→lt, lt→ltb, not-ltb→le, le→not-ltb, Bool-cases, ok, ◌>>=◌,
}
use bns_node.Did.{sub}
use bns_node.Did.Bias
use bns_node.Subring.{External}
use bns_node.VNode.{VirtualNode}
use bns_node.Storage.{KvStorage, IsStorage}
use bns_node.Chord.{PeerRing, bias}
use bns_node.Chord.Vnodes.{sync_loop, sync_action, sync_vnode_with_successor}

-- The key of an entry is an identifier.
abbrev pub HasKey : External → String × VirtualNode → Type 0
HasKey x p = (d : ℕ) × (x.did_from_str p.0 ≡ some d)

module _ {S : Type 0} (x : External) (kv : KvStorage VirtualNode S) {Good : S → Type 0}
    (st : IsStorage kv Good) (succ : ℕ) where
  -- What is farther than the new successor goes, the rest stays.
  abbrev IsSplit : ℕ → S → List (String × VirtualNode) → S → List VirtualNode → Type 0
  IsSplit self s items t vs =
      ((key : String) (d : ℕ)
        → x.did_from_str key ≡ some d
        → sub d self ≤ sub succ self
        → st.view t key ≡ st.view s key)
      × ((key : String) (v : VirtualNode) (d : ℕ)
          → Member (key, v) items
          → x.did_from_str key ≡ some d
          → sub succ self < sub d self
          → (st.view t key ≡ none) × Member v vs)
      × ((v : VirtualNode)
          → Member v vs
          → (key : String) × (d : ℕ) × Member (key, v) items
            × (x.did_from_str key ≡ some d)
            × (sub succ self < sub d self))
      × ((key : String) → st.view s key ≡ none → st.view t key ≡ none)

  sync_loop-near :
      (r : PeerRing S) (key : String) (v : VirtualNode) (d : ℕ)
      (items : List (String × VirtualNode))
      → x.did_from_str key ≡ some d
      → sub d r.did ≤ sub succ r.did
      → sync_loop x kv r succ ((key, v) ∷ items) ≡ sync_loop x kv r succ items
  unfolding sync_loop bias
  sync_loop-near r key v d items e near =
      rw (sync_loop, e, Bias.gt-new r.did d succ, le→not-ltb (sub d r.did) (sub succ r.did) near)
        refl

  sync_loop-far :
      (r : PeerRing S) (key : String) (v : VirtualNode) (d : ℕ)
      (items : List (String × VirtualNode))
      → Good r.storage
      → x.did_from_str key ≡ some d
      → sub succ r.did < sub d r.did
      → let rest = sync_loop x kv (record r { storage = (kv.remove r.storage key).0 }) succ items in
        sync_loop x kv r succ ((key, v) ∷ items) ≡ (rest.0, rest.1 >>= λ vs. ok (v ∷ vs))
  unfolding sync_loop bias
  sync_loop-far r key v d items good e far =
      rw
        (
          sync_loop,
          e,
          Bias.gt-new r.did d succ,
          lt→ltb (sub succ r.did) (sub d r.did) far,
          st.remove-ok r.storage key good,
        )
        refl

  parse_same :
      (k j : String) (a b : ℕ)
      → k ≡ j
      → x.did_from_str k ≡ some a
      → x.did_from_str j ≡ some b
      → a ≡ b
  parse_same k j a b e p q = some-injective (sym p ∙ ap x.did_from_str e ∙ q)
    where
      some-injective : {a b : ℕ} → some a ≡ some b → a ≡ b
      some-injective e = cc

  removed_self : (s : S) (key k : String) → Good s → k ≡ key → st.view (kv.remove s key).0 k ≡ none
  removed_self s key k good e = rw (e, st.view-remove s key key good, eq_refl key) refl

  removed_other :
      (s : S) (key k : String) → Good s → (key ≢ k) → st.view (kv.remove s key).0 k ≡ st.view s k
  removed_other s key k good ne = elim (Bool-cases (str_eq key k)) [
    | inl e ↦ absurd (ne ((eq_iff key k).0 e))
    | inr e ↦ rw (st.view-remove s key k good, e) refl
  ]

  removed_none :
      (s : S) (key k : String) → Good s → st.view s k ≡ none → st.view (kv.remove s key).0 k ≡ none
  removed_none s key k good n = elim (Bool-cases (str_eq key k)) [
    | inl e ↦ rw (st.view-remove s key k good, e) refl
    | inr e ↦ rw (st.view-remove s key k good, e) n
  ]

  sync_loop_lem :
      (items : List (String × VirtualNode)) (r : PeerRing S)
      → Good r.storage
      → All (HasKey x) items
      → (t : S) × (vs : List VirtualNode) × (sync_loop x kv r succ items
          ≡ (record r { storage = t }, ok vs))
        × Good t
        × IsSplit r.did r.storage items t vs
  sync_loop_lem [] r good keys = (
    r.storage,
    [],
    (unfold sync_loop in refl),
    good,
    (λ k d e near. refl, λ k v d m. absurd m, λ v m. absurd m, λ k e. e),
  )
  sync_loop_lem ((key, v) ∷ items) r good ((d, e), keys) =
      elim (Bool-cases (ltb (sub succ r.did) (sub d r.did))) [
        | inr near ↦
            let below = not-ltb→le (sub succ r.did) (sub d r.did) near in
            let (t, vs, run, good', (stay, go, sent, gone)) = sync_loop_lem items r good keys in
            (
              t,
              vs,
              sync_loop-near r key v d items e below ∙ run,
              good',
              (
                stay,
                λ k w c m p far. elim m [
                  | inl q ↦ absurd (
                      omega (
                        arith,
                        below,
                        far,
                        ap (λ (a : ℕ). sub a r.did)
                            (parse_same k key c d (ap (λ (y : String × VirtualNode). y.0) q) p e),
                      ))
                  | inr q ↦ go k w c q p far
                ],
                λ w m. let (k, c, q, p, far) = sent w m in (k, c, inr q, p, far),
                gone,
              ),
            )
        | inl far ↦
            let above = ltb→lt (sub succ r.did) (sub d r.did) far in
            let s = (kv.remove r.storage key).0 in
            let (t, vs, run, good', (stay, go, sent, gone)) =
              sync_loop_lem items (record r { storage = s }) (st.remove-Good r.storage key good)
                keys in
            (
              t,
              v ∷ vs,
              sync_loop-far r key v d items good e above ∙ rw run refl,
              good',
              (
                λ k c p near.
                    stay k c p near
                    ∙ removed_other r.storage key k good (λ q. omega (
                      arith,
                      above,
                      near,
                      ap (λ (a : ℕ). sub a r.did) (parse_same key k d c q e p),
                    )),
                λ k w c m p far'. elim m [
                  | inl q ↦ (
                    gone k (
                        removed_self r.storage key k good
                          (ap (λ (y : String × VirtualNode). y.0) q)),
                    inl (ap (λ (y : String × VirtualNode). y.1) q),
                  )
                  | inr q ↦ let (a, b) = go k w c q p far' in (a, inr b)
                ],
                λ w m. elim m [
                  | inl q ↦ (key, d, inl (ap (λ (y : VirtualNode). (key, y)) q), e, above)
                  | inr q ↦ let (k, c, i, p, far') = sent w q in (k, c, inr i, p, far')
                ],
                λ k n. gone k (removed_none r.storage key k good n),
              ),
            )
      ]

  sync_run :
      (r : PeerRing S) (items : List (String × VirtualNode)) (t : S) (vs : List VirtualNode)
      → kv.get_all r.storage ≡ ok items
      → sync_loop x kv r succ items ≡ (record r { storage = t }, ok vs)
      → sync_vnode_with_successor x kv r succ ≡ (record r { storage = t }, ok (sync_action succ vs))
  unfolding sync_vnode_with_successor
  sync_run r items t vs e run = rw (sync_vnode_with_successor, e, run) refl

  -- On a storage that works, all of whose keys are identifiers, handing over to a new successor
  -- never fails and loses nothing: an entry up to the new successor stays as it was, one beyond it
  -- is gone from the storage and is among the nodes sent, and nothing else is sent.
  pub sync-IsSplit :
      (r : PeerRing S)
      → Good r.storage
      → ((key : String) (v : VirtualNode) → st.view r.storage key ≡ some v → HasKey x (key, v))
      → (t : S) × (vs : List VirtualNode) × (sync_vnode_with_successor x kv r succ
          ≡ (record r { storage = t }, ok (sync_action succ vs)))
        × Good t
        × ((key : String) (d : ℕ)
            → x.did_from_str key ≡ some d
            → sub d r.did ≤ sub succ r.did
            → st.view t key ≡ st.view r.storage key)
        × ((key : String) (v : VirtualNode) (d : ℕ)
            → st.view r.storage key ≡ some v
            → x.did_from_str key ≡ some d
            → sub succ r.did < sub d r.did
            → (st.view t key ≡ none) × Member v vs)
        × ((v : VirtualNode)
            → Member v vs
            → (key : String) × (d : ℕ) × (st.view r.storage key ≡ some v)
              × (x.did_from_str key ≡ some d)
              × (sub succ r.did < sub d r.did))
  sync-IsSplit r good keys =
      let items = st.entries r.storage in
      let listed = st.Member-entries r.storage in
      let (t, vs, run, good', (stay, go, sent, gone)) =
        sync_loop_lem items r good
          (All-of_Member (HasKey x) items λ p m. keys p.0 p.1 ((listed p.0 p.1 good).0 m)) in
      (
        t,
        vs,
        sync_run r items t vs (st.get_all-entries r.storage good) run,
        good',
        stay,
        λ key v d e. go key v d ((listed key v good).1 e),
        λ v m. let (key, d, i, p, far) = sent v m in (key, d, (listed key v good).0 i, p, far),
      )
