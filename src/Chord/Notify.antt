-- ===== src/Chord/Notify.antt =====
-- `PeerRing::notify`: the predecessor over any sequence of notifications.
use bns_node.Common.{
  ℕ, ◌≤◌, ◌≡◌, refl, ap, sym, inl, inr, ◌⊎◌, Option, none, some, List, [], ◌∷◌, Member, arith, ltb,
  ltb→lt, not-ltb→le, Bool-cases, if◌then◌else◌, subst,
}
use native.Mathlib.Nat.{le_refl}
use bns_node.Did.{sub}
use bns_node.Did.Bias
use bns_node.Chord.{PeerRing, notify, notify_with, bias}

-- The known node from which the clockwise way to this one is shortest: the one of the greatest
-- distance. Without a predecessor no node is known.
abbrev pub IsLast : ℕ → (ℕ → Type 0) → Option ℕ → Type 0
IsLast self Known none = (d : ℕ) → ¬ Known d
IsLast self Known (some p) = Known p × ((d : ℕ) → Known d → sub d self ≤ sub p self)

IsLast-iff :
    (self : ℕ) (P Q : ℕ → Type 0) (o : Option ℕ)
    → ((d : ℕ) → P d → Q d)
    → ((d : ℕ) → Q d → P d)
    → IsLast self P o
    → IsLast self Q o
IsLast-iff self P Q none f g h = λ d q. h d (g d q)
IsLast-iff self P Q (some p) f g h = (f p h.0, λ d q. h.1 d (g d q))

-- The one of two candidates that lies behind the other, seen clockwise from the node.
abbrev winner : ℕ → Option ℕ → ℕ → ℕ
winner self none d = d
winner self (some p) d = if ltb (sub p self) (sub d self) then d else p

winner-IsLast :
    (self : ℕ) (Known : ℕ → Type 0) (o : Option ℕ) (d : ℕ)
    → IsLast self Known o
    → IsLast self (λ e. Known e ⊎ (e ≡ d)) (some (winner self o d))
winner-IsLast self Known none d h =
    (inr refl, λ e k. elim k [ inl q ↦ absurd (h e q) | inr q ↦ rw q (le_refl _) ])
winner-IsLast self Known (some p) d h = elim (Bool-cases (ltb (sub p self) (sub d self))) [
  | inl e ↦ rw e (
    inr refl,
    λ x k. elim k [
      | inl q ↦ omega (arith, ltb→lt (sub p self) (sub d self) e, h.1 x q)
      | inr q ↦ rw q (le_refl _)
    ],
  )
  | inr e ↦ rw e (
    inl h.0,
    λ x k. elim k [ inl q ↦ h.1 x q | inr q ↦ rw q (not-ltb→le (sub p self) (sub d self) e) ],
  )
]

module _ {S : Type 0} where
  notify_with-eq :
      (r : PeerRing S) (d : ℕ) (o : Option ℕ)
      → r.predecessor ≡ o
      → notify_with r d o ≡ (record r { predecessor = some (winner r.did o d) }, winner r.did o d)
  unfolding notify_with bias
  notify_with-eq r d none e = refl
  notify_with-eq r d (some p) e = elim (Bool-cases (ltb (sub p r.did) (sub d r.did))) [
    | inl q ↦ rw (Bias.lt-new r.did p d, q)
    | inr q ↦ rw (Bias.lt-new r.did p d, q) (λ i. (record r { predecessor = e i }, p))
  ]

  notify-eq :
      (r : PeerRing S) (d : ℕ)
      → notify r d ≡ (
        record r { predecessor = some (winner r.did r.predecessor d) },
        winner r.did r.predecessor d,
      )
  unfolding notify
  notify-eq r d = notify_with-eq r d r.predecessor refl

  -- A notification returns the predecessor that the node has afterwards, changes nothing else,
  -- and never gives up a predecessor for one that lies farther behind.
  pub notify_lem :
      (r : PeerRing S) (d : ℕ)
      → ((notify r d).0 ≡ record r { predecessor = some (notify r d).1 })
        × (((notify r d).1 ≡ d) ⊎ (r.predecessor ≡ some (notify r d).1))
        × (sub d r.did ≤ sub (notify r d).1 r.did)
        × ((p : ℕ) → r.predecessor ≡ some p → sub p r.did ≤ sub (notify r d).1 r.did)
  notify_lem r d =
      rw notify-eq (refl, which r.predecessor, behind r.predecessor, keeps r.predecessor)
    where
      which : (o : Option ℕ) → (winner r.did o d ≡ d) ⊎ (o ≡ some (winner r.did o d))
      which none = inl refl
      which (some p) = ground arith

      behind : (o : Option ℕ) → sub d r.did ≤ sub (winner r.did o d) r.did
      behind none = le_refl _
      behind (some p) = ground arith

      keeps : (o : Option ℕ) (p : ℕ) → o ≡ some p → sub p r.did ≤ sub (winner r.did o d) r.did
      keeps none p e = absurd (cc)
      keeps (some q) p e = ground arith

  -- One notification after the other.
  unfoldable pub notify_all : PeerRing S → List ℕ → PeerRing S
  notify_all r [] = r
  notify_all r (d ∷ ds) = notify_all (notify r d).0 ds

  notify_all-IsLast :
      (ds : List ℕ) (r : PeerRing S) (Known : ℕ → Type 0)
      → IsLast r.did Known r.predecessor
      → IsLast r.did (λ e. Known e ⊎ Member e ds) (notify_all r ds).predecessor
  unfolding notify_all
  notify_all-IsLast [] r Known h =
      IsLast-iff r.did Known (λ e. Known e ⊎ ⊥) r.predecessor (λ e k. inl k)
        (λ e k. elim k [ inl q ↦ q | inr q ↦ absurd q ]) h
  notify_all-IsLast (d ∷ ds) r Known h =
      subst
        (λ (t : PeerRing S).
          IsLast r.did (λ x. Known x ⊎ Member x (d ∷ ds)) (notify_all t ds).predecessor)
        (sym (ap (λ (p : PeerRing S × ℕ). p.0) (notify-eq r d)))
        (IsLast-iff r.did (λ x. (Known x ⊎ (x ≡ d)) ⊎ Member x ds)
          (λ x. Known x ⊎ Member x (d ∷ ds)) (notify_all next ds).predecessor
          (λ x m. elim m [
            | inl y ↦ elim y [ inl z ↦ inl z | inr z ↦ inr (inl z) ]
            | inr y ↦ inr (inr y)
          ])
          (λ x m. elim m [
            | inl y ↦ inl (inl y)
            | inr y ↦ elim y [ inl z ↦ inl (inr z) | inr z ↦ inr z ]
          ])
          (notify_all-IsLast ds next (λ x. Known x ⊎ (x ≡ d))
            (winner-IsLast r.did Known r.predecessor d h)))
    where
      next : PeerRing S
      next = record r { predecessor = some (winner r.did r.predecessor d) }

  -- Whatever nodes notify a node without a predecessor, in whatever order, it ends up with the
  -- one of them that lies closest behind it, or without one if there was none.
  pub notify_all_latest :
      (r : PeerRing S) (ds : List ℕ)
      → r.predecessor ≡ none
      → IsLast r.did (λ d. Member d ds) (notify_all r ds).predecessor
  notify_all_latest r ds e =
      IsLast-iff r.did (λ d. ⊥ ⊎ Member d ds) (λ d. Member d ds) (notify_all r ds).predecessor
        (λ d m. elim m [ inl x ↦ absurd x | inr x ↦ x ]) (λ d m. inr m)
        (notify_all-IsLast ds r (λ d. ⊥) (subst (IsLast r.did (λ d. ⊥)) (sym e) (λ d k. k)))
