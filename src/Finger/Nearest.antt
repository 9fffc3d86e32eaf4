-- ===== src/Finger/Nearest.antt =====
-- What a finger table is for: after any nodes have joined, entry `k` is the first of them at
-- clockwise distance 2 ^ k or more, in whatever order they joined.
use mathlib.Core.Option
use native.Mathlib.Nat.{le_refl}
use bns_node.Common.{
  ℕ, ◌^◌, ◌≤◌, ◌<◌, ◌≡◌, refl, ap, ◌∙◌, inl, inr, ◌⊎◌, Option, none, some, List, [], ◌∷◌, All,
  Member, get_elem?, arith, ltb, Bool-cases, subst, get_elem?-replicate, Result, ok, ◌>>=◌,
}
use bns_node.Did.{IsDid, from_biguint, sub}
use bns_node.Finger.{FingerTable, new, join}
use bns_node.Finger.Join.{joined, from_biguint-pow}
use bns_node.Finger.Table.{IsValid, new-IsValid, join_entries}

-- Nodes join one after the other.
unfoldable pub join_all : FingerTable → List ℕ → Result FingerTable
join_all t [] = ok t
join_all t (d ∷ ds) = join t d >>= λ t'. join_all t' ds

-- The entry `o` is the known node that follows `self + 2 ^ k` most closely, or is empty because
-- no known node is that far away.
abbrev pub IsNearest : ℕ → ℕ → (ℕ → Type 0) → Option ℕ → Type 0
IsNearest self k Known none = (d : ℕ) → Known d → sub d self < 2 ^ k
IsNearest self k Known (some v) =
    Known v
    × (2 ^ k ≤ sub v self)
    × ((d : ℕ) → Known d → 2 ^ k ≤ sub d self → sub v self ≤ sub d self)

abbrev pub Or : (ℕ → Type 0) → ℕ → ℕ → Type 0
Or Known d e = Known e ⊎ (e ≡ d)

joined-IsNearest :
    (self d k : ℕ) (Known : ℕ → Type 0) (o : Option ℕ)
    → k < 160
    → IsNearest self k Known o
    → IsNearest self k (Or Known d) (joined self d k o)
unfolding joined
joined-IsNearest self d k Known none hk h =
    elim (Bool-cases (ltb (sub d self) (from_biguint (2 ^ k)))) [
      | inl short ↦
          rw short λ e m. elim m [
            | inl old ↦ h e old
            | inr new ↦ ground (arith, new, from_biguint-pow k hk)
          ]
      | inr far ↦ rw far (
        inr refl,
        ground (arith, from_biguint-pow k hk),
        λ e m q. elim m [
          | inl old ↦ absurd (omega (arith, h e old))
          | inr new ↦ rw new (le_refl _)
        ],
      )
    ]
joined-IsNearest self d k Known (some v) hk h =
    elim (Bool-cases (ltb (sub d self) (from_biguint (2 ^ k)))) [
      | inl short ↦ rw short (
        inl h.0,
        h.1,
        λ e m q. elim m [
          | inl old ↦ h.2 e old q
          | inr new ↦ absurd (ground (arith, ap (λ (x : ℕ). sub x self) new, from_biguint-pow k hk))
        ],
      )
      | inr far ↦ elim (Bool-cases (ltb (sub v self) (sub d self))) [
        | inl keep ↦
            rw (far, keep)
              (
                inl h.0,
                h.1,
                λ e m q. elim m [
                  | inl old ↦ h.2 e old q
                  | inr new ↦ ground (arith, ap (λ (x : ℕ). sub x self) new)
                ],
              )
        | inr take ↦
            rw (far, take)
              (
                inr refl,
                ground (arith, from_biguint-pow k hk),
                λ e m q. elim m [
                  | inl old ↦ ground (arith, h.2 e old q)
                  | inr new ↦ rw new (le_refl _)
                ],
              )
      ]
    ]

IsNearest-iff :
    (self k : ℕ) (P Q : ℕ → Type 0) (o : Option ℕ)
    → ((d : ℕ) → P d → Q d)
    → ((d : ℕ) → Q d → P d)
    → IsNearest self k P o
    → IsNearest self k Q o
IsNearest-iff self k P Q none f g h = λ d q. h d (g d q)
IsNearest-iff self k P Q (some v) f g h = (f v h.0, h.1, λ d q. h.2 d (g d q))

-- All entries of a table of the node are the nearest known ones.
unfoldable pub AllNearest : FingerTable → (ℕ → Type 0) → Type 0
AllNearest t Known =
    (k : ℕ)
    → k < t.size
    → (o : Option ℕ) × (get_elem? t.finger k ≡ some o) × IsNearest t.did k Known o

pub join-AllNearest :
    (t : FingerTable) (d : ℕ) (Known : ℕ → Type 0)
    → IsDid d
    → IsValid t
    → AllNearest t Known
    → (f : List (Option ℕ)) × (join t d ≡ ok (record t { finger = f }))
      × IsValid (record t { finger = f })
      × AllNearest (record t { finger = f }) (Or Known d)
unfolding AllNearest
join-AllNearest t d Known hd v h =
    let (f, returns, valid, entry) = join_entries t d hd v in
    (
      f,
      returns,
      valid,
      λ k hk.
          let (o, e, near) = h k hk in
          (
            joined t.did d k o,
            entry k hk ∙ ap (Option.map (joined t.did d k)) e,
            joined-IsNearest t.did d k Known o (omega (arith, v.fits)) near,
          ),
    )

join_all-AllNearest :
    (ds : List ℕ) (t : FingerTable) (Known : ℕ → Type 0)
    → All IsDid ds
    → IsValid t
    → AllNearest t Known
    → (t' : FingerTable) × (join_all t ds ≡ ok t')
      × IsValid t'
      × (t'.did ≡ t.did)
      × (t'.size ≡ t.size)
      × AllNearest t' (λ e. Known e ⊎ Member e ds)
unfolding join_all AllNearest
join_all-AllNearest [] t Known hs v h = (
  t,
  refl,
  v,
  refl,
  refl,
  λ k hk.
      let (o, e, near) = h k hk in
      (
        o,
        e,
        IsNearest-iff t.did k Known (λ d. Known d ⊎ ⊥) o (λ d m. inl m)
            (λ d m. elim m [ inl x ↦ x | inr x ↦ absurd x ]) near,
      ),
)
join_all-AllNearest (d ∷ ds) t Known hs v h =
    let (f, returns, valid, next) = join-AllNearest t d Known hs.0 v h in
    let (t', e, valid', same, size, near) =
      join_all-AllNearest ds (record t { finger = f }) (Or Known d) hs.1 valid next in
    (
      t',
      rw returns e,
      valid',
      same,
      size,
      λ k hk.
          let (o, found, n) = near k hk in
          (
            o,
            found,
            IsNearest-iff t'.did k (λ x. Or Known d x ⊎ Member x ds)
                (λ x. Known x ⊎ Member x (d ∷ ds)) o
                (λ x m. elim m [
                  | inl y ↦ elim y [ inl z ↦ inl z | inr z ↦ inr (inl z) ]
                  | inr y ↦ inr (inr y)
                ])
                (λ x m. elim m [
                  | inl y ↦ inl (inl y)
                  | inr y ↦ elim y [ inl z ↦ inl (inr z) | inr z ↦ inr z ]
                ])
                n,
          ),
    )

-- Whatever nodes join a new table of at most 160 entries, and in whatever order, no join panics
-- and every entry `k` holds the joined node at clockwise distance 2 ^ k or more that is nearest
-- to the table's owner, or is empty if no joined node is that far away.
pub join_all_nearest :
    (did size : ℕ) (ds : List ℕ)
    → IsDid did
    → size ≤ 160
    → All IsDid ds
    → (t : FingerTable) × (join_all (new did size) ds ≡ ok t)
      × IsValid t
      × ((k : ℕ)
          → k < size
          → (o : Option ℕ) × (get_elem? t.finger k ≡ some o) × IsNearest did k (λ d. Member d ds) o)
unfolding AllNearest new
join_all_nearest did size ds hd hs h =
    let (t, e, v, own, sz, near) =
      join_all-AllNearest ds (new did size) (λ d. ⊥) h (new-IsValid did size hd hs)
        (λ k hk. (none, get_elem?-replicate size none k hk, λ d m. absurd m)) in
    (
      t,
      e,
      v,
      λ k hk.
          let (o, found, n) = near k (omega (arith, sz)) in
          (
            o,
            found,
            subst (λ s. IsNearest s k (λ d. Member d ds) o) own
                (IsNearest-iff t.did k (λ d. ⊥ ⊎ Member d ds) (λ d. Member d ds) o
                  (λ d m. elim m [ inl x ↦ absurd x | inr x ↦ x ]) (λ d m. inr m) n),
          ),
    )
