-- ===== src/Finger/Closest.antt =====
-- `FingerTable::closest_predecessor`: which entry it picks, and that a lookup makes progress.
use bns_node.Common.{
  ℕ, zero, suc, ◌≤◌, ◌<◌, ◌≡◌, ◌≢◌, refl, ◌⊎◌, inl, inr, Option, none, some, List, length,
  get_elem?, arith, ltb, ◌==◌, Bool-cases, get_elem?-in_range, ok,
}
use bns_node.Did.{IsDid, sub}
use bns_node.Did.Ring.{sub_self, sub-eq-zero}
use bns_node.Did.Bias
use bns_node.Finger.{FingerTable, closest_loop, closest_predecessor}
use bns_node.Finger.Table.{IsValid}

-- No entry from `lo` up to `hi` is closer to the node than `did`.
abbrev pub NoneCloser : ℕ → ℕ → List (Option ℕ) → ℕ → ℕ → Type 0
NoneCloser self did f lo hi =
    (j v : ℕ) → lo ≤ j → j < hi → get_elem? f j ≡ some (some v) → sub did self ≤ sub v self

-- The pick of the entries below `n`: the node itself if no entry lies before `did`, or else the
-- entry of the highest index that does.
abbrev pub IsClosest : ℕ → ℕ → List (Option ℕ) → ℕ → ℕ → Type 0
IsClosest self did f n r =
    ((r ≡ self) × NoneCloser self did f 0 n)
    ⊎ ((i : ℕ) × (i < n)
        × (get_elem? f i ≡ some (some r))
        × (sub r self < sub did self)
        × NoneCloser self did f (suc i) n)

extend_none :
    (self did : ℕ) (f : List (Option ℕ)) (lo n : ℕ)
    → ((v : ℕ) → get_elem? f n ≡ some (some v) → sub did self ≤ sub v self)
    → NoneCloser self did f lo n
    → NoneCloser self did f lo (suc n)
extend_none self did f lo n top h j v p q e = elim (Bool-cases (j == n)) [
  | inl same ↦ top v (ground arith)
  | inr other ↦ h j v p (ground arith) e
]

extend-IsClosest :
    (self did : ℕ) (f : List (Option ℕ)) (n r : ℕ)
    → ((v : ℕ) → get_elem? f n ≡ some (some v) → sub did self ≤ sub v self)
    → IsClosest self did f n r
    → IsClosest self did f (suc n) r
extend-IsClosest self did f n r top (inl h) = inl (h.0, extend_none self did f 0 n top h.1)
extend-IsClosest self did f n r top (inr h) =
    inr (h.0, omega arith, h.2, h.3, extend_none self did f (suc h.0) n top h.4)

closest_loop-IsClosest :
    (self did : ℕ) (f : List (Option ℕ)) (n : ℕ)
    → n ≤ length f
    → (r : ℕ) × (closest_loop self did f n ≡ ok r) × IsClosest self did f n r
unfolding closest_loop Bias.bias
closest_loop-IsClosest self did f zero h =
    (self, refl, inl (refl, λ j v p q e. absurd (omega arith)))
closest_loop-IsClosest self did f (suc n) h =
    let (r, e, c) = closest_loop-IsClosest self did f n (omega arith) in
    let (o, found) = get_elem?-in_range f n (omega arith) in step r e c o found
  where
    step :
        (r : ℕ)
        → closest_loop self did f n ≡ ok r
        → IsClosest self did f n r
        → (o : Option ℕ) → get_elem? f n ≡ some o
        → (r : ℕ) × (closest_loop self did f (suc n) ≡ ok r) × IsClosest self did f (suc n) r
    step r e c none found = (r, ground arith, extend-IsClosest self did f n r (λ v q. cc) c)
    step r e c (some v) found = elim (Bool-cases (ltb (sub v self) (sub did self))) [
      | inl near ↦ (
        v,
        ground (arith, Bias.lt-new self v did),
        inr (n, omega arith, found, ground arith, λ j w p q. absurd (omega arith)),
      )
      | inr far ↦ (
        r,
        ground (arith, Bias.lt-new self v did),
        extend-IsClosest self did f n r (λ w q. ground arith) c,
      )
    ]

-- On a well-formed table the search returns: the node itself if no entry lies before `did`, and
-- else the entry of the highest index among those that lie strictly between the node and `did`.
pub closest_predecessor_lem :
    (t : FingerTable) (did : ℕ)
    → IsValid t
    → (r : ℕ) × (closest_predecessor t did ≡ ok r) × IsClosest t.did did t.finger t.size r
unfolding closest_predecessor
closest_predecessor_lem t did v =
    closest_loop-IsClosest t.did did t.finger t.size (omega (arith, v.full_length))

-- Every hop of a lookup gets closer: the node that is asked next lies strictly before the target
-- as this node sees the ring, unless the target is the node itself.
pub closest_predecessor_progress :
    (t : FingerTable) (did : ℕ)
    → IsValid t
    → IsDid did
    → did ≢ t.did
    → (r : ℕ) × (closest_predecessor t did ≡ ok r) × (sub r t.did < sub did t.did)
closest_predecessor_progress t did v h ne =
    let (r, e, c) = closest_predecessor_lem t did v in (r, e, closer r c)
  where
    apart : 0 < sub did t.did
    apart = ground (arith, sub-eq-zero did t.did h v.own)

    closer : (r : ℕ) → IsClosest t.did did t.finger t.size r → sub r t.did < sub did t.did
    closer r (inl c) = ground (arith, c.0, sub_self t.did v.own, apart)
    closer r (inr c) = c.3
