-- ===== src/Successor/Ordered.antt =====
-- Lists in strictly rising order of a key, what inserting and truncating do to them, and that
-- their members determine them.

use bns_node.Common.{
  ℕ, zero, suc, ◌≤◌, ◌<◌, ◌≡◌, ◌≢◌, refl, ap, ap₂, sym, inl, inr, ◌⊎◌, List, [], ◌∷◌, ◌++◌, All,
  Member, length, take, arith, leb, if◌then◌else◌, Bool-cases, leb→le, not-leb→lt, lt→not-leb,
  All-imp, All-Member, All-take, All-without, without, ◌==◌, subst,
}
use bns_node.Common.Sort.{insert_by, sort_by_key, insert_by-head, All-insert_by}

module _ (key : ℕ → ℕ) where
  abbrev pub IsRising : List ℕ → Type 0
  IsRising [] = Unit
  IsRising (x ∷ xs) = All (λ y. key x < key y) xs × IsRising xs

  pub All-of-lt :
      (a b : ℕ) (xs : List ℕ)
      → key a < key b
      → All (λ y. key b < key y) xs
      → All (λ y. key a < key y) xs
  All-of-lt a b xs h = All-imp (λ y. key b < key y) (λ y. key a < key y) (λ y q. omega arith) xs

  pub insert_by-IsRising :
      (d : ℕ) (xs : List ℕ)
      → All (λ y. key d ≢ key y) xs
      → IsRising xs
      → IsRising (insert_by key d xs)
  unfolding insert_by
  insert_by-IsRising d [] ne h = (tt, tt)
  insert_by-IsRising d (x ∷ xs) ne h = elim (Bool-cases (leb (key d) (key x))) [
    | inl e ↦ rw e (
        let lt : key d < key x = omega (arith, leb→le (key d) (key x) e, ne.0) in
        ((lt, All-of-lt d x xs lt h.0), h))
    | inr e ↦ rw e (
      All-insert_by key (λ y. key x < key y) d xs (not-leb→lt (key d) (key x) e) h.0,
      insert_by-IsRising d xs ne.1 h.1,
    )
  ]

  -- Sorting a rising list with one more element at its end inserts that element.
  pub sort_by_key-snoc :
      (d : ℕ) (xs : List ℕ)
      → All (λ y. key d ≢ key y) xs
      → IsRising xs
      → sort_by_key key (xs ++ d ∷ []) ≡ insert_by key d xs
  unfolding sort_by_key insert_by
  sort_by_key-snoc d [] ne h = refl
  sort_by_key-snoc d (x ∷ xs) ne h = rw (sort_by_key-snoc d xs ne.1 h.1) (swap d x xs ne.0 h)
    where
      weaken : (a : ℕ) (ys : List ℕ) → All (λ y. key a < key y) ys → All (λ y. key a ≤ key y) ys
      weaken a = All-imp (λ y. key a < key y) (λ y. key a ≤ key y) (λ y q. omega arith)

      swap :
          (d x : ℕ) (xs : List ℕ)
          → key d ≢ key x
          → IsRising (x ∷ xs)
          → insert_by key x (insert_by key d xs)
            ≡ (if leb (key d) (key x) then d ∷ x ∷ xs else x ∷ insert_by key d xs)
      swap d x xs ne h = elim (Bool-cases (leb (key d) (key x))) [
        | inl e ↦
            let lt : key d < key x = omega (arith, leb→le (key d) (key x) e, ne) in
            rw (e, insert_by-head key d xs (weaken d xs (All-of-lt d x xs lt h.0)))
              (rw (lt→not-leb (key x) (key d) lt)
                (ap (λ (ys : List ℕ). d ∷ ys) (insert_by-head key x xs (weaken x xs h.0))))
        | inr e ↦ rw e (
            insert_by-head key x (insert_by key d xs) (
              All-insert_by key (λ y. key x ≤ key y) d xs
                (omega (arith, not-leb→lt (key d) (key x) e)) (weaken x xs h.0)))
      ]

  pub Member-insert_by :
      (v d : ℕ) (xs : List ℕ) → Member v (insert_by key d xs) → (v ≡ d) ⊎ Member v xs
  unfolding insert_by
  Member-insert_by v d [] = λ m. m
  Member-insert_by v d (x ∷ xs) = elim (Bool-cases (leb (key d) (key x))) [
    | inl e ↦ rw e λ m. m
    | inr e ↦ rw e λ m. elim m [
      | inl p ↦ inr (inl p)
      | inr p ↦ elim (Member-insert_by v d xs p) [ inl q ↦ inl q | inr q ↦ inr (inr q) ]
    ]
  ]

  pub insert_by-Member :
      (v d : ℕ) (xs : List ℕ) → (v ≡ d) ⊎ Member v xs → Member v (insert_by key d xs)
  unfolding insert_by
  insert_by-Member v d [] m = m
  insert_by-Member v d (x ∷ xs) m = elim (Bool-cases (leb (key d) (key x))) [
    | inl e ↦ rw e m
    | inr e ↦ rw e (elim m [
      | inl p ↦ inr (insert_by-Member v d xs (inl p))
      | inr p ↦ elim p [ inl q ↦ inl q | inr q ↦ inr (insert_by-Member v d xs (inr q)) ]
    ])
  ]

  pub Member-take : (v n : ℕ) (xs : List ℕ) → Member v (take n xs) → Member v xs
  Member-take v zero xs m = absurd m
  Member-take v (suc n) [] m = absurd m
  Member-take v (suc n) (x ∷ xs) (inl e) = inl e
  Member-take v (suc n) (x ∷ xs) (inr m) = inr (Member-take v n xs m)

  pub take-IsRising : (n : ℕ) (xs : List ℕ) → IsRising xs → IsRising (take n xs)
  take-IsRising zero xs h = tt
  take-IsRising (suc n) [] h = tt
  take-IsRising (suc n) (x ∷ xs) h =
      (All-take (λ y. key x < key y) n xs h.0, take-IsRising n xs h.1)

  -- A member is among the first `n`, or these are full and all before it.
  pub take-cases :
      (v n : ℕ) (xs : List ℕ)
      → IsRising xs
      → Member v xs
      → Member v (take n xs) ⊎ ((length (take n xs) ≡ n) × All (λ y. key y < key v) (take n xs))
  take-cases v zero xs h m = inr (refl, tt)
  take-cases v (suc n) [] h m = absurd m
  take-cases v (suc n) (x ∷ xs) h (inl e) = inl (inl e)
  take-cases v (suc n) (x ∷ xs) h (inr m) = elim (take-cases v n xs h.1 m) [
    | inl p ↦ inl (inr p)
    | inr p ↦ inr (ap suc p.0, (All-Member (λ y. key x < key y) v xs h.0 m, p.1))
  ]

  -- A rising list within another one, all before a member of that one, is shorter.
  pub length-lt :
      (v : ℕ) (xs ys : List ℕ)
      → IsRising xs
      → IsRising ys
      → All (λ x. Member x ys) xs
      → All (λ x. key x < key v) xs
      → Member v ys
      → length xs < length ys
  length-lt v xs [] hx hy sub before m = absurd m
  length-lt v [] (y ∷ ys) hx hy sub before m = omega arith
  length-lt v (x ∷ xs) (y ∷ ys) hx hy sub before (inl e) = absurd (first sub.0)
    where
      first : Member x (y ∷ ys) → ⊥
      first (inl p) = ground (arith, before.0, ap key p, ap key e)
      first (inr p) = omega (arith, before.0, ap key e, All-Member (λ z. key y < key z) x ys hy.0 p)
  length-lt v (x ∷ xs) (y ∷ ys) hx hy sub before (inr m) = elim sub.0 [
    | inl e ↦
        let shorter =
          length-lt v xs ys hx.1 hy.1
            (behind xs (subst (λ a. All (λ z. key a < key z) xs) e hx.0) sub.1) before.1 m in
        omega arith
    | inr p ↦
        let lt : key y < key x = All-Member (λ z. key y < key z) x ys hy.0 p in
        let shorter =
          length-lt v (x ∷ xs) ys hx hy.1 (p, behind xs (All-of-lt y x xs lt hx.0) sub.1) before
            m in
        omega arith
  ]
    where
      behind :
          (zs : List ℕ)
          → All (λ z. key y < key z) zs
          → All (λ z. Member z (y ∷ ys)) zs
          → All (λ z. Member z ys) zs
      behind [] h q = tt
      behind (z ∷ zs) h q = (
        elim q.0 [ inl e ↦ absurd (ground (arith, h.0, ap key e)) | inr r ↦ r ],
        behind zs h.1 q.1,
      )

  -- Rising lists with the same members are equal.
  pub rising_ext :
      (xs ys : List ℕ)
      → IsRising xs
      → IsRising ys
      → ((v : ℕ) → Member v xs → Member v ys)
      → ((v : ℕ) → Member v ys → Member v xs)
      → xs ≡ ys
  rising_ext [] [] hx hy f g = refl
  rising_ext [] (y ∷ ys) hx hy f g = absurd (g y (inl refl))
  rising_ext (x ∷ xs) [] hx hy f g = absurd (f x (inl refl))
  rising_ext (x ∷ xs) (y ∷ ys) hx hy f g = ap₂ ◌∷◌ heads (
      rising_ext xs ys hx.1 hy.1
        (λ v m.
          below_head v x y ys (All-Member (λ z. key x < key z) v xs hx.0 m) heads (f v (inr m)))
        (λ v m.
          below_head v y x xs (All-Member (λ z. key y < key z) v ys hy.0 m) (sym heads)
            (g v (inr m))))
    where
      meet : Member x (y ∷ ys) → Member y (x ∷ xs) → x ≡ y
      meet (inl e) n = e
      meet (inr m) (inl e) = sym e
      meet (inr m) (inr n) = absurd (
          omega (
            arith,
            All-Member (λ z. key y < key z) x ys hy.0 m,
            All-Member (λ z. key x < key z) y xs hx.0 n,
          ))

      heads : x ≡ y
      heads = meet (f x (inl refl)) (g y (inl refl))

      below_head :
          (v a b : ℕ) (bs : List ℕ) → key a < key v → a ≡ b → Member v (b ∷ bs) → Member v bs
      below_head v a b bs lt e (inl p) = absurd (ground (arith, lt, ap key e, ap key p))
      below_head v a b bs lt e (inr m) = m

  pub without-IsRising : (d : ℕ) (xs : List ℕ) → IsRising xs → IsRising (without xs d)
  unfolding without
  without-IsRising d [] h = tt
  without-IsRising d (x ∷ xs) h = elim (Bool-cases (x == d)) [
    | inl e ↦ rw e (without-IsRising d xs h.1)
    | inr e ↦ rw e (All-without (λ y. key x < key y) xs d h.0, without-IsRising d xs h.1)
  ]
