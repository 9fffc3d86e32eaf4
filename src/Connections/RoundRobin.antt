-- ===== src/Connections/RoundRobin.antt =====
-- crates/transport/src/core/pool.rs: channels that are taken in turn. Locks are left out.
use native.Mathlib.Nat.{mod-eq_of_lt, mod_self}
use bns_node.Common.{
  ℕ, zero, suc, ◌+◌, ◌-◌, ◌%◌, ◌^◌, ◌<◌, ◌≡◌, refl, ◌∙◌, ap, inl, inr, Bool, true, false, ◌&&◌,
  Option, none, some, List, [], ◌∷◌, ◌++◌, length, get_elem?, leb, leb→le, not-leb→lt, Bool-cases,
  Result, ok, panic, arith, if◌then◌else◌,
}

pub record RoundRobinPool (T : Type 0) : Type 0 where
  pub pool : List T
  pub idx : ℕ

module _ {T : Type 0} where
  abbrev pub from_vec : List T → RoundRobinPool T
  from_vec conns = record { pool = conns; idx = 0 }

  unfoldable pub push : RoundRobinPool T → T → RoundRobinPool T
  push p item = record p { pool = p.pool ++ item ∷ [] }

  -- `pool[idx]`
  abbrev at : Option T → Result T
  at none = panic
  at (some x) = ok x

  -- The remainder by the length of an empty pool panics, and so does the next index of the last usize.
  unfoldable pub select : RoundRobinPool T → RoundRobinPool T × Result T
  select p = elim p.pool [
    | [] ↦ (p, panic)
    | x ∷ rest ↦
        if leb (2 ^ 64) (p.idx + 1)
        then (p, panic)
        else (record p { idx = (p.idx + 1) % length p.pool }, at (get_elem? p.pool p.idx))
  ]

  unfoldable pub all : RoundRobinPool T → (T → Bool) → Bool
  all p statement = each p.pool
    where
      each : List T → Bool
      each [] = true
      each (x ∷ xs) = statement x && each xs

  -- The index is one of the pool, which is not longer than a usize tells.
  pub record IsValid (p : RoundRobinPool T) : Type 0 where
    pub inside : p.idx < length p.pool
    pub fits : length p.pool < 2 ^ 64

  unfoldable pub select_times : ℕ → RoundRobinPool T → RoundRobinPool T
  select_times zero p = p
  select_times (suc n) p = select_times n (select p).0

  selected :
      (l : List T) (i : ℕ)
      → i < length l
      → length l < 2 ^ 64
      → select (record { pool = l; idx = i })
        ≡ (record { pool = l; idx = (i + 1) % length l }, at (get_elem? l i))
  unfolding select
  selected [] i inside fits = absurd (omega arith)
  selected (x ∷ l) i inside fits =
      let low : leb (2 ^ 64) (i + 1) ≡ false = ground arith in rw low refl

  select_lem :
      (p : RoundRobinPool T)
      → IsValid p
      → select p ≡ (record p { idx = (p.idx + 1) % length p.pool }, at (get_elem? p.pool p.idx))
  select_lem p v = selected p.pool p.idx v.inside v.fits

  moved-IsValid :
      (p : RoundRobinPool T) (i : ℕ)
      → i < length p.pool
      → IsValid p
      → IsValid (record p { idx = i })
  moved-IsValid p i h v = record { inside = h; fits = v.fits }

  -- As long as the end is not reached, the index counts the selections.
  ahead :
      (n : ℕ) (p : RoundRobinPool T)
      → IsValid p
      → p.idx + n < length p.pool
      → select_times n p ≡ record p { idx = p.idx + n }
  unfolding select_times
  ahead zero p v h = ap (λ (i : ℕ). record p { idx = i }) (omega arith)
  ahead (suc n) p v h =
      let next = moved-IsValid p (p.idx + 1) (omega arith) v in
      let small : p.idx + 1 < length p.pool = omega arith in
      rw (select_lem p v, mod-eq_of_lt small)
        (ahead n (record p { idx = p.idx + 1 }) next (omega arith)
          ∙ ap (λ (i : ℕ). record p { idx = i }) (omega arith))

  select_times-add :
      (m n : ℕ) (p : RoundRobinPool T) → select_times (m + n) p ≡ select_times n (select_times m p)
  unfolding select_times
  select_times-add zero n p =
      let plus : zero + n ≡ n = omega arith in ap (λ (k : ℕ). select_times k p) plus
  select_times-add (suc m) n p =
      let plus : suc m + n ≡ suc (m + n) = omega arith in
      ap (λ (k : ℕ). select_times k p) plus ∙ select_times-add m n (select p).0

  once : (p : RoundRobinPool T) → select_times (suc zero) p ≡ (select p).0
  unfolding select_times
  once p = refl

  -- From the index on, the pool starts over.
  around :
      (p : RoundRobinPool T)
      → IsValid p
      → select_times (suc (length p.pool - suc p.idx)) p ≡ record p { idx = 0 }
  around p v =
      let m = length p.pool - suc p.idx in
      let plus : suc m ≡ m + suc zero = omega arith in
      let last = moved-IsValid p (p.idx + m) (omega arith) v in
      let full : p.idx + m + 1 ≡ length p.pool = omega arith in
      ap (λ (k : ℕ). select_times k p) plus
      ∙ select_times-add m (suc zero) p
      ∙ rw
          (
            ahead m p v (omega arith),
            once (record p { idx = p.idx + m }),
            select_lem (record p { idx = p.idx + m }) last,
          )
          (ap (λ (i : ℕ). record p { idx = i })
            (ap (λ (i : ℕ). i % length p.pool) full ∙ mod_self (length p.pool)))

  inside_of : (l : List T) (j : ℕ) (x : T) → get_elem? l j ≡ some x → j < length l
  inside_of [] j x e = absurd (cc)
  inside_of (y ∷ l) zero x e = omega arith
  inside_of (y ∷ l) (suc j) x e = let h = inside_of l j x e in omega arith

  taken :
      (p : RoundRobinPool T) (j : ℕ) (x : T)
      → IsValid p
      → get_elem? p.pool j ≡ some x
      → (select (record p { idx = j })).1 ≡ ok x
  taken p j x v e =
      rw (select_lem (record p { idx = j }) (moved-IsValid p j (inside_of p.pool j x e) v), e) refl

  -- No channel of a pool is left out: whichever one it is, it is taken after less selections than the
  -- pool has channels, from any index on.
  pub select_turn :
      (p : RoundRobinPool T) (j : ℕ) (x : T)
      → IsValid p
      → get_elem? p.pool j ≡ some x
      → (i : ℕ) × (i < length p.pool) × ((select (select_times i p)).1 ≡ ok x)
  select_turn p j x v e =
      let low = inside_of p.pool j x e in
      elim (Bool-cases (leb p.idx j)) [
        | inl before ↦
            let le = leb→le p.idx j before in
            let sum : p.idx + (j - p.idx) ≡ j = omega arith in
            (
              j - p.idx,
              omega arith,
              rw (ahead (j - p.idx) p v (omega arith), sum) (taken p j x v e),
            )
        | inr after ↦
            let lt = not-leb→lt p.idx j after in
            let none_before : 0 + j ≡ j = omega arith in
            let start = moved-IsValid p 0 (omega arith) v in
            (
              suc (length p.pool - suc p.idx) + j,
              omega arith,
              rw
                  (
                    select_times-add (suc (length p.pool - suc p.idx)) j p,
                    around p v,
                    ahead j (record p { idx = 0 }) start (omega arith),
                    none_before,
                  )
                  (taken p j x v e),
            )
      ]
