-- ===== src/Chunk/Rising.antt =====
-- Chunks of rising positions: how many there can be, and that sorting gives them.
use bns_node.Common.{
  ℕ, suc, ◌+◌, ◌-◌, ◌<◌, ◌≤◌, ◌≡◌, ◌≢◌, refl, ap, ap₂, sym, inl, inr, List, [], ◌∷◌, length, All,
  Member, All-imp, All-Member, All-of_Member, leb, leb→le, not-leb→lt, Bool-cases, ==_ne, arith,
}
use bns_node.Common.Sort.{insert_by, sort_by_key, All-insert_by, All-sort_by_key}
use bns_node.Chunk.{Chunk, ChunkMeta, numbered, dedup, dedup_after}

abbrev pub at : Chunk → ℕ
at c = c.position

abbrev pub IsApart : List Chunk → Type 0
IsApart [] = Unit
IsApart (c ∷ cs) = All (λ d. at c ≢ at d) cs × IsApart cs

abbrev pub IsStrict : List Chunk → Type 0
IsStrict [] = Unit
IsStrict (c ∷ cs) = All (λ d. at c < at d) cs × IsStrict cs

insert_by-IsStrict :
    (c : Chunk) (cs : List Chunk)
    → All (λ d. at c ≢ at d) cs
    → IsStrict cs
    → IsStrict (insert_by at c cs)
unfolding insert_by
insert_by-IsStrict c [] ne h = (tt, tt)
insert_by-IsStrict c (d ∷ cs) ne h = elim (Bool-cases (leb (at c) (at d))) [
  | inl e ↦
      let lt : at c < at d = omega (arith, leb→le (at c) (at d) e, ne.0) in
      rw e (
        (lt, All-imp (λ x. at d < at x) (λ x. at c < at x) (λ x q. omega (arith, lt, q)) cs h.0),
        h,
      )
  | inr e ↦ rw e (
    All-insert_by at (λ x. at d < at x) c cs (not-leb→lt (at c) (at d) e) h.0,
    insert_by-IsStrict c cs ne.1 h.1,
  )
]

pub sort-IsStrict : (cs : List Chunk) → IsApart cs → IsStrict (sort_by_key at cs)
unfolding sort_by_key
sort-IsStrict [] h = tt
sort-IsStrict (c ∷ cs) h =
    insert_by-IsStrict c (sort_by_key at cs) (All-sort_by_key at (λ d. at c ≢ at d) cs h.0)
      (sort-IsStrict cs h.1)

dedup_after-IsApart :
    (last : ℕ) (cs : List Chunk) → All (λ d. last ≢ at d) cs → IsApart cs → dedup_after last cs ≡ cs
unfolding dedup_after
dedup_after-IsApart last [] ne h = refl
dedup_after-IsApart last (c ∷ cs) ne h =
    rw (dedup_after, ==_ne (at c) last (λ e. ne.0 (sym e)))
      (ap (λ (l : List Chunk). c ∷ l) (dedup_after-IsApart (at c) cs h.0 h.1))

pub dedup-IsApart : (cs : List Chunk) → IsApart cs → dedup cs ≡ cs
unfolding dedup
dedup-IsApart [] h = refl
dedup-IsApart (c ∷ cs) h = ap (λ (l : List Chunk). c ∷ l) (dedup_after-IsApart (at c) cs h.0 h.1)

-- Positions that rise from `lo` on and stay below `hi` are few.
length-IsStrict :
    (cs : List Chunk) (lo hi : ℕ)
    → IsStrict cs
    → All (λ c. lo ≤ at c) cs
    → All (λ c. at c < hi) cs
    → length cs ≤ hi - lo
length-IsStrict [] lo hi s low high = omega arith
length-IsStrict (c ∷ cs) lo hi s low high =
    let rest =
      length-IsStrict cs (suc lo) hi s.1
        (All-imp (λ d. at c < at d) (λ d. suc lo ≤ at d) (λ d q. omega (arith, low.0, q)) cs s.0)
        high.1 in
    omega (arith, rest, low.0, high.0)

module _ (meta : ChunkMeta) (total : ℕ) where
  pub numbered_range :
      (i : ℕ) (ps : List (List ℕ)) (c : Chunk)
      → Member c (numbered meta total i ps)
      → (i ≤ at c) × (at c < i + length ps)
  unfolding numbered
  numbered_range i [] c m = absurd m
  numbered_range i (p ∷ ps) c (inl e) = rw e (omega arith, omega arith)
  numbered_range i (p ∷ ps) c (inr m) =
      let (low, high) = numbered_range (suc i) ps c m in (omega arith, omega arith)

  -- A strictly rising list of as many chunks as there are pieces, all of them among the pieces, is
  -- the list of the pieces.
  pub numbered-IsStrict :
      (i : ℕ) (ps : List (List ℕ)) (cs : List Chunk)
      → IsStrict cs
      → All (λ c. Member c (numbered meta total i ps)) cs
      → length cs ≡ length ps
      → cs ≡ numbered meta total i ps
  unfolding numbered
  numbered-IsStrict i [] [] s ms e = refl
  numbered-IsStrict i [] (c ∷ cs) s ms e = absurd (ms.0)
  numbered-IsStrict i (p ∷ ps) [] s ms e = absurd (omega arith)
  numbered-IsStrict i (p ∷ ps) (c ∷ cs) s (inr m, ms) e =
      let (low, high) = numbered_range (suc i) ps c m in
      let few =
        length-IsStrict (c ∷ cs) (suc i) (suc i + length ps) s
          (
            low,
            All-imp (λ d. at c < at d) (λ d. suc i ≤ at d) (λ d q. omega (arith, low, q)) cs s.0,
          )
          (
            high,
            All-imp (λ d. Member d (numbered meta total i (p ∷ ps))) (λ d. at d < suc i + length ps)
                (λ d q. omega (arith, (numbered_range i (p ∷ ps) d q).1)) cs ms,
          ) in
      absurd (omega (arith, few, e))
  numbered-IsStrict i (p ∷ ps) (c ∷ cs) s (inl q, ms) e =
      ap₂ (λ (x : Chunk) (l : List Chunk). x ∷ l) q
        (numbered-IsStrict (suc i) ps cs s.1
          (All-of_Member (λ d. Member d (numbered meta total (suc i) ps)) cs later) (omega arith))
    where
      later : (d : Chunk) → Member d cs → Member d (numbered meta total (suc i) ps)
      later d m = elim (All-Member (λ x. Member x (numbered meta total i (p ∷ ps))) d cs ms m) [
        | inl same ↦
            absurd (omega (arith, All-Member (λ x. at c < at x) d cs s.0 m, ap at same, ap at q))
        | inr rest ↦ rest
      ]
