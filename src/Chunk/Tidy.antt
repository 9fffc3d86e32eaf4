-- ===== src/Chunk/Tidy.antt =====
-- `formalize` of crates/core/src/chunk.rs: which chunks it keeps, and in which order.
use bns_node.Common.{
  ℕ, ◌<◌, ◌≤◌, ◌≡◌, ◌≢◌, refl, ap, inl, inr, ◌⊎◌, List, [], ◌∷◌, All, Member, All-imp, All-Member,
  All-of_Member, leb, Bool-cases, ◌==◌, arith,
}
use bns_node.Common.Sort.{insert_by, sort_by_key, IsSorted, All-sort_by_key, sort_by_key-IsSorted}
use bns_node.Chunk.{Chunk, dedup, dedup_after, formalize}
use bns_node.Chunk.Rising.{at, IsApart, IsStrict, sort-IsStrict}

-- Chunks of one position are one chunk.
abbrev pub IsCopies : List Chunk → Type 0
IsCopies cs = (c d : Chunk) → Member c cs → Member d cs → at c ≡ at d → c ≡ d

pub Member-sort : (c : Chunk) (cs : List Chunk) → Member c (sort_by_key at cs) → Member c cs
Member-sort c cs m =
    All-Member (λ d. Member d cs) c (sort_by_key at cs)
      (All-sort_by_key at (λ d. Member d cs) cs (All-of_Member (λ d. Member d cs) cs λ d q. q)) m

insert-Member : (d c : Chunk) (cs : List Chunk) → Member d (c ∷ cs) → Member d (insert_by at c cs)
unfolding insert_by
insert-Member d c [] m = m
insert-Member d c (e ∷ cs) m = elim (Bool-cases (leb (at c) (at e))) [
  | inl q ↦ rw q m
  | inr q ↦ rw q (elim m [
    | inl same ↦ inr (insert-Member d c cs (inl same))
    | inr (inl same) ↦ inl same
    | inr (inr later) ↦ inr (insert-Member d c cs (inr later))
  ])
]

sort-Member : (d : Chunk) (cs : List Chunk) → Member d cs → Member d (sort_by_key at cs)
unfolding sort_by_key
sort-Member d [] m = m
sort-Member d (c ∷ cs) (inl e) = insert-Member d c (sort_by_key at cs) (inl e)
sort-Member d (c ∷ cs) (inr m) = insert-Member d c (sort_by_key at cs) (inr (sort-Member d cs m))

Member-dedup_after :
    (last : ℕ) (d : Chunk) (cs : List Chunk) → Member d (dedup_after last cs) → Member d cs
unfolding dedup_after
Member-dedup_after last d [] = λ m. m
Member-dedup_after last d (c ∷ cs) = elim (Bool-cases (at c == last)) [
  | inl e ↦ rw (dedup_after, e) λ m. inr (Member-dedup_after last d cs m)
  | inr e ↦
      rw (dedup_after, e)
        λ m. elim m [ inl same ↦ inl same | inr later ↦ inr (Member-dedup_after (at c) d cs later) ]
]

Member-dedup : (d : Chunk) (cs : List Chunk) → Member d (dedup cs) → Member d cs
unfolding dedup
Member-dedup d [] m = m
Member-dedup d (c ∷ cs) (inl e) = inl e
Member-dedup d (c ∷ cs) (inr m) = inr (Member-dedup_after (at c) d cs m)

tail-IsCopies : (c : Chunk) (cs : List Chunk) → IsCopies (c ∷ cs) → IsCopies cs
tail-IsCopies c cs h x y p q e = h x y (inr p) (inr q) e

-- What is dropped has the position of one that is kept.
dedup_after-Member :
    (last : ℕ) (d : Chunk) (cs : List Chunk)
    → IsCopies cs
    → Member d cs
    → (at d ≡ last) ⊎ Member d (dedup_after last cs)
unfolding dedup_after
dedup_after-Member last d [] h m = absurd m
dedup_after-Member last d (c ∷ cs) h m = elim (Bool-cases (at c == last)) [
  | inl e ↦
      rw (dedup_after, e)
        (elim m [
          | inl same ↦ inl (ground (arith, ap at same))
          | inr later ↦ dedup_after-Member last d cs (tail-IsCopies c cs h) later
        ])
  | inr e ↦
      rw (dedup_after, e)
        (elim m [
          | inl same ↦ inr (inl same)
          | inr later ↦ elim (dedup_after-Member (at c) d cs (tail-IsCopies c cs h) later) [
            | inl level ↦ inr (inl (h d c (inr later) (inl refl) level))
            | inr kept ↦ inr (inr kept)
          ]
        ])
]

dedup-Member : (d : Chunk) (cs : List Chunk) → IsCopies cs → Member d cs → Member d (dedup cs)
unfolding dedup
dedup-Member d [] h m = m
dedup-Member d (c ∷ cs) h (inl e) = inl e
dedup-Member d (c ∷ cs) h (inr m) = elim (dedup_after-Member (at c) d cs (tail-IsCopies c cs h) m) [
  | inl level ↦ inl (h d c (inr m) (inl refl) level)
  | inr kept ↦ inr kept
]

pub Member-formalize : (d : Chunk) (cs : List Chunk) → Member d (formalize cs) → Member d cs
unfolding formalize
Member-formalize d cs m = Member-dedup d cs (Member-sort d (dedup cs) m)

pub formalize-Member :
    (d : Chunk) (cs : List Chunk) → IsCopies cs → Member d cs → Member d (formalize cs)
unfolding formalize
formalize-Member d cs h m = sort-Member d (dedup cs) (dedup-Member d cs h m)

dedup_after-IsStrict :
    (last : ℕ) (cs : List Chunk)
    → All (λ c. last ≤ at c) cs
    → IsSorted at cs
    → All (λ c. last < at c) (dedup_after last cs) × IsStrict (dedup_after last cs)
unfolding dedup_after
dedup_after-IsStrict last [] low s = (tt, tt)
dedup_after-IsStrict last (c ∷ cs) low s = elim (Bool-cases (at c == last)) [
  | inl e ↦ rw (dedup_after, e) (dedup_after-IsStrict last cs low.1 s.1)
  | inr e ↦
      let (above, strict) = dedup_after-IsStrict (at c) cs s.0 s.1 in
      let over : last < at c = ground (arith, low.0) in
      rw (dedup_after, e)
        (
          (
            over,
            All-imp (λ d. at c < at d) (λ d. last < at d) (λ d q. omega (arith, over, q))
                (dedup_after (at c) cs) above,
          ),
          (above, strict),
        )
]

dedup-IsStrict : (cs : List Chunk) → IsSorted at cs → IsStrict (dedup cs)
unfolding dedup
dedup-IsStrict [] s = tt
dedup-IsStrict (c ∷ cs) s = dedup_after-IsStrict (at c) cs s.0 s.1

IsStrict-IsApart : (cs : List Chunk) → IsStrict cs → IsApart cs
IsStrict-IsApart [] s = tt
IsStrict-IsApart (c ∷ cs) s = (
  All-imp (λ d. at c < at d) (λ d. at c ≢ at d) (λ d q e. omega (arith, q, e)) cs s.0,
  IsStrict-IsApart cs s.1,
)

-- To be formalized twice leaves no copy.
pub formalize-IsStrict : (cs : List Chunk) → IsStrict (formalize (formalize cs))
unfolding formalize
formalize-IsStrict cs =
    let once = sort_by_key at (dedup cs) in
    sort-IsStrict (dedup once)
      (IsStrict-IsApart (dedup once) (dedup-IsStrict once (sort_by_key-IsSorted at (dedup cs))))
