-- ===== src/Chunk/Copies.antt =====
-- Chunks that come more than once, in crates/core/src/chunk.rs.
use bns_node.Common.{
  ℕ, suc, ◌<◌, ◌≡◌, ◌≢◌, refl, ap, ap₂, sym, inl, inr, true, some, none, List, [], ◌∷◌, length, All,
  Member, All-Member, All-of_Member, Bool-cases, arith, subst, ◌∙◌, Result, ok,
}
use bns_node.Chunk.{
  Chunk, ChunkMeta, numbered, pieces_of, from_bytes, formalize, is_full, try_withdraw, is_completed,
  only, search, get,
}
use bns_node.Chunk.Rising.{at, IsStrict, numbered-IsStrict, numbered_range}
use bns_node.Chunk.Whole.{chunks_of, chunks_of-joined, chunks_of-full, try_withdraw-full}
use bns_node.Chunk.Tidy.{IsCopies, Member-formalize, formalize-Member, formalize-IsStrict}

module _ (meta : ChunkMeta) (total : ℕ) where
  numbered-IsCopies : (i : ℕ) (ps : List (List ℕ)) → IsCopies (numbered meta total i ps)
  unfolding numbered
  numbered-IsCopies i [] c d p q e = absurd p
  numbered-IsCopies i (a ∷ ps) c d (inl p) (inl q) e = p ∙ sym q
  numbered-IsCopies i (a ∷ ps) c d (inl p) (inr q) e =
      absurd (omega (arith, ap at p, e, (numbered_range meta total (suc i) ps d q).0))
  numbered-IsCopies i (a ∷ ps) c d (inr p) (inl q) e =
      absurd (omega (arith, ap at q, e, (numbered_range meta total (suc i) ps c p).0))
  numbered-IsCopies i (a ∷ ps) c d (inr p) (inr q) e = numbered-IsCopies (suc i) ps c d p q e

  numbered_order : (i : ℕ) (ps : List (List ℕ)) → IsStrict (numbered meta total i ps)
  unfolding numbered
  numbered_order i [] = tt
  numbered_order i (p ∷ ps) = (
    All-of_Member (λ d. i < at d) (numbered meta total (suc i) ps)
        (λ d m. omega (arith, (numbered_range meta total (suc i) ps d m).0)),
    numbered_order (suc i) ps,
  )

  numbered_total :
      (i : ℕ) (ps : List (List ℕ)) (c : Chunk)
      → Member c (numbered meta total i ps)
      → c.total ≡ total
  unfolding numbered
  numbered_total i [] c m = absurd m
  numbered_total i (p ∷ ps) c (inl e) = ap (λ (d : Chunk). d.total) e
  numbered_total i (p ∷ ps) c (inr m) = numbered_total (suc i) ps c m

-- Two strictly rising lists of the same chunks are the same.
strict_same :
    (xs ys : List Chunk)
    → IsStrict xs
    → IsStrict ys
    → ((c : Chunk) → Member c xs → Member c ys)
    → ((c : Chunk) → Member c ys → Member c xs)
    → xs ≡ ys
strict_same [] [] s t to from = refl
strict_same [] (y ∷ ys) s t to from = absurd (from y (inl refl))
strict_same (x ∷ xs) [] s t to from = absurd (to x (inl refl))
strict_same (x ∷ xs) (y ∷ ys) s t to from =
    ap₂ (λ (c : Chunk) (l : List Chunk). c ∷ l) heads
      (strict_same xs ys s.1 t.1 (λ c m. later c m (to c (inr m)))
        λ c m. earlier c m (from c (inr m)))
  where
    heads : x ≡ y
    heads = elim (to x (inl refl)) [
      | inl e ↦ e
      | inr m ↦ elim (from y (inl refl)) [
        | inl e ↦ sym e
        | inr n ↦ absurd (
            omega (
              arith,
              All-Member (λ d. at y < at d) x ys t.0 m,
              All-Member (λ d. at x < at d) y xs s.0 n,
            ))
      ]
    ]

    later : (c : Chunk) → Member c xs → Member c (y ∷ ys) → Member c ys
    later c m (inl e) =
        absurd (omega (arith, All-Member (λ d. at x < at d) c xs s.0 m, ap at e, ap at heads))
    later c m (inr n) = n

    earlier : (c : Chunk) → Member c ys → Member c (x ∷ xs) → Member c xs
    earlier c m (inl e) =
        absurd (omega (arith, All-Member (λ d. at y < at d) c ys t.0 m, ap at e, ap at heads))
    earlier c m (inr n) = n

-- Of a message of these pieces, what is gathered is full only if it is all of them.
full_length :
    (meta : ChunkMeta) (ps : List (List ℕ)) (cs : List Chunk)
    → All (λ c. Member c (numbered meta (length ps) 0 ps)) cs
    → is_full cs ≡ true
    → length cs ≡ length ps
full_length meta ps [] ms full = absurd (cc)
full_length meta ps (c ∷ cs) ms full = ground (arith, numbered_total meta (length ps) 0 ps c ms.0)

get-chunks :
    (mtu : ℕ) (meta : ChunkMeta) (bytes : List ℕ) (pool : List Chunk) (id : ℕ)
    → bytes ≢ []
    → ((c : Chunk) → Member c (only id pool) → Member c (chunks_of mtu meta bytes))
    → (((c : Chunk) → Member c (chunks_of mtu meta bytes) → Member c (only id pool))
        → get pool id ≡ some bytes)
      × ((c : Chunk)
          → Member c (chunks_of mtu meta bytes)
          → ¬ Member c (only id pool)
          → get pool id ≡ none)
unfolding get search try_withdraw is_completed
get-chunks mtu meta bytes pool id some_byte known = (whole, missing)
  where
    ps : List (List ℕ)
    ps = pieces_of (suc mtu) (length bytes) bytes

    found : List Chunk
    found = only id pool

    twice : List Chunk
    twice = formalize (formalize found)

    copies : IsCopies found
    copies c d p q e = numbered-IsCopies meta (length ps) 0 ps c d (known c p) (known d q) e

    copies_once : IsCopies (formalize found)
    copies_once c d p q e = copies c d (Member-formalize c found p) (Member-formalize d found q) e

    out : (c : Chunk) → Member c twice → Member c found
    out c m = Member-formalize c found (Member-formalize c (formalize found) m)

    whole :
        ((c : Chunk) → Member c (chunks_of mtu meta bytes) → Member c found)
        → get pool id ≡ some bytes
    whole all =
        try_withdraw-full (formalize found) (chunks_of mtu meta bytes)
          (strict_same twice (chunks_of mtu meta bytes) (formalize-IsStrict found)
            (numbered_order meta (length ps) 0 ps) (λ c m. known c (out c m))
            λ c m.
              formalize-Member c (formalize found) copies_once
                (formalize-Member c found copies (all c m)))
          (chunks_of-full mtu meta bytes some_byte)
        ∙ ap some (chunks_of-joined mtu meta bytes)

    missing :
        (c : Chunk) → Member c (chunks_of mtu meta bytes) → ¬ Member c found → get pool id ≡ none
    missing c m lost = elim (Bool-cases (is_full twice)) [
      | inl full ↦
          let within : All (λ d. Member d (chunks_of mtu meta bytes)) twice =
            All-of_Member (λ d. Member d (chunks_of mtu meta bytes)) twice
              λ d q. known d (out d q) in
          let same : twice ≡ chunks_of mtu meta bytes =
            numbered-IsStrict meta (length ps) 0 ps twice (formalize-IsStrict found) within
              (full_length meta ps twice within full) in
          absurd (lost (out c (subst (λ l. Member c l) (sym same) m)))
      | inr short ↦ rw short refl
    ]

-- If all chunks in the pool that bear the id of a message, which is not empty, are chunks of it,
-- then `get` gives the message when each of its chunks is there at least once, in any order and
-- however often each came, and it gives nothing when one of them is missing, however often the
-- others came.
pub get-copies :
    (mtu : ℕ) (meta : ChunkMeta) (bytes : List ℕ) (pieces pool : List Chunk) (id : ℕ)
    → bytes ≢ []
    → from_bytes (suc mtu) meta bytes ≡ ok pieces
    → ((c : Chunk) → Member c (only id pool) → Member c pieces)
    → (((c : Chunk) → Member c pieces → Member c (only id pool)) → get pool id ≡ some bytes)
      × ((c : Chunk) → Member c pieces → ¬ Member c (only id pool) → get pool id ≡ none)
get-copies mtu meta bytes pieces pool id some_byte made =
    subst
      (λ l.
        ((c : Chunk) → Member c (only id pool) → Member c l)
        → (((c : Chunk) → Member c l → Member c (only id pool)) → get pool id ≡ some bytes)
          × ((c : Chunk) → Member c l → ¬ Member c (only id pool) → get pool id ≡ none))
      same (get-chunks mtu meta bytes pool id some_byte)
  where
    ok-injective : {x y : List Chunk} → Result.ok x ≡ ok y → x ≡ y
    ok-injective e = cc

    same : chunks_of mtu meta bytes ≡ pieces
    same = unfold from_bytes in ok-injective made
