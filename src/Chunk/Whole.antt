-- ===== src/Chunk/Whole.antt =====
-- A message that is cut into chunks is put together again, whatever the order of its chunks.
use bns_node.Common.{
  ℕ, zero, suc, ◌+◌, ◌-◌, ◌≤◌, ◌≡◌, ◌≢◌, refl, ap, sym, ◌∙◌, inl, inr, true, some, List, [], ◌∷◌,
  ◌++◌, length, length-drop, take, drop, All, Member, All-of_Member, le→not-ltb, Bool-cases, ◌==◌,
  ==_self, arith, subst, Result, ok,
}
use bns_node.Common.Sort.{sort_by_key, All-sort_by_key, length-sort_by_key}
use bns_node.Chunk.{
  Chunk, ChunkMeta, numbered, pieces_of, from_bytes, formalize, is_full, joined, try_withdraw, only,
  search, get, remove, remove_expired, handle, max_ttl_ms, ts_offset_tolerance_ms,
}
use bns_node.Chunk.Rising.{
  at, IsApart, sort-IsStrict, dedup-IsApart, numbered-IsStrict, numbered_range,
}

-- All chunks of a message, in some order and each once.
pub record IsWhole (pieces cs : List Chunk) : Type 0 where
  pub apart : IsApart cs
  pub members : All (λ c. Member c pieces) cs
  pub all_there : length cs ≡ length pieces

abbrev concat : List (List ℕ) → List ℕ
concat [] = []
concat (p ∷ ps) = p ++ concat ps

module _ (meta : ChunkMeta) (total : ℕ) where
  pub length-numbered : (i : ℕ) (ps : List (List ℕ)) → length (numbered meta total i ps) ≡ length ps
  unfolding numbered
  length-numbered i [] = refl
  length-numbered i (p ∷ ps) = ap suc (length-numbered (suc i) ps)

  numbered-IsApart : (i : ℕ) (ps : List (List ℕ)) → IsApart (numbered meta total i ps)
  unfolding numbered
  numbered-IsApart i [] = tt
  numbered-IsApart i (p ∷ ps) = (
    All-of_Member (λ d. i ≢ at d) (numbered meta total (suc i) ps)
        (λ d m q. omega (arith, (numbered_range meta total (suc i) ps d m).0, q)),
    numbered-IsApart (suc i) ps,
  )

  numbered-IsWhole :
      (i : ℕ) (ps : List (List ℕ)) → IsWhole (numbered meta total i ps) (numbered meta total i ps)
  numbered-IsWhole i ps = record {
    apart = numbered-IsApart i ps;
    members =
        All-of_Member (λ c. Member c (numbered meta total i ps)) (numbered meta total i ps)
          (λ c m. m);
    all_there = refl;
  }

  formalize-IsWhole :
      (i : ℕ) (ps : List (List ℕ)) (cs : List Chunk)
      → IsWhole (numbered meta total i ps) cs
      → formalize cs ≡ numbered meta total i ps
  unfolding formalize
  formalize-IsWhole i ps cs w =
      ap (sort_by_key at) (dedup-IsApart cs w.apart)
      ∙ numbered-IsStrict meta total i ps (sort_by_key at cs) (sort-IsStrict cs w.apart)
          (All-sort_by_key at (λ c. Member c (numbered meta total i ps)) cs w.members)
          (length-sort_by_key at cs ∙ w.all_there ∙ length-numbered i ps)

  joined-numbered : (i : ℕ) (ps : List (List ℕ)) → joined (numbered meta total i ps) ≡ concat ps
  unfolding joined numbered
  joined-numbered i [] = refl
  joined-numbered i (p ∷ ps) = ap (λ (l : List ℕ). p ++ l) (joined-numbered (suc i) ps)

take-drop : (n : ℕ) (xs : List ℕ) → take n xs ++ drop n xs ≡ xs
take-drop zero xs = refl
take-drop (suc n) [] = refl
take-drop (suc n) (x ∷ xs) = ap (λ (l : List ℕ). x ∷ l) (take-drop n xs)

concat-pieces_of :
    (mtu fuel : ℕ) (bytes : List ℕ)
    → length bytes ≤ fuel
    → concat (pieces_of (suc mtu) fuel bytes) ≡ bytes
unfolding pieces_of
concat-pieces_of mtu fuel [] h = refl
concat-pieces_of mtu zero (b ∷ bytes) h = absurd (omega arith)
concat-pieces_of mtu (suc fuel) (b ∷ bytes) h =
    ap (λ (l : List ℕ). b ∷ (take mtu bytes ++ l))
      (concat-pieces_of mtu fuel (drop mtu bytes) (omega (arith, length-drop {0} mtu bytes)))
    ∙ ap (λ (l : List ℕ). b ∷ l) (take-drop mtu bytes)

-- The chunks of a message.
abbrev pub chunks_of : ℕ → ChunkMeta → List ℕ → List Chunk
chunks_of mtu meta bytes =
    let ps = pieces_of (suc mtu) (length bytes) bytes in numbered meta (length ps) 0 ps

pub chunks_of-full :
    (mtu : ℕ) (meta : ChunkMeta) (bytes : List ℕ)
    → bytes ≢ []
    → is_full (chunks_of mtu meta bytes) ≡ true
unfolding pieces_of numbered
chunks_of-full mtu meta [] h = absurd (h refl)
chunks_of-full mtu meta (b ∷ bytes) h =
    let rest = pieces_of (suc mtu) (length bytes) (drop mtu bytes) in
    rw (length-numbered meta (suc (length rest)) 1 rest) (==_self (suc (length rest)))

pub try_withdraw-full :
    (cs l : List Chunk) → formalize cs ≡ l → is_full l ≡ true → try_withdraw cs ≡ some (joined l)
unfolding try_withdraw formalize
try_withdraw-full cs l e full = rw (e, full) refl

pub chunks_of-joined :
    (mtu : ℕ) (meta : ChunkMeta) (bytes : List ℕ) → joined (chunks_of mtu meta bytes) ≡ bytes
chunks_of-joined mtu meta bytes =
    let ps = pieces_of (suc mtu) (length bytes) bytes in
    joined-numbered meta (length ps) 0 ps ∙ concat-pieces_of mtu (length bytes) bytes (omega arith)

-- All chunks of a message that is not empty, each once and in any order, give the message.
pub try_withdraw-IsWhole :
    (mtu : ℕ) (meta : ChunkMeta) (bytes : List ℕ) (pieces cs : List Chunk)
    → bytes ≢ []
    → from_bytes (suc mtu) meta bytes ≡ ok pieces
    → IsWhole pieces cs
    → try_withdraw cs ≡ some bytes
try_withdraw-IsWhole mtu meta bytes pieces cs some_byte made w =
    let ps = pieces_of (suc mtu) (length bytes) bytes in
    let same : chunks_of mtu meta bytes ≡ pieces = unfold from_bytes in ok-injective made in
    try_withdraw-full cs (chunks_of mtu meta bytes)
      (formalize-IsWhole meta (length ps) 0 ps cs (subst (λ l. IsWhole l cs) (sym same) w))
      (chunks_of-full mtu meta bytes some_byte)
    ∙ ap some (chunks_of-joined mtu meta bytes)
  where
    ok-injective : {x y : List Chunk} → Result.ok x ≡ ok y → x ≡ y
    ok-injective e = cc

-- What `search` finds is in order already, and is put together all the same.
get-IsWhole :
    (mtu : ℕ) (meta : ChunkMeta) (bytes : List ℕ) (pool : List Chunk) (id : ℕ)
    → bytes ≢ []
    → IsWhole (chunks_of mtu meta bytes) (only id pool)
    → get pool id ≡ some bytes
unfolding get search
get-IsWhole mtu meta bytes pool id some_byte w =
    let ps = pieces_of (suc mtu) (length bytes) bytes in
    let once = formalize-IsWhole meta (length ps) 0 ps (only id pool) w in
    let twice =
      formalize-IsWhole meta (length ps) 0 ps (chunks_of mtu meta bytes)
        (numbered-IsWhole meta (length ps) 0 ps) in
    ap try_withdraw once
    ∙ try_withdraw-full (chunks_of mtu meta bytes) (chunks_of mtu meta bytes) twice
        (chunks_of-full mtu meta bytes some_byte)
    ∙ ap some (chunks_of-joined mtu meta bytes)

remove_none : (pool : List Chunk) (id : ℕ) → only id (remove pool id) ≡ []
unfolding only remove
remove_none [] id = refl
remove_none (e ∷ es) id = elim (Bool-cases (e.meta.id == id)) [
  | inl q ↦ rw q (remove_none es id)
  | inr q ↦ rw (q, q) (remove_none es id)
]

-- When the chunk comes in that completes a message which is not empty, the message is returned
-- and no chunk of it stays in the pool: the chunk's life is not too long, it does not come from
-- the future, and with it the chunks of its message in the pool that have not expired are all
-- there, each once and in any order, whatever chunks of other messages are between them.
pub handle-IsWhole :
    (mtu now : ℕ) (meta : ChunkMeta) (bytes : List ℕ) (pieces pool : List Chunk) (chunk : Chunk)
    → bytes ≢ []
    → from_bytes (suc mtu) meta bytes ≡ ok pieces
    → chunk.meta.ttl_ms ≤ max_ttl_ms
    → ts_offset_tolerance_ms ≤ chunk.meta.ts_ms
    → chunk.meta.ts_ms ≤ now + ts_offset_tolerance_ms
    → IsWhole pieces (only chunk.meta.id (remove_expired (pool ++ chunk ∷ []) now))
    → (kept : List Chunk) × (handle pool now chunk ≡ ok (kept, some bytes))
      × (only chunk.meta.id kept ≡ [])
unfolding handle
handle-IsWhole mtu now meta bytes pieces pool chunk some_byte made life past early w =
    let id = chunk.meta.id in
    let left = remove_expired (pool ++ chunk ∷ []) now in
    let same : chunks_of mtu meta bytes ≡ pieces = unfold from_bytes in ok-injective made in
    let found : get left id ≡ some bytes =
      get-IsWhole mtu meta bytes left id some_byte
        (subst (λ l. IsWhole l (only id left)) (sym same) w) in
    (
      remove left id,
      rw
          (
            le→not-ltb chunk.meta.ttl_ms max_ttl_ms life,
            le→not-ltb ts_offset_tolerance_ms chunk.meta.ts_ms past,
            le→not-ltb (chunk.meta.ts_ms - ts_offset_tolerance_ms) now (omega arith),
            found,
          )
          refl,
      remove_none left id,
    )
  where
    ok-injective : {x y : List Chunk} → Result.ok x ≡ ok y → x ≡ y
    ok-injective e = cc
