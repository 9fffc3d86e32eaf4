-- ===== src/Successor/Update.antt =====
-- `SuccessorSeq::update`: well-formed lists, and what one update makes of them.
use native.Mathlib.Nat.{mod-eq_of_lt}
use bns_node.Common.{
  ℕ, ◌^◌, ◌≤◌, ◌<◌, ◌≡◌, ◌≢◌, refl, ap, sym, inl, inr, ◌⊎◌, true, false, ◌||◌, ◌&&◌, Option, none,
  some, List, [], ◌∷◌, All, Member, length, get_elem?, take, contains, arith, leb, ◌==◌,
  if◌then◌else◌, Bool-cases, not-leb→lt, ==_false→ne, ==_iff, All-imp, All-Member, All-of_Member,
  take_all, Member-contains, contains-Member, not-Member, subst, ok,
}
use bns_node.Common.Sort.{insert_by, length-insert_by}
use bns_node.Did.{IsDid, sub}
use bns_node.Did.Ring.{sub-injective, sub_self}
use bns_node.Did.Bias
use bns_node.Did.Sort.{sort}
use bns_node.Successor.{SuccessorSeq, new, is_full, max_succ, should_insert, insert, update, bias}
use bns_node.Successor.Ordered.{
  IsRising, sort_by_key-snoc, insert_by-IsRising, take-IsRising, take-cases, Member-insert_by,
  insert_by-Member, Member-take, length-lt,
}

-- Clockwise distance from the node.
abbrev pub distance : SuccessorSeq → ℕ → ℕ
distance s = λ d. sub d s.did

abbrev pub IsOther : ℕ → ℕ → Type 0
IsOther did d = IsDid d × (d ≢ did)

-- The successors are other nodes, in strictly rising distance, and at most `max` of them.
pub record IsValid (s : SuccessorSeq) : Type 0 where
  pub own : IsDid s.did
  pub max_byte : s.max < 2 ^ 8
  pub bounded : length s.successors ≤ s.max
  pub rising : IsRising (distance s) s.successors
  pub others : All (IsOther s.did) s.successors

pub new-IsValid : (did max : ℕ) → IsDid did → max < 2 ^ 8 → IsValid (new did max)
unfolding new
new-IsValid did max h k = record {
  own = h;
  max_byte = k;
  bounded = omega arith;
  rising = tt;
  others = tt;
}

IsRising-last :
    (key : ℕ → ℕ) (x : ℕ) (xs : List ℕ)
    → IsRising key (x ∷ xs)
    → (m : ℕ) × (get_elem? (x ∷ xs) (length xs) ≡ some m)
      × Member m (x ∷ xs)
      × All (λ y. key y ≤ key m) (x ∷ xs)
IsRising-last key x [] h = (x, refl, inl refl, (omega arith, tt))
IsRising-last key x (y ∷ ys) h =
    let (m, e, mem, top) = IsRising-last key y ys h.1 in
    (m, e, inr mem, (omega (arith, h.0.0, top.0), top))

-- `max` returns the last successor, or the node itself if there is none.
pub max_succ_lem :
    (s : SuccessorSeq)
    → IsValid s
    → (m : ℕ) × (max_succ s ≡ ok m)
      × All (λ y. sub y s.did ≤ sub m s.did) s.successors
      × (Member m s.successors ⊎ ((s.successors ≡ []) × (m ≡ s.did)))
max_succ_lem s v = go s.successors refl v.rising
  where
    go :
        (l : List ℕ)
        → s.successors ≡ l
        → IsRising (distance s) l
        → (m : ℕ) × (max_succ s ≡ ok m)
          × All (λ y. sub y s.did ≤ sub m s.did) l
          × (Member m l ⊎ ((l ≡ []) × (m ≡ s.did)))
    go [] e h = (s.did, unfold max_succ in rw e, tt, inr (refl, refl))
    go (x ∷ xs) e h =
        let (m, found, mem, top) = IsRising-last (distance s) x xs h in
        (m, unfold max_succ in rw e (ground (arith, found)), top, inl mem)

pub distinct :
    (s : SuccessorSeq) (d : ℕ)
    → IsValid s
    → IsDid d
    → ¬ Member d s.successors
    → All (λ y. distance s d ≢ distance s y) s.successors
distinct s d v h fresh =
    All-of_Member (λ y. distance s d ≢ distance s y) s.successors
      λ y m e. fresh (
        subst (λ a. Member a s.successors)
          (sym (
            sub-injective d y s.did h (All-Member (IsOther s.did) y s.successors v.others m).0 v.own
              e))
          m)

-- An insertion takes in `d` and keeps the closest `max`.
insert_lem :
    (s : SuccessorSeq) (d : ℕ)
    → IsValid s
    → IsDid d
    → ¬ Member d s.successors
    → (insert s d).0.successors ≡ take s.max (insert_by (distance s) d s.successors)
unfolding insert sort
insert_lem s d v h fresh =
    rw (sort_by_key-snoc (distance s) d s.successors (distinct s d v h fresh) v.rising)

-- What an update of `s` by `d` gives: nothing, because `d` is the node itself, or in the list, or
-- too far away; or the list with `d` inserted and cut at `max`, and `d` in it.
pub data IsUpdate (s : SuccessorSeq) (d : ℕ) : SuccessorSeq → Option ℕ → Type 0 where
  known : (d ≡ s.did) ⊎ Member d s.successors → IsUpdate s d s none
  too_far :
      length s.successors ≡ s.max
      → All (λ y. sub y s.did < sub d s.did) s.successors
      → IsUpdate s d s none
  inserted :
      (l : List ℕ)
      → l ≡ take s.max (insert_by (distance s) d s.successors)
      → d ≢ s.did
      → ¬ Member d s.successors
      → Member d l
      → ((length s.successors < s.max)
          ⊎ ((y : ℕ) × Member y s.successors × (sub d s.did < sub y s.did)))
      → IsUpdate s d (record s { successors = l }) (some d)

-- The test of `should_insert`, over distances.
should_insert_lem :
    (s : SuccessorSeq) (d m : ℕ)
    → IsValid s
    → max_succ s ≡ ok m
    → should_insert s d
      ≡ ok (
          if contains s.successors d || d == s.did
          then false
          else if leb (sub m s.did) (sub d s.did) && leb s.max (length s.successors)
          then false
          else true)
unfolding should_insert is_full bias
should_insert_lem s d m v e =
    rw
      (
        e,
        Bias.ge-new s.did d m,
        mod-eq_of_lt {n = length s.successors} {m = 2 ^ 8} (omega (arith, v.bounded, v.max_byte)),
      )
      (ground arith)

-- What is inserted before the last member, or into a list with room, stays.
insert-stays :
    (s : SuccessorSeq) (d : ℕ)
    → IsValid s
    → ¬ Member d s.successors
    → All (λ y. distance s d ≢ distance s y) s.successors
    → (length s.successors < s.max)
      ⊎ ((y : ℕ) × Member y s.successors × (sub d s.did < sub y s.did))
    → Member d (take s.max (insert_by (distance s) d s.successors))
insert-stays s d v fresh ne (inl room) =
    rw
      (take_all s.max (insert_by (distance s) d s.successors)
        (omega (arith, length-insert_by {0} (distance s) d s.successors)))
      (insert_by-Member (distance s) d d s.successors (inl refl))
insert-stays s d v fresh ne (inr (y, m, lt)) =
    elim (take-cases (distance s) d s.max grown rises
      (insert_by-Member (distance s) d d s.successors (inl refl))) [
        | inl p ↦ p
        | inr p ↦ absurd (
            omega (
              arith,
              p.0,
              v.bounded,
              length-lt (distance s) y (take s.max grown) s.successors
                  (take-IsRising (distance s) s.max grown rises) v.rising
                  (All-of_Member (λ x. Member x s.successors) (take s.max grown) (old p.1))
                  (All-imp (λ x. sub x s.did < sub d s.did) (λ x. sub x s.did < sub y s.did)
                    (λ x q. omega arith) (take s.max grown) p.1)
                  m,
            ))
      ]
  where
    grown : List ℕ
    grown = insert_by (distance s) d s.successors

    rises : IsRising (distance s) grown
    rises = insert_by-IsRising (distance s) d s.successors ne v.rising

    old :
        All (λ x. sub x s.did < sub d s.did) (take s.max grown)
        → (x : ℕ) → Member x (take s.max grown)
        → Member x s.successors
    old q x k =
        elim (Member-insert_by (distance s) x d s.successors
          (Member-take (distance s) x s.max grown k)) [
            | inl e ↦ absurd (
                ground (
                  arith,
                  ap (λ (z : ℕ). sub z s.did) e,
                  All-Member (λ z. sub z s.did < sub d s.did) x (take s.max grown) q k,
                ))
            | inr r ↦ r
          ]

insert-IsUpdate :
    (s : SuccessorSeq) (d : ℕ)
    → IsValid s
    → IsDid d
    → d ≢ s.did
    → ¬ Member d s.successors
    → (length s.successors < s.max)
      ⊎ ((y : ℕ) × Member y s.successors × (sub d s.did < sub y s.did))
    → IsUpdate s d (insert s d).0 (insert s d).1
unfolding insert
insert-IsUpdate s d v h ne fresh room =
    let kept = insert-stays s d v fresh (distinct s d v h fresh) room in
    let eq = insert_lem s d v h fresh in
    let there : Member d (insert s d).0.successors = subst (λ l. Member d l) (sym eq) kept in
    subst (λ o. IsUpdate s d (insert s d).0 o) (answer there)
      (inserted (insert s d).0.successors eq ne fresh there room)
  where
    answer : Member d (insert s d).0.successors → some d ≡ (insert s d).1
    answer m = unfold insert in rw (contains-Member (insert s d).0.successors d m)

-- Full, and not closer than the last successor: then farther than all of them.
full-IsUpdate :
    (s : SuccessorSeq) (d m : ℕ)
    → IsValid s
    → IsDid d
    → ¬ Member d s.successors
    → All (λ y. sub y s.did ≤ sub m s.did) s.successors
    → sub m s.did ≤ sub d s.did
    → s.max ≤ length s.successors
    → IsUpdate s d s none
full-IsUpdate s d m v h fresh top far full = too_far (omega (arith, v.bounded)) (
    All-of_Member (λ y. sub y s.did < sub d s.did) s.successors
      λ y k. omega (
        arith,
        All-Member (λ z. sub z s.did ≤ sub m s.did) y s.successors top k,
        All-Member (λ z. distance s d ≢ distance s z) y s.successors (distinct s d v h fresh) k,
      ))

-- Where the test lets `d` in, there is room or the last successor is farther.
room-cases :
    (s : SuccessorSeq) (d m : ℕ)
    → IsValid s
    → Member m s.successors ⊎ ((s.successors ≡ []) × (m ≡ s.did))
    → (leb (sub m s.did) (sub d s.did) && leb s.max (length s.successors)) ≡ false
    → (length s.successors < s.max)
      ⊎ ((y : ℕ) × Member y s.successors × (sub d s.did < sub y s.did))
room-cases s d m v at test = elim (Bool-cases (leb (sub m s.did) (sub d s.did))) [
  | inl far ↦ inl (ground arith)
  | inr near ↦ elim at [
    | inl k ↦ inr (m, k, not-leb→lt (sub m s.did) (sub d s.did) near)
    | inr k ↦ absurd (ground (arith, ap (λ (z : ℕ). sub z s.did) k.1, sub_self s.did v.own))
  ]
]

pub update-IsUpdate :
    (s : SuccessorSeq) (d : ℕ)
    → IsValid s
    → IsDid d
    → (u : SuccessorSeq × Option ℕ) × (update s d ≡ ok u) × IsUpdate s d u.0 u.1
unfolding update
update-IsUpdate s d v h =
    let (m, e, top, at) = max_succ_lem s v in
    let test = should_insert_lem s d m v e in
    elim (Bool-cases (contains s.successors d)) [
      | inl c ↦ ((s, none), rw (test, c), known (inr (Member-contains s.successors d c)))
      | inr c ↦ elim (Bool-cases (d == s.did)) [
        | inl c' ↦ ((s, none), rw (test, c, c'), known (inl ((==_iff d s.did).0 c')))
        | inr c' ↦
            elim (Bool-cases (leb (sub m s.did) (sub d s.did) && leb s.max (length s.successors))) [
              | inl far ↦ (
                (s, none),
                rw (test, c, c', far),
                full-IsUpdate s d m v h (not-Member s.successors d c) top (ground arith)
                    (ground arith),
              )
              | inr near ↦ (
                insert s d,
                rw (test, c, c', near),
                insert-IsUpdate s d v h (==_false→ne d s.did c') (not-Member s.successors d c)
                    (room-cases s d m v at near),
              )
            ]
      ]
    ]
