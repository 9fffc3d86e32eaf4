-- ===== src/Relay/Loops.antt =====
-- The check for infinite loops of crates/core/src/message/protocols/relay.rs.
use mathlib.Core.List.{reverse, reverse-cons, reverse-append, append_assoc}
use bns_node.Common.{
  ℕ, suc, ◌+◌, ◌-◌, ◌<◌, ◌≤◌, ◌≡◌, refl, ap, sym, ◌∙◌, inl, inr, ◌⊎◌, true, false, List, [], ◌∷◌,
  ◌++◌, length, length-append, take, drop, Member, ◌==◌, ==_self, ==_ne, ==_false→ne, Bool-cases,
  arith, err, Error, subst,
}
use bns_node.Relay.{
  MessageRelay, indexes_of, agree, lesser, loops_at, loops_back, has_infinite_loop, has_repeat,
  validate,
}

pub Member-append : (v : ℕ) (xs ys : List ℕ) → Member v (xs ++ ys) → Member v xs ⊎ Member v ys
Member-append v [] ys m = inr m
Member-append v (x ∷ xs) ys (inl e) = inl (inl e)
Member-append v (x ∷ xs) ys (inr m) = elim (Member-append v xs ys m) [
  | inl p ↦ inl (inr p)
  | inr p ↦ inr p
]

pub Member-reverse : (v : ℕ) (xs : List ℕ) → Member v (reverse xs) → Member v xs
Member-reverse v [] m = m
Member-reverse v (x ∷ xs) m =
    elim (Member-append v (reverse xs) (x ∷ []) (subst (Member v) (reverse-cons x xs) m)) [
      | inl p ↦ inr (Member-reverse v xs p)
      | inr p ↦ elim p [ inl e ↦ inl e | inr q ↦ absurd q ]
    ]

pub indexes_of-fresh : (v i : ℕ) (xs : List ℕ) → ¬ Member v xs → indexes_of v i xs ≡ []
unfolding indexes_of
indexes_of-fresh v i [] h = refl
indexes_of-fresh v i (x ∷ xs) h =
    rw (==_ne x v (λ e. h (inl (sym e)))) (indexes_of-fresh v (suc i) xs (λ m. h (inr m)))

indexes_of-append :
    (v i : ℕ) (xs ys : List ℕ)
    → ¬ Member v xs
    → indexes_of v i (xs ++ ys) ≡ indexes_of v (i + length xs) ys
unfolding indexes_of
indexes_of-append v i [] ys h = ap (λ (n : ℕ). indexes_of v n ys) (omega arith)
indexes_of-append v i (x ∷ xs) ys h = rw (==_ne x v (λ e. h (inl (sym e)))) (
    indexes_of-append v (suc i) xs ys (λ m. h (inr m))
    ∙ ap (λ (n : ℕ). indexes_of v n ys) (omega arith))

-- A cycle holds its first element once.
indexes_of-cycle :
    (x i : ℕ) (t ys : List ℕ)
    → ¬ Member x t
    → indexes_of x i ((x ∷ t) ++ ys) ≡ i ∷ indexes_of x (i + length (x ∷ t)) ys
unfolding indexes_of
indexes_of-cycle x i t ys h = rw (==_self x) (
    ap (λ (l : List ℕ). i ∷ l)
      (indexes_of-append x (suc i) t ys h ∙ ap (λ (n : ℕ). indexes_of x n ys) (omega arith)))

drop-length_add : (xs ys : List ℕ) (k : ℕ) → drop (length xs + k) (xs ++ ys) ≡ drop k ys
drop-length_add [] ys k = ap (λ (n : ℕ). drop n ys) (omega arith)
drop-length_add (x ∷ xs) ys k =
    let e : length (x ∷ xs) + k ≡ suc (length xs + k) = omega arith in
    ap (λ (n : ℕ). drop n (x ∷ (xs ++ ys))) e ∙ drop-length_add xs ys k

drop-length : (xs ys : List ℕ) → drop (length xs) (xs ++ ys) ≡ ys
drop-length xs ys = ap (λ (n : ℕ). drop n (xs ++ ys)) (omega arith) ∙ drop-length_add xs ys 0

drop-twice : (xs ys : List ℕ) → drop (length xs + length xs) (xs ++ (xs ++ ys)) ≡ ys
drop-twice xs ys = drop-length_add xs (xs ++ ys) (length xs) ∙ drop-length xs ys

agree_same :
    (i m : ℕ) (r a b c : List ℕ)
    → i + length r ≡ m
    → 0 < length r
    → agree i m (r ++ a) (r ++ b) (r ++ c) ≡ true
unfolding agree
agree_same i m [] a b c e h = absurd (omega arith)
agree_same i m (x ∷ r) a b c e h = elim (Bool-cases (i == m - 1)) [
  | inl q ↦ rw (==_self x, q) refl
  | inr q ↦
      rw (==_self x, q)
        (agree_same (suc i) m r a b c (omega arith) (omega (arith, ==_false→ne i (m - 1) q)))
]

lesser_least : (a c : ℕ) → a ≤ c → lesser (lesser a a) c ≡ a
lesser_least a c h = ground arith

loops_at_cycle :
    (r q : List ℕ) (rest : List ℕ)
    → 0 < length r
    → loops_at (r ++ (r ++ (r ++ q))) (0 ∷ length r ∷ (length r + length r) ∷ rest) ≡ true
unfolding loops_at
loops_at_cycle r q rest h =
    let n = length r in
    let path = r ++ (r ++ (r ++ q)) in
    let len : length path ≡ n + (n + (n + length q)) =
      length-append r (r ++ (r ++ q))
      ∙ ap (λ (k : ℕ). n + k)
          (length-append r (r ++ q) ∙ ap (λ (k : ℕ). n + k) (length-append r q)) in
    let first : n - 0 ≡ n = omega arith in
    let second : n + n - n ≡ n = omega arith in
    let third : lesser (lesser n n) (length path - (n + n)) ≡ n =
      lesser_least n (length path - (n + n)) (omega (arith, len)) in
    rw
      (
        first,
        second,
        third,
        drop-length r (r ++ (r ++ q)),
        drop-twice r (r ++ q),
        agree_same 0 n r (r ++ (r ++ q)) (r ++ q) q (omega arith) h,
        ==_self n,
      )
      refl

-- A path backwards that starts with the same cycle three times.
loops_back_cycle :
    (x : ℕ) (t q : List ℕ)
    → ¬ Member x t
    → let r = x ∷ t in loops_back (r ++ (r ++ (r ++ q))) ≡ true
unfolding loops_back
loops_back_cycle x t q h =
    let r = x ∷ t in
    let n = length r in
    let start : 0 + n ≡ n = omega arith in
    let found : indexes_of x 0 (r ++ (r ++ (r ++ q)))
        ≡ 0 ∷ n ∷ (n + n) ∷ indexes_of x (n + n + n) q =
      indexes_of-cycle x 0 t (r ++ (r ++ q)) h
      ∙ ap (λ (l : List ℕ). 0 ∷ l)
          (ap (λ (i : ℕ). indexes_of x i (r ++ (r ++ q))) start
            ∙ indexes_of-cycle x n t (r ++ q) h
            ∙ ap (λ (l : List ℕ). n ∷ l) (indexes_of-cycle x (n + n) t q h)) in
    let path = r ++ (r ++ (r ++ q)) in
    ap (λ (l : List ℕ). loops_at path (take 3 l)) found ∙ loops_at_cycle r q [] (omega arith)

pub reverse-snoc : (xs : List ℕ) (x : ℕ) → reverse (xs ++ x ∷ []) ≡ x ∷ reverse xs
reverse-snoc xs x = reverse-append xs (x ∷ [])

reverse_cycle :
    (p c : List ℕ)
    → reverse (p ++ (c ++ (c ++ c))) ≡ reverse c ++ (reverse c ++ (reverse c ++ reverse p))
reverse_cycle p c =
    reverse-append p (c ++ (c ++ c))
    ∙ ap (λ (l : List ℕ). l ++ reverse p)
        (reverse-append c (c ++ c) ∙ ap (λ (l : List ℕ). l ++ reverse c) (reverse-append c c))
    ∙ append_assoc (reverse c ++ reverse c) (reverse c) (reverse p)
    ∙ append_assoc (reverse c) (reverse c) (reverse c ++ reverse p)

-- A message that has gone round the same cycle three times is refused by the node that gets it
-- next: if no two neighbours on the path are equal, the error is that of an infinite path. The
-- cycle ends with a node that it does not pass before.
pub validate-cycle :
    (self : MessageRelay) (p u : List ℕ) (x : ℕ)
    → ¬ Member x u
    → self.path ≡ p ++ ((u ++ x ∷ []) ++ ((u ++ x ∷ []) ++ (u ++ x ∷ [])))
    → has_repeat self.path ≡ false
    → validate self self.next_hop ≡ err Error.infinite_relay_path
unfolding validate
validate-cycle self p u x h e ne = rw (==_self self.next_hop, ne, looping) refl
  where
    back :
        reverse self.path ≡ (x ∷ reverse u) ++ ((x ∷ reverse u) ++ ((x ∷ reverse u) ++ reverse p))
    back =
        ap reverse e
        ∙ reverse_cycle p (u ++ x ∷ [])
        ∙ ap (λ (c : List ℕ). c ++ (c ++ (c ++ reverse p))) (reverse-snoc u x)

    looping : has_infinite_loop self.path ≡ true
    looping =
        unfold has_infinite_loop in
        ap loops_back back
        ∙ loops_back_cycle x (reverse u) (reverse p) (λ m. h (Member-reverse x u m))
