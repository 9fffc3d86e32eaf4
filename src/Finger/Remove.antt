-- ===== src/Finger/Remove.antt =====
-- `FingerTable::remove`: the removed identifier is gone, and what it does not concern stays.
use bns_node.Common.{
  ℕ, zero, suc, ◌+◌, ◌-◌, ◌≤◌, ◌<◌, ◌≡◌, ◌≢◌, refl, ap, ◌∙◌, inl, inr, ◌⊎◌, true, Option, none,
  some, List, [], ◌∷◌, length, get_elem?, set, arith, leb, ◌==◌, Bool-cases, sym, trichotomy,
  lt-length_of_get_elem?, leb→le, not-leb→lt, length-set, get_elem?-set_self, get_elem?-set_ne,
}
use bns_node.Finger.{FingerTable, slot, slot_eq, fill, positions, last_or, remove_at, remove}

slot_eq_iff : (a : Option ℕ) (d : ℕ) → slot_eq a (some d) ≡ true → a ≡ some d
slot_eq_iff none d h = cc
slot_eq_iff (some v) d h = ground arith

slot_eq_self : (d : ℕ) → slot_eq (some d) (some d) ≡ true
slot_eq_self d = ground arith

-- The index `a`, counted from `k`, is one of an entry that holds `d`.
abbrev Occurs : ℕ → ℕ → List (Option ℕ) → ℕ → Type 0
Occurs d k f a = (p : ℕ) × (a ≡ k + p) × (get_elem? f p ≡ some (some d))

-- What the list of positions says of a table whose entries are counted from `k`.
abbrev Covers : ℕ → ℕ → List (Option ℕ) → List ℕ → Type 0
Covers d k f [] = (i : ℕ) → get_elem? f i ≢ some (some d)
Covers d k f (a ∷ rest) =
    Occurs d k f a
    × Occurs d k f (last_or a rest)
    × ((i : ℕ) → get_elem? f i ≡ some (some d) → (a ≤ k + i) × (k + i ≤ last_or a rest))

Covers-skip :
    (d k : ℕ) (x : Option ℕ) (f : List (Option ℕ)) (ixs : List ℕ)
    → x ≢ some d
    → Covers d (suc k) f ixs
    → Covers d k (x ∷ f) ixs
Covers-skip d k x f [] ne c = absent
  where
    absent : (i : ℕ) → get_elem? (x ∷ f) i ≢ some (some d)
    absent zero e = ne (cc)
    absent (suc i) e = c i e
Covers-skip d k x f (a ∷ rest) ne c =
    ((suc c.0.0, omega arith, c.0.2), (suc c.1.0, omega arith, c.1.2), inside)
  where
    inside : (i : ℕ) → get_elem? (x ∷ f) i ≡ some (some d) → (a ≤ k + i) × (k + i ≤ last_or a rest)
    inside zero e = absurd (ne (cc))
    inside (suc i) e = omega (arith, c.2 i e)

Covers-hit :
    (d k : ℕ) (x : Option ℕ) (f : List (Option ℕ)) (ixs : List ℕ)
    → x ≡ some d
    → Covers d (suc k) f ixs
    → Covers d k (x ∷ f) (k ∷ ixs)
Covers-hit d k x f [] eq c = ((0, omega arith, ap some eq), (0, omega arith, ap some eq), inside)
  where
    inside : (i : ℕ) → get_elem? (x ∷ f) i ≡ some (some d) → (k ≤ k + i) × (k + i ≤ k)
    inside zero e = omega arith
    inside (suc i) e = absurd (c i e)
Covers-hit d k x f (a ∷ rest) eq c =
    ((0, omega arith, ap some eq), (suc c.1.0, omega arith, c.1.2), inside)
  where
    inside : (i : ℕ) → get_elem? (x ∷ f) i ≡ some (some d) → (k ≤ k + i) × (k + i ≤ last_or a rest)
    inside zero e = omega (arith, c.0.1, c.2 c.0.0 c.0.2, c.1.1)
    inside (suc i) e = omega (arith, c.2 i e)

positions-Covers : (d k : ℕ) (f : List (Option ℕ)) → Covers d k f (positions d k f)
unfolding positions
positions-Covers d k [] = λ i e. cc
positions-Covers d k (x ∷ f) = elim (Bool-cases (slot_eq x (some d))) [
  | inl hit ↦ rw hit (
      Covers-hit d k x f (positions d (suc k) f) (slot_eq_iff x d hit)
        (positions-Covers d (suc k) f))
  | inr miss ↦ rw miss (
      Covers-skip d k x f (positions d (suc k) f) (λ e. ground (arith, slot_eq_self d, miss, e))
        (positions-Covers d (suc k) f))
]

get_elem?-fill_outside :
    (f : List (Option ℕ)) (o : Option ℕ) (start count j : ℕ)
    → (j < start) ⊎ (start + count ≤ j)
    → get_elem? (fill f o start count) j ≡ get_elem? f j
unfolding fill
get_elem?-fill_outside f o start zero j h = refl
get_elem?-fill_outside f o start (suc count) j h =
    get_elem?-fill_outside (set f start o) o (suc start) count j (ground arith)
    ∙ get_elem?-set_ne f start j o (ground arith)

get_elem?-fill_inside :
    (f : List (Option ℕ)) (o : Option ℕ) (start count j : ℕ)
    → start ≤ j
    → j < start + count
    → j < length f
    → get_elem? (fill f o start count) j ≡ some o
unfolding fill
get_elem?-fill_inside f o start zero j p q l = absurd (omega arith)
get_elem?-fill_inside f o start (suc count) j p q l = elim (Bool-cases (j == start)) [
  | inl here ↦ ground (
    arith,
    get_elem?-fill_outside (set f start o) o (suc start) count j (inl (ground arith)),
    get_elem?-set_self f start o,
  )
  | inr later ↦
      get_elem?-fill_inside (set f start o) o (suc start) count j (ground arith) (omega arith)
        (omega (arith, length-set {0} f start o))
]

slot-some : (f : List (Option ℕ)) (i v : ℕ) → slot f i ≡ some v → get_elem? f i ≡ some (some v)
slot-some [] i v h = cc
slot-some (x ∷ f) zero v h = ap some h
slot-some (x ∷ f) (suc i) v h = slot-some f i v h

module _ (f : List (Option ℕ)) (d a : ℕ) (rest : List ℕ) (c : Covers d 0 f (a ∷ rest)) where
  abbrev final : ℕ
  final = last_or a rest

  abbrev filled : List (Option ℕ)
  filled = fill f (slot f (final + 1)) a (final + 1 - a)

  occurrence_between : (i : ℕ) → get_elem? f i ≡ some (some d) → (a ≤ i) × (i ≤ final)
  occurrence_between i e = omega (arith, c.2 i e)

  first_at : get_elem? f a ≡ some (some d)
  first_at = ap (get_elem? f) (omega (arith, c.0.1)) ∙ c.0.2

  final_at : get_elem? f final ≡ some (some d)
  final_at = ap (get_elem? f) (omega (arith, c.1.1)) ∙ c.1.2

  filled_inside : (i : ℕ) → a ≤ i → i ≤ final → get_elem? filled i ≡ some (slot f (final + 1))
  filled_inside i p q =
      get_elem?-fill_inside f (slot f (final + 1)) a (final + 1 - a) i p (omega arith)
        (omega (arith, lt-length_of_get_elem? f final (some d) final_at))

  filled_outside : (i : ℕ) → (i < a) ⊎ (final < i) → get_elem? filled i ≡ get_elem? f i
  filled_outside i h =
      get_elem?-fill_outside f (slot f (final + 1)) a (final + 1 - a) i
        (omega (arith, occurrence_between a first_at))

  filled_gone : (i : ℕ) → get_elem? filled i ≢ some (some d)
  filled_gone i e = elim (trichotomy i a) [
    | inl (inl p) ↦
        absurd (omega (arith, occurrence_between i (sym (filled_outside i (inl p)) ∙ e)))
    | inl (inr p) ↦ within (omega arith) (omega (arith, occurrence_between a first_at))
    | inr p ↦ elim (Bool-cases (leb i final)) [
      | inl q ↦ within (omega arith) (leb→le i final q)
      | inr q ↦ absurd (
          omega (
            arith,
            not-leb→lt i final q,
            occurrence_between i (sym (filled_outside i (inr (not-leb→lt i final q))) ∙ e),
          ))
    ]
  ]
    where
      within : a ≤ i → i ≤ final → ⊥
      within p q = absurd (
          omega (
            arith,
            occurrence_between (final + 1) (slot-some f (final + 1) d (cc (filled_inside i p q))),
          ))

-- What `remove_at` does, given the positions of the occurrences.
abbrev IsRemoved : ℕ → List (Option ℕ) → List (Option ℕ) → Type 0
IsRemoved did f out =
    ((i : ℕ) → get_elem? out i ≢ some (some did))
    × ((i j l : ℕ)
        → get_elem? f j ≡ some (some did)
        → get_elem? f l ≡ some (some did)
        → ((m : ℕ) → get_elem? f m ≡ some (some did) → m ≤ l)
        → j ≤ i
        → i ≤ l
        → get_elem? out i ≡ some (slot f (l + 1)))
    × ((i : ℕ)
        → ((j : ℕ) → get_elem? f j ≡ some (some did) → i < j)
          ⊎ ((j : ℕ) → get_elem? f j ≡ some (some did) → j < i)
        → get_elem? out i ≡ get_elem? f i)

remove_at-IsRemoved :
    (t : FingerTable) (did : ℕ) (ixs : List ℕ)
    → Covers did 0 t.finger ixs
    → IsRemoved did t.finger (remove_at t ixs).finger
unfolding remove_at
remove_at-IsRemoved t did [] c = (c, λ i j l e. absurd (c j e), λ i h. refl)
remove_at-IsRemoved t did (a ∷ rest) c = (filled_gone t.finger did a rest c, between, stays)
  where
    between :
        (i j l : ℕ)
        → get_elem? t.finger j ≡ some (some did)
        → get_elem? t.finger l ≡ some (some did)
        → ((m : ℕ) → get_elem? t.finger m ≡ some (some did) → m ≤ l)
        → j ≤ i
        → i ≤ l
        → get_elem? (filled t.finger did a rest c) i ≡ some (slot t.finger (l + 1))
    between i j l ej el top p q =
        let at : l ≡ last_or a rest = omega (
          arith,
          occurrence_between t.finger did a rest c l el,
          top (last_or a rest) (final_at t.finger did a rest c),
        ) in
        filled_inside t.finger did a rest c i
          (omega (arith, occurrence_between t.finger did a rest c j ej)) (omega arith)
        ∙ ap (λ (m : ℕ). some (slot t.finger (m + 1))) (sym at)

    stays :
        (i : ℕ)
        → ((j : ℕ) → get_elem? t.finger j ≡ some (some did) → i < j)
          ⊎ ((j : ℕ) → get_elem? t.finger j ≡ some (some did) → j < i)
        → get_elem? (filled t.finger did a rest c) i ≡ get_elem? t.finger i
    stays i (inl h) =
        filled_outside t.finger did a rest c i (inl (h a (first_at t.finger did a rest c)))
    stays i (inr h) =
        filled_outside t.finger did a rest c i
          (inr (h (last_or a rest) (final_at t.finger did a rest c)))

-- Removing `did` leaves no entry that holds it. The entries from its first to its last occurrence
-- all take the entry that follows the last one, or become empty at the end of the table. An entry
-- that lies before every occurrence or behind every occurrence is unchanged.
pub remove_lem :
    (t : FingerTable) (did : ℕ)
    → let f = t.finger in
      let out = (remove t did).finger in
      ((i : ℕ) → get_elem? out i ≢ some (some did))
      × ((i j l : ℕ)
          → get_elem? f j ≡ some (some did)
          → get_elem? f l ≡ some (some did)
          → ((m : ℕ) → get_elem? f m ≡ some (some did) → m ≤ l)
          → j ≤ i
          → i ≤ l
          → get_elem? out i ≡ some (slot f (l + 1)))
      × ((i : ℕ)
          → ((j : ℕ) → get_elem? f j ≡ some (some did) → i < j)
            ⊎ ((j : ℕ) → get_elem? f j ≡ some (some did) → j < i)
          → get_elem? out i ≡ get_elem? f i)
unfolding remove
remove_lem t did =
    remove_at-IsRemoved t did (positions did 0 t.finger) (positions-Covers did 0 t.finger)
